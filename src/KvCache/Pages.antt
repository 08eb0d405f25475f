-- ===== src/KvCache/Pages.antt =====
-- The operations of `KVCacheManager` that hand out and take back pages: `allocate`,
-- `ensure_capacity`, `truncate_suffix`, `free` and the transfer leases.
pub mod Tables
use vllm_rlt.Common.{
  ℕ, zero, suc, ◌+◌, ◌-◌, ◌*◌, ◌/◌, Bool, true, false, not, ◌&&◌, List, [], ◌∷◌, ◌++◌, Option, none,
  some, String, lookup, insert, remove, Result, ok, err, value_error, runtime_error, index_error,
  ◌>>=◌, ◌>>◌, raise_if, ltb, leb, ◌==◌, if◌then◌else◌, str_eq, length, get_elem?, get_or, take,
  drop, replicate, concat, any, map, reverse,
}
use vllm_rlt.KvCache.Written.{written_to, cut}
use vllm_rlt.KvCache.Pool.{drop_refs, add_refs, claim}
use vllm_rlt.KvCache.State.{
  Allocation, Cache, storage_depths, pages_for, required_blocks, get_allocation, is_empty,
  has_allocation, held_pages,
}

-- `tuple(g[d] for g in prefix)`.
unfoldable pub column : ℕ → List (List ℕ) → Result (List ℕ)
column d [] = ok []
column d (g ∷ prefix) = elim (get_elem? g d) [
  | none ↦ err index_error
  | some b ↦ do rest ← column d prefix; ok (b ∷ rest)
]

-- `fresh[d * n : (d + 1) * n]`.
unfoldable pub share : ℕ → ℕ → List ℕ → List ℕ
share n d fresh = take n (drop (d * n) fresh)

-- The tables of the planes from `d` on, `planes` of them.
unfoldable pub build_tables : ℕ → ℕ → List (List ℕ) → ℕ → List ℕ → Result (List (List ℕ))
unfolding column share
build_tables d zero prefix tail fresh = ok []
build_tables d (suc planes) prefix tail fresh = do
  shared ← column d prefix
  rest ← build_tables (d + 1) planes prefix tail fresh
  ok ((shared ++ share tail d fresh) ∷ rest)

abbrev pub or_default : Option ℕ → ℕ → ℕ
or_default none d = d
or_default (some n) d = n

-- The end of `allocate`, with the fresh blocks at hand.
unfoldable pub admit : String → ℕ → List (List ℕ) → ℕ → List ℕ → Cache → Result Cache
unfolding build_tables written_to
admit rid max_tokens prefix tail fresh c = do
  tables ← build_tables 0 (storage_depths c.geometry) prefix tail fresh
  let extent = length prefix * c.block_size
  let plane_written = replicate c.num_layers (written_to extent)
  let allocation : Allocation = record {
    ident = c.next_ident;
    max_tokens = max_tokens;
    block_tables = tables;
    written = replicate (storage_depths c.geometry) plane_written;
    transfer_leases = [];
    release_requested = false;
  }
  ok (record c {
    allocations = insert rid allocation c.allocations;
    prefix_queries = c.prefix_queries + 1;
    prefix_hits = c.prefix_hits + extent;
    next_ident = c.next_ident + 1;
  })

-- The middle of `allocate`: references to the prefix, then the fresh blocks. On a refusal the
-- references are given back.
unfoldable pub claim_pages : String → ℕ → ℕ → List (List ℕ) → Cache → Result (Bool × Cache)
unfolding admit
claim_pages rid max_tokens pages prefix c = do
  let tail = pages - length prefix
  p ← add_refs (concat prefix) c.pool
  got ← claim (tail * storage_depths c.geometry) c.prefixes p
  elim got.blocks [
    | none ↦ do
      p' ← drop_refs (concat prefix) got.pool
      ok (false, record c { prefixes = got.prefixes; pool = p' })
    | some fresh ↦ do
      c' ←
          admit rid max_tokens prefix tail fresh
            (record c { prefixes = got.prefixes; pool = got.pool })
      ok (true, c')
  ]

-- The checks of `allocate`: the pages of the initial frontier.
unfoldable pub check_allocate : String → ℕ → Option ℕ → List (List ℕ) → Cache → Result ℕ
unfolding has_allocation required_blocks
check_allocate rid max_tokens initial prefix c = do
  raise_if (str_eq rid "") value_error
  raise_if (has_allocation rid c) value_error
  required ← required_blocks c.geometry max_tokens
  raise_if (ltb c.num_blocks required) value_error
  let initial_tokens = or_default initial max_tokens
  raise_if (not (ltb 0 initial_tokens && leb initial_tokens max_tokens)) value_error
  raise_if (ltb (pages_for c.geometry initial_tokens) (length prefix)) value_error
  ok (pages_for c.geometry initial_tokens)

unfoldable pub allocate : String → ℕ → Option ℕ → List (List ℕ) → Cache → Result (Bool × Cache)
unfolding check_allocate claim_pages
allocate rid max_tokens initial prefix c = do
  pages ← check_allocate rid max_tokens initial prefix c
  claim_pages rid max_tokens pages prefix c

-- `t + blocks[d * extra : (d + 1) * extra]` for each plane's table.
unfoldable pub extend_tables : ℕ → ℕ → List ℕ → List (List ℕ) → List (List ℕ)
unfolding share
extend_tables d extra blocks [] = []
extend_tables d extra blocks (t ∷ tables) =
    (t ++ share extra d blocks) ∷ extend_tables (d + 1) extra blocks tables

unfoldable pub grow : String → Allocation → ℕ → Cache → Result (Bool × Cache)
unfolding extend_tables
grow rid a extra c = do
  got ← claim (extra * storage_depths c.geometry) c.prefixes c.pool
  let c' = record c { prefixes = got.prefixes; pool = got.pool }
  elim got.blocks [
    | none ↦ ok (false, c')
    | some blocks ↦
        let a' = record a { block_tables = extend_tables 0 extra blocks a.block_tables } in
        ok (true, record c' { allocations = insert rid a' c.allocations })
  ]

unfoldable pub ensure_capacity : String → ℕ → Cache → Result (Bool × Cache)
unfolding get_allocation held_pages grow
ensure_capacity rid tokens c = do
  a ← get_allocation rid c
  raise_if (not (ltb 0 tokens && leb tokens a.max_tokens)) value_error
  let extra = pages_for c.geometry tokens - held_pages a
  if extra == 0 then ok (true, c) else grow rid a extra c

-- `any(self._refs[b] > 1 for b in table[frontier // self.block_size :])`. A block of a table
-- always lies in the pool.
abbrev pub shares_suffix : Cache → ℕ → List ℕ → Bool
shares_suffix c frontier table =
    any (λ b. ltb 1 (get_or c.pool.refs b 0)) (drop (frontier / c.block_size) table)

unfoldable pub truncate_suffix : String → ℕ → Cache → Result Cache
unfolding get_allocation cut
truncate_suffix rid frontier c = do
  a ← get_allocation rid c
  raise_if (ltb a.max_tokens frontier) value_error
  raise_if (not (is_empty a.transfer_leases)) value_error
  raise_if (any (shares_suffix c frontier) a.block_tables) value_error
  let a' = record a { written = map (map (cut frontier)) a.written }
  ok (record c { allocations = insert rid a' c.allocations })

-- A leased allocation is only marked; `unpin_transfer` frees it later.
unfoldable pub free : String → Cache → Result Cache
free rid c = elim (lookup rid c.allocations) [
  | none ↦ ok c
  | some a ↦
      if is_empty a.transfer_leases
      then (do
        p ← drop_refs (concat (map reverse a.block_tables)) c.pool
        ok (record c { allocations = remove rid c.allocations; pool = p }))
      else ok (record c {
        allocations = insert rid (record a { release_requested = true }) c.allocations;
      })
]

abbrev pub has_text : String → List String → Bool
has_text t = any (λ s. str_eq s t)

-- `set.discard`.
unfoldable pub discard : String → List String → List String
discard t [] = []
discard t (s ∷ ss) = let rest = discard t ss in if str_eq s t then rest else s ∷ rest

unfoldable pub pin_transfer : String → String → Cache → Result Cache
unfolding get_allocation
pin_transfer rid tid c = do
  a ← get_allocation rid c
  raise_if a.release_requested runtime_error
  let leases = if has_text tid a.transfer_leases then a.transfer_leases else tid ∷ a.transfer_leases
  ok (record c { allocations = insert rid (record a { transfer_leases = leases }) c.allocations })

unfoldable pub unpin_transfer : String → String → Cache → Result Cache
unfolding get_allocation free discard
unpin_transfer rid tid c = do
  a ← get_allocation rid c
  let leases = discard tid a.transfer_leases
  let c' = record c {
    allocations = insert rid (record a { transfer_leases = leases }) c.allocations;
  }
  if a.release_requested && is_empty leases then free rid c' else ok c'
