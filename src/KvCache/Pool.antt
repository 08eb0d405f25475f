-- ===== src/KvCache/Pool.antt =====
-- The physical pages of `KVCacheManager` (vllm_rlt/core/kv_cache_manager.py): `_refs` and
-- `_free_blocks`, with `_drop_refs` and `_claim`.
pub mod Refs
pub mod Claim
use vllm_rlt.Common.{
  ℕ, zero, suc, ◌+◌, Bool, ◌&&◌, List, [], ◌∷◌, ◌++◌, Option, none, some, String, Result, ok, err,
  index_error, assertion_error, ◌>>=◌, ltb, ◌==◌, if◌then◌else◌, length, get_elem?, get_or, set,
  concat, map, replicate, range, Dict,
}

-- The head of `free_blocks` is the end of the list in the source, where it pushes and pops.
pub record Pool : Type 0 where
  pub refs : List ℕ
  pub free_blocks : List ℕ

-- `list(reversed(range(num_blocks)))` and `[0] * num_blocks`.
unfoldable pub empty_pool : ℕ → Pool
empty_pool num_blocks = record { refs = replicate num_blocks 0; free_blocks = range num_blocks }

-- One round of `_drop_refs`: a reference that falls below zero fails the assertion.
unfoldable pub drop_ref : ℕ → Pool → Result Pool
drop_ref b p = elim (get_elem? p.refs b) [
  | none ↦ err index_error
  | some r ↦ elim r [
    | zero ↦ err assertion_error
    | suc left ↦ ok (record {
      refs = set p.refs b left;
      free_blocks = if left == 0 then b ∷ p.free_blocks else p.free_blocks;
    })
  ]
]

unfoldable pub drop_refs : List ℕ → Pool → Result Pool
drop_refs [] p = ok p
drop_refs (b ∷ bs) p = drop_ref b p >>= drop_refs bs

-- `for b in blocks: self._refs[b] += 1`.
unfoldable pub add_refs : List ℕ → Pool → Result Pool
add_refs [] p = ok p
add_refs (b ∷ bs) p = elim (get_elem? p.refs b) [
  | none ↦ err index_error
  | some r ↦ add_refs bs (record p { refs = set p.refs b (suc r) })
]

-- `sum(self._refs[b] == 1 for b in blocks)`.
unfoldable pub exclusive : List ℕ → List ℕ → ℕ
exclusive refs [] = 0
exclusive refs (b ∷ bs) = (if get_or refs b 0 == 1 then 1 else 0) + exclusive refs bs

-- The prefix index, the entry used longest ago first.
abbrev pub prefix_blocks : Dict (List ℕ) → List ℕ
prefix_blocks prefixes = concat (map (λ e. e.1) prefixes)

-- `num_free_blocks`.
unfoldable pub num_free_blocks : Dict (List ℕ) → Pool → ℕ
unfolding exclusive
num_free_blocks prefixes p = length p.free_blocks + exclusive p.refs (prefix_blocks prefixes)

-- The loop of `_claim` that evicts prefix entries.
unfoldable pub evict : ℕ → Dict (List ℕ) → Pool → Result (Dict (List ℕ) × Pool)
evict wanted [] p = ok ([], p)
evict wanted ((key, blocks) ∷ rest) p =
    let more = drop_refs blocks p >>= evict wanted rest in
    if ltb (length p.free_blocks) wanted then more else ok ((key, blocks) ∷ rest, p)

-- `[self._free_blocks.pop() for _ in range(count)]`: the blocks, and what stays free.
unfoldable pub pop_blocks : ℕ → List ℕ → Result (List ℕ × List ℕ)
pop_blocks zero free = ok ([], free)
pop_blocks (suc n) [] = err index_error
pop_blocks (suc n) (b ∷ free) = do (blocks, rest) ← pop_blocks n free; ok (b ∷ blocks, rest)

-- `for b in blocks: assert self._refs[b] == 0; self._refs[b] = 1`.
unfoldable pub mark_claimed : List ℕ → List ℕ → Result (List ℕ)
mark_claimed [] refs = ok refs
mark_claimed (b ∷ bs) refs = elim (get_elem? refs b) [
  | none ↦ err index_error
  | some r ↦
      let rest = mark_claimed bs (set refs b 1) in if r == 0 then rest else err assertion_error
]

-- The end of `_claim`, where enough blocks are free.
unfoldable pub take_free : ℕ → Pool → Result (List ℕ × Pool)
unfolding pop_blocks mark_claimed
take_free wanted p = do
  (blocks, rest) ← pop_blocks wanted p.free_blocks
  refs ← mark_claimed blocks p.refs
  ok (blocks, record { refs = refs; free_blocks = rest })

pub record Claimed : Type 0 where
  pub blocks : Option (List ℕ)
  pub prefixes : Dict (List ℕ)
  pub pool : Pool

-- `_claim`: `blocks` is `none` where the source returns `None`.
unfoldable pub claim : ℕ → Dict (List ℕ) → Pool → Result Claimed
unfolding evict take_free
claim wanted prefixes p =
    if ltb (length p.free_blocks) wanted && ltb (num_free_blocks prefixes p) wanted
    then ok (record { blocks = none; prefixes = prefixes; pool = p })
    else (do
      (kept, p') ← evict wanted prefixes p
      if ltb (length p'.free_blocks) wanted
          then ok (record { blocks = none; prefixes = kept; pool = p' })
          else (do
            (blocks, p'') ← take_free wanted p'
            ok (record { blocks = some blocks; prefixes = kept; pool = p'' })))
