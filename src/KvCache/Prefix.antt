-- ===== src/KvCache/Prefix.antt =====
-- The prefix index of `KVCacheManager` (vllm_rlt/core/kv_cache_manager.py): `_prefix_keys`,
-- `publish_prefix`, `poll_prefixes` and `lookup_prefix`.
use vllm_rlt.Common.{
  ℕ, zero, suc, ◌+◌, ◌-◌, ◌*◌, ◌/◌, Bool, false, not, ◌==◌, List, [], ◌∷◌, ◌++◌, Option, none, some,
  String, Dict, lookup, insert, remove, Result, ok, ◌>>=◌, ltb, if◌then◌else◌, length, take, drop,
  any, min,
}
use vllm_rlt.KvCache.Pool.{add_refs}
use vllm_rlt.KvCache.State.{Allocation, PendingPrefix, Cache, get_allocation, is_some}
use vllm_rlt.KvCache.Pages.{column}

-- `any(w.prefix < end for plane in allocation.written for w in plane)`.
abbrev pub lags : Allocation → ℕ → Bool
lags a end_ = any (any (λ w. ltb w.prefix end_)) a.written

-- One round of the loop of `publish_prefix` that indexes a page.
unfoldable pub index_page : Allocation → ℕ → String → Cache → Result Cache
index_page a index key c = do
  blocks ← column index a.block_tables
  p ← add_refs blocks c.pool
  ok (record c { pool = p; prefixes = insert key blocks c.prefixes })

unfoldable pub publish_pages : Allocation → ℕ → List String → Cache → Result Cache
unfolding index_page
publish_pages a index [] c = ok c
publish_pages a index (key ∷ keys) c =
    let skip = publish_pages a (index + 1) keys c in
    let next = index_page a index key c >>= publish_pages a (index + 1) keys in
    if is_some (lookup key c.prefixes)
    then skip
    else if lags a ((index + 1) * c.block_size)
    then ok c
    else next

-- The tokens whose pages `publish_prefix` may index: all but the last prompt token.
abbrev pub publishable : List ℕ → ℕ → List ℕ
publishable tokens extent = take (min extent (length tokens - 1)) tokens

-- `self._allocations.get(request_id) is allocation`.
unfoldable pub owns : Cache → PendingPrefix → Bool
owns c e = elim (lookup e.request_id c.allocations) [
  | none ↦ false
  | some a ↦ a.ident == e.allocation
]

-- `OrderedDict.move_to_end`.
unfoldable pub move_to_end : String → List ℕ → Dict (List ℕ) → Dict (List ℕ)
move_to_end key blocks prefixes = remove key prefixes ++ (key, blocks) ∷ []

-- The loop of `lookup_prefix`: the groups found, and the index in its new order.
unfoldable pub find_pages : List String → Dict (List ℕ) → List (List ℕ) × Dict (List ℕ)
unfolding move_to_end
find_pages [] prefixes = ([], prefixes)
find_pages (key ∷ keys) prefixes = elim (lookup key prefixes) [
  | none ↦ ([], prefixes)
  | some blocks ↦
      let (found, prefixes') = find_pages keys (move_to_end key blocks prefixes) in
      (blocks ∷ found, prefixes')
]

-- `sha256 digest values` stands for `hashlib.sha256(digest + struct.pack(...)).digest()`.
module _ (sha256 : String → List ℕ → String) where
  -- The loop of `_prefix_keys`, a full page in each round.
  unfoldable pub chain_keys : ℕ → ℕ → String → List ℕ → List String
  chain_keys zero size digest tokens = []
  chain_keys (suc pages) size digest tokens =
      let key = sha256 digest (take size tokens) in
      key ∷ chain_keys pages size key (drop size tokens)

  unfoldable pub prefix_keys : ℕ → List ℕ → List String
  unfolding chain_keys
  prefix_keys size tokens = chain_keys (length tokens / size) size "" tokens

  -- `publish_prefix` with no event.
  unfoldable pub publish_now : String → List ℕ → ℕ → Cache → Result Cache
  unfolding get_allocation publish_pages prefix_keys
  publish_now rid tokens extent c =
      if c.enable_prefix_caching
      then (do
        a ← get_allocation rid c
        publish_pages a 0 (prefix_keys c.block_size (publishable tokens extent)) c)
      else ok c

  unfoldable pub publish_prefix : String → List ℕ → ℕ → Option ℕ → Cache → Result Cache
  unfolding publish_now
  publish_prefix rid tokens extent none c = publish_now rid tokens extent c
  publish_prefix rid tokens extent (some event) c =
      if c.enable_prefix_caching
      then (do
        a ← get_allocation rid c
        let pending : PendingPrefix = record {
          request_id = rid;
          allocation = a.ident;
          tokens = tokens;
          extent = extent;
          event = event;
        }
        ok (record c { pending_prefixes = c.pending_prefixes ++ pending ∷ [] }))
      else ok c

  -- The loop of `poll_prefixes`, with `ready` for the answer of each event's `query`.
  unfoldable pub poll_each : (ℕ → Bool) → List PendingPrefix → Cache → Result Cache
  unfolding publish_now owns
  poll_each ready [] c = ok c
  poll_each ready (e ∷ es) c =
      let stale = poll_each ready es c in
      let wait =
        poll_each ready es (record c { pending_prefixes = c.pending_prefixes ++ e ∷ [] }) in
      let publish = publish_now e.request_id e.tokens e.extent c >>= poll_each ready es in
      if not (owns c e) then stale else if ready e.event then publish else wait

  unfoldable pub poll_prefixes : (ℕ → Bool) → Cache → Result Cache
  unfolding poll_each
  poll_prefixes ready c = poll_each ready c.pending_prefixes (record c { pending_prefixes = [] })

  unfoldable pub lookup_prefix : (ℕ → Bool) → List ℕ → Cache → Result (List (List ℕ) × Cache)
  unfolding poll_prefixes find_pages prefix_keys
  lookup_prefix ready tokens c =
      if c.enable_prefix_caching
      then (do
        c' ← poll_prefixes ready c
        let (found, prefixes) =
            find_pages (prefix_keys c.block_size (take (length tokens - 1) tokens)) c'.prefixes
        ok (found, record c' { prefixes = prefixes }))
      else ok ([], c)
