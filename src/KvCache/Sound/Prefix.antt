-- ===== src/KvCache/Sound/Prefix.antt =====
-- The prefix index of vllm_rlt/core/kv_cache_manager.py keeps the invariant, and a lookup returns
-- pages that `allocate` may take.
use vllm_rlt.Common.{
  ℕ, zero, suc, ◌+◌, ◌-◌, ◌*◌, ◌/◌, ◌≤◌, ◌<◌, ◌≡◌, refl, ap, ◌∙◌, ◌⊎◌, inl, inr, Bool, false, not,
  List, [], ◌∷◌, ◌++◌, Option, none, some, String, Dict, lookup, insert, remove, total,
  total-insert_new, total-remove, total-append, le-total_of_lookup, All-insert, All-remove,
  All-lookup, Result, ok, err, index_error, ◌>>=◌, length, take, drop, concat, count, count-append,
  All, All-mono, All-append, All-count, arith, Bool-cases, Option-cases, if-cases, get_elem?,
  length-take,
}
use native.Mathlib.Nat.{div-mul-le_self}
use vllm_rlt.KvCache.Pool.{prefix_blocks}
use vllm_rlt.KvCache.Pool.Refs.{Balanced-ext, add_refs-Added}
use vllm_rlt.KvCache.Pool.Claim.{with_prefixes}
use vllm_rlt.KvCache.State.{Allocation, PendingPrefix, Cache, storage_depths, is_some}
use vllm_rlt.KvCache.Pages.{column}
use vllm_rlt.KvCache.Prefix.{
  chain_keys, prefix_keys, lags, index_page, publish_pages, publish_now, publish_prefix, owns,
  poll_each, poll_prefixes, move_to_end, find_pages, lookup_prefix,
}
use vllm_rlt.KvCache.Sound.{table_refs, IsShaped, IsSound, get_allocation_lem}
use vllm_rlt.KvCache.Sound.Allocate.{IsHit}

count-prefix_blocks : (b : ℕ) (m : Dict (List ℕ)) → count b (prefix_blocks m) ≡ total (count b) m
unfolding total
count-prefix_blocks b [] = refl
count-prefix_blocks b ((k, bs) ∷ m) =
    omega (arith, count-append b bs (prefix_blocks m), count-prefix_blocks b m)

total-single : (b : ℕ) (k : String) (bs : List ℕ) → total (count b) ((k, bs) ∷ []) ≡ count b bs
unfolding total
total-single b k bs = omega arith

-- A column takes one block from each table.
column_used :
    (d : ℕ) (tables : List (List ℕ))
    → (column d tables ≡ err index_error)
      ⊎ ((bs : List ℕ) × (column d tables ≡ ok bs)
          × (length bs ≡ length tables)
          × All (λ b. 0 < count b (concat tables)) bs)
unfolding column
column_used d [] = inr ([], refl, refl, tt)
column_used d (t ∷ tables) = elim (Option-cases (get_elem? t d)) [
  | inl missing ↦ inl (rw (missing, column))
  | inr (x, found) ↦ elim (column_used d tables) [
    | inl bad ↦ inl (rw (found, column) (rw bad))
    | inr (bs, e, size, used) ↦ inr (
      x ∷ bs,
      rw (found, column) (rw e),
      ap suc size,
      (
        omega (arith, count-append x t (concat tables), count_of_get t d x found),
        All-mono bs (λ b h. omega (arith, count-append b t (concat tables))) used,
      ),
    )
  ]
]
  where
    count_of_get : (t : List ℕ) (d x : ℕ) → get_elem? t d ≡ some x → 0 < count x t
    count_of_get [] d x e = cc
    count_of_get (y ∷ t) zero x e = ground arith
    count_of_get (y ∷ t) (suc d) x e = ground (arith, count_of_get t d x e)

-- An operation on the index that leaves the allocations alone, and may only raise an IndexError.
abbrev pub Indexes : Cache → Result Cache → Type 0
Indexes c r =
    (r ≡ err index_error)
    ⊎ ((c' : Cache) × (r ≡ ok c')
        × IsSound c'
        × (c'.allocations ≡ c.allocations)
        × (c'.geometry ≡ c.geometry))

index_page-Indexes :
    (a : Allocation) (rid : String) (index : ℕ) (key : String) (c : Cache)
    → IsSound c
    → lookup rid c.allocations ≡ some a
    → lookup key c.prefixes ≡ none
    → Indexes c (index_page a index key c)
unfolding index_page
index_page-Indexes a rid index key c s found new = elim (column_used index a.block_tables) [
  | inl bad ↦ inl (rw bad)
  | inr (blocks, e, size, used) ↦
      let held = with_prefixes c.prefixes (table_refs c.allocations) in
      let shape : IsShaped c.geometry a =
        All-lookup (IsShaped c.geometry) rid a c.allocations s.shaped found in
      let in_use : All (λ b. 0 < held b) blocks =
        All-mono blocks
          (λ b h. omega (
            arith,
            le-total_of_lookup (λ (x : Allocation). count b (concat x.block_tables)) rid a
                c.allocations found,
          ))
          used in
      let added = add_refs-Added blocks held c.pool s.balanced in_use in
      inr (
        record c { pool = added.after; prefixes = insert key blocks c.prefixes },
        rw (e, added.returns),
        record {
          balanced =
              Balanced-ext _ _ added.after
                (λ b. omega (
                  arith,
                  count-prefix_blocks b c.prefixes,
                  count-prefix_blocks b (insert key blocks c.prefixes),
                  total-insert_new (count b) key blocks c.prefixes new,
                ))
                added.balanced;
          size = added.same_size ∙ s.size;
          shaped = s.shaped;
          grouped =
              All-insert (λ g. length g ≡ storage_depths c.geometry) key blocks c.prefixes
                (size ∙ shape.planes) s.grouped;
        },
        refl,
        refl,
      )
]

Indexes-then :
    (c : Cache) (r : Result Cache) (f : Cache → Result Cache)
    → Indexes c r
    → ((c' : Cache) → IsSound c' → c'.allocations ≡ c.allocations → Indexes c' (f c'))
    → Indexes c (r >>= f)
Indexes-then c r f (inl e) h = inl (rw e)
Indexes-then c r f (inr (c', e, s, same, geo)) h = elim (h c' s same) [
  | inl bad ↦ inl (rw e bad)
  | inr (c'', e', s', same', geo') ↦ inr (c'', rw e e', s', same' ∙ same, geo' ∙ geo)
]

publish_pages-Indexes :
    (a : Allocation) (rid : String) (index : ℕ) (keys : List String) (c : Cache)
    → IsSound c
    → lookup rid c.allocations ≡ some a
    → Indexes c (publish_pages a index keys c)
unfolding publish_pages
publish_pages-Indexes a rid index [] c s found = inr (c, refl, s, refl, refl)
publish_pages-Indexes a rid index (key ∷ keys) c s found =
    elim (Option-cases (lookup key c.prefixes)) [
      | inr (old, there) ↦
          rw (there, is_some) (publish_pages-Indexes a rid (index + 1) keys c s found)
      | inl new ↦ elim (Bool-cases (lags a ((index + 1) * c.block_size))) [
        | inl late ↦ rw (new, late) (inr (c, refl, s, refl, refl))
        | inr ready ↦
            rw (new, ready)
              (Indexes-then c (index_page a index key c) (publish_pages a (index + 1) keys)
                (index_page-Indexes a rid index key c s found new)
                (λ c' s' same.
                  publish_pages-Indexes a rid (index + 1) keys c' s'
                    (ap (lookup rid) same ∙ found)))
      ]
    ]

owner :
    (c : Cache) (e : PendingPrefix)
    → not (owns c e) ≡ false
    → (a : Allocation) × (lookup e.request_id c.allocations ≡ some a)
unfolding owns
owner c e live = elim (Option-cases (lookup e.request_id c.allocations)) [
  | inl missing ↦ absurd (ground arith)
  | inr there ↦ there
]

-- What a walk through the index finds: the groups that it holds, in a new order.
find_pages_lem :
    (planes : ℕ) (keys : List String) (m : Dict (List ℕ))
    → All (λ e. length e.1 ≡ planes) m
    → let (found, m') = find_pages keys m in
      All (λ e. length e.1 ≡ planes) m'
      × ((b : ℕ) → total (count b) m' ≡ total (count b) m)
      × All (λ g. length g ≡ planes) found
      × All (λ b. 0 < total (count b) m) (concat found)
      × (length found ≤ length keys)
unfolding find_pages move_to_end
find_pages_lem planes [] m even = (even, λ b. refl, tt, tt, omega arith)
find_pages_lem planes (key ∷ keys) m even = elim (Option-cases (lookup key m)) [
  | inl missing ↦ rw (missing, find_pages) (even, λ b. refl, tt, tt, omega arith)
  | inr (blocks, there) ↦
      let m₁ = remove key m ++ (key, blocks) ∷ [] in
      let size : length blocks ≡ planes =
        All-lookup (λ g. length g ≡ planes) key blocks m even there in
      let even₁ : All (λ e. length e.1 ≡ planes) m₁ =
        All-append (λ e. length e.1 ≡ planes) (remove key m) ((key, blocks) ∷ [])
          (All-remove (λ g. length g ≡ planes) key m even) (size, tt) in
      let same : (b : ℕ) → total (count b) m₁ ≡ total (count b) m = λ b. omega (
        arith,
        total-append (count b) (remove key m) ((key, blocks) ∷ []),
        total-remove (count b) key blocks m there,
        total-single b key blocks,
      ) in
      let (even', total', sized, used, le) = find_pages_lem planes keys m₁ even₁ in
      rw (there, find_pages)
        (
          even',
          λ b. total' b ∙ same b,
          (size, sized),
          All-append (λ b. 0 < total (count b) m) blocks _
              (All-mono blocks
                (λ b h. omega (arith, le-total_of_lookup (count b) key blocks m there))
                (All-count blocks))
              (All-mono _ (λ b h. omega (arith, same b)) used),
          omega arith,
        )
]

module _ (sha256 : String → List ℕ → String) where
  publish_now-Indexes :
      (rid : String) (tokens : List ℕ) (extent : ℕ) (a : Allocation) (c : Cache)
      → IsSound c
      → lookup rid c.allocations ≡ some a
      → Indexes c (publish_now sha256 rid tokens extent c)
  unfolding publish_now
  publish_now-Indexes rid tokens extent a c s found =
      if-cases (Indexes c) c.enable_prefix_caching
        (λ on. rw (get_allocation_lem rid a c found) (publish_pages-Indexes a rid 0 _ c s found))
        (λ off. inr (c, refl, s, refl, refl))

  pub pend-IsSound :
      (c : Cache) (es : List PendingPrefix)
      → IsSound c
      → IsSound (record c { pending_prefixes = es })
  pend-IsSound c es s = record {
    balanced = s.balanced;
    size = s.size;
    shaped = s.shaped;
    grouped = s.grouped;
  }

  poll_each-Indexes :
      (ready : ℕ → Bool) (es : List PendingPrefix) (c : Cache)
      → IsSound c
      → Indexes c (poll_each sha256 ready es c)
  unfolding poll_each owns
  poll_each-Indexes ready [] c s = inr (c, refl, s, refl, refl)
  poll_each-Indexes ready (e ∷ es) c s =
      if-cases (Indexes c) (not (owns c e)) (λ stale. poll_each-Indexes ready es c s)
        (λ live.
          if-cases (Indexes c) (ready e.event)
            (λ done.
              let (a, found) = owner c e live in
              Indexes-then c (publish_now sha256 e.request_id e.tokens e.extent c)
                (poll_each sha256 ready es)
                (publish_now-Indexes e.request_id e.tokens e.extent a c s found)
                (λ c' s' same. poll_each-Indexes ready es c' s'))
            (λ wait.
              let next =
                poll_each-Indexes ready es
                  (record c { pending_prefixes = c.pending_prefixes ++ e ∷ [] })
                  (pend-IsSound c (c.pending_prefixes ++ e ∷ []) s) in
              next))

  poll_prefixes-Indexes :
      (ready : ℕ → Bool) (c : Cache) → IsSound c → Indexes c (poll_prefixes sha256 ready c)
  unfolding poll_prefixes
  poll_prefixes-Indexes ready c s =
      poll_each-Indexes ready c.pending_prefixes (record c { pending_prefixes = [] })
        (pend-IsSound c [] s)

  -- For an existing allocation of a sound state, publishing a prompt's complete pages, at once or
  -- after a GPU event, keeps the state sound and leaves every allocation as it is, or raises an
  -- IndexError.
  pub publish_prefix-Indexes :
      (rid : String) (tokens : List ℕ) (extent : ℕ) (event : Option ℕ) (a : Allocation) (c : Cache)
      → IsSound c
      → lookup rid c.allocations ≡ some a
      → Indexes c (publish_prefix sha256 rid tokens extent event c)
  unfolding publish_prefix
  publish_prefix-Indexes rid tokens extent none a c s found =
      publish_now-Indexes rid tokens extent a c s found
  publish_prefix-Indexes rid tokens extent (some event) a c s found =
      if-cases (Indexes c) c.enable_prefix_caching
        (λ on.
          rw (get_allocation_lem rid a c found) (inr (_, refl, pend-IsSound c _ s, refl, refl)))
        (λ off. inr (c, refl, s, refl, refl))

  length-chain_keys :
      (pages size : ℕ) (digest : String) (tokens : List ℕ)
      → length (chain_keys sha256 pages size digest tokens) ≡ pages
  unfolding chain_keys
  length-chain_keys zero size digest tokens = refl
  length-chain_keys (suc pages) size digest tokens =
      ap suc (length-chain_keys pages size (sha256 digest (take size tokens)) (drop size tokens))

  length-prefix_keys :
      (size : ℕ) (tokens : List ℕ) → length (prefix_keys sha256 size tokens) * size ≤ length tokens
  unfolding prefix_keys
  length-prefix_keys size tokens = omega (
    arith,
    ap (λ n. n * size) (length-chain_keys (length tokens / size) size "" tokens),
    div-mul-le_self (length tokens) size,
  )

  -- What a lookup returns: pages that the index holds, one block for each plane, short of the last
  -- token of the prompt.
  pub record Looked (tokens : List ℕ) (c : Cache) (r : Result (List (List ℕ) × Cache))
      : Type 0 where
    pub prefix : List (List ℕ)
    pub after : Cache
    pub returns : r ≡ ok (prefix, after)
    pub sound : IsSound after
    pub hit : IsHit after prefix
    pub same : after.allocations ≡ c.allocations
    pub proper : length prefix * c.block_size ≤ length tokens - 1

  -- `lookup_prefix` keeps a sound state sound and leaves the allocations alone. The pages it returns
  -- are a prefix hit in the state it leaves, so that `allocate` may take them, and always leave a
  -- token of the prompt to compute. Only an IndexError of a pending publication can escape.
  pub lookup_prefix-Looked :
      (ready : ℕ → Bool) (tokens : List ℕ) (c : Cache)
      → IsSound c
      → (lookup_prefix sha256 ready tokens c ≡ err index_error)
        ⊎ Looked tokens c (lookup_prefix sha256 ready tokens c)
  unfolding lookup_prefix
  lookup_prefix-Looked ready tokens c s =
      if-cases (λ r. (r ≡ err index_error) ⊎ Looked tokens c r) c.enable_prefix_caching
        (λ on. elim (poll_prefixes-Indexes ready c s) [
          | inl bad ↦ inl (rw bad)
          | inr (c', e, s', same, geo) ↦
              let keys = prefix_keys sha256 c.block_size (take (length tokens - 1) tokens) in
              let (even, total', sized, used, le) =
                find_pages_lem (storage_depths c'.geometry) keys c'.prefixes s'.grouped in
              let c'' : Cache = record c' { prefixes = (find_pages keys c'.prefixes).1 } in
              let same_held : (b : ℕ)
                  → with_prefixes c'.prefixes (table_refs c'.allocations) b
                    ≡ with_prefixes c''.prefixes (table_refs c''.allocations) b =
                λ b. omega (
                  arith,
                  total' b,
                  count-prefix_blocks b c'.prefixes,
                  count-prefix_blocks b c''.prefixes,
                ) in
              inr (record {
                prefix = (find_pages keys c'.prefixes).0;
                after = c'';
                returns = rw e;
                sound = record {
                  balanced = Balanced-ext _ _ c'.pool same_held s'.balanced;
                  size = s'.size;
                  shaped = s'.shaped;
                  grouped = even;
                };
                hit = record {
                  grouped = sized;
                  in_use =
                      All-mono _
                        (λ b h. omega (arith, same_held b, count-prefix_blocks b c'.prefixes)) used;
                };
                same = same;
                proper = grind (
                  arith,
                  le,
                  length-prefix_keys c.block_size (take (length tokens - 1) tokens),
                  length-take (length tokens - 1) tokens,
                );
              })
        ])
        (λ off. inr (record {
          prefix = [];
          after = c;
          returns = refl;
          sound = s;
          hit = record { grouped = tt; in_use = tt };
          same = refl;
          proper = omega arith;
        }))
