-- ===== src/KvCache/Sound/Release.antt =====
-- `free` of vllm_rlt/core/kv_cache_manager.py keeps the invariant.
use vllm_rlt.Common.{
  ℕ, ◌≡◌, refl, ap, ◌∙◌, true, false, List, [], ◌∷◌, none, some, String, lookup, insert, remove,
  total-insert_old, total-remove, All-insert, All-remove, All-lookup, ok, concat, map, reverse,
  count, count-append, arith, inl, inr, Bool-cases, Option-cases,
}
use mathlib.Core.List.{reverse-cons}
use vllm_rlt.KvCache.Pool.Refs.{Balanced-ext, drop_refs-Dropped}
use vllm_rlt.KvCache.Pool.Claim.{with_prefixes}
use vllm_rlt.KvCache.State.{Allocation, Cache, is_empty}
use vllm_rlt.KvCache.Pages.{free}
use vllm_rlt.KvCache.Sound.{table_refs, IsShaped, keep_shape, IsSound}

count-reverse : (b : ℕ) (xs : List ℕ) → count b (reverse xs) ≡ count b xs
count-reverse b [] = refl
count-reverse b (x ∷ xs) = omega (
  arith,
  ap (count b) (reverse-cons x xs),
  count-append b (reverse xs) (x ∷ []),
  count-reverse b xs,
)

count-concat-reverse :
    (b : ℕ) (ts : List (List ℕ)) → count b (concat (map reverse ts)) ≡ count b (concat ts)
count-concat-reverse b [] = refl
count-concat-reverse b (t ∷ ts) = omega (
  arith,
  count-append b (reverse t) (concat (map reverse ts)),
  count-append b t (concat ts),
  count-reverse b t,
  count-concat-reverse b ts,
)

-- An allocation object that keeps its tables may change elsewhere.
pub update-IsSound :
    (rid : String) (a a' : Allocation) (c : Cache)
    → IsSound c
    → lookup rid c.allocations ≡ some a
    → a'.block_tables ≡ a.block_tables
    → IsShaped c.geometry a'
    → IsSound (record c { allocations = insert rid a' c.allocations })
update-IsSound rid a a' c s found same shape = record {
  balanced =
      Balanced-ext _ _ c.pool
        (λ b. omega (
          arith,
          total-insert_old (λ (x : Allocation). count b (concat x.block_tables)) rid a' a
              c.allocations found,
          ap (λ ts. count b (concat ts)) same,
        ))
        s.balanced;
  size = s.size;
  shaped = All-insert (IsShaped c.geometry) rid a' c.allocations shape s.shaped;
  grouped = s.grouped;
}

-- What `free` leaves behind.
pub data Freed (rid : String) (c c' : Cache) : Type 0 where
  absent : lookup rid c.allocations ≡ none → c' ≡ c → Freed rid c c'
  deferred :
      (a : Allocation)
      → lookup rid c.allocations ≡ some a
      → is_empty a.transfer_leases ≡ false
      → c'.allocations ≡ insert rid (record a { release_requested = true }) c.allocations
      → c'.pool ≡ c.pool
      → Freed rid c c'
  released :
      (a : Allocation)
      → lookup rid c.allocations ≡ some a
      → is_empty a.transfer_leases ≡ true
      → c'.allocations ≡ remove rid c.allocations
      → Freed rid c c'

-- In a sound state `free` never fails and keeps the state sound. Without an allocation it does
-- nothing; a leased allocation is kept and marked for release; any other is removed.
pub free-IsSound :
    (rid : String) (c : Cache)
    → IsSound c
    → (c' : Cache) × (free rid c ≡ ok c') × IsSound c' × Freed rid c c'
unfolding free
free-IsSound rid c s = elim (Option-cases (lookup rid c.allocations)) [
  | inl missing ↦ (c, rw (missing, free), s, absent missing refl)
  | inr (a, found) ↦
      let shape : IsShaped c.geometry a =
        All-lookup (IsShaped c.geometry) rid a c.allocations s.shaped found in
      elim (Bool-cases (is_empty a.transfer_leases)) [
        | inl idle ↦
            let others =
              λ (b : ℕ). with_prefixes c.prefixes (table_refs (remove rid c.allocations)) b in
            let dropped = drop_refs-Dropped (concat (map reverse a.block_tables)) others c.pool (
              Balanced-ext _ _ c.pool
                (λ b. omega (
                  arith,
                  count-concat-reverse b a.block_tables,
                  total-remove (λ (x : Allocation). count b (concat x.block_tables)) rid a
                      c.allocations found,
                ))
                s.balanced) in
            let c' : Cache = record c {
              allocations = remove rid c.allocations;
              pool = dropped.after;
            } in
            (
              c',
              rw (found, free) (rw idle (rw dropped.returns)),
              record {
                balanced = dropped.balanced;
                size = dropped.same_size ∙ s.size;
                shaped = All-remove (IsShaped c.geometry) rid c.allocations s.shaped;
                grouped = s.grouped;
              },
              released a found idle refl,
            )
        | inr leased ↦
            let a' : Allocation = record a { release_requested = true } in
            (
              record c { allocations = insert rid a' c.allocations },
              rw (found, free) (rw leased),
              update-IsSound rid a a' c s found refl (
                  keep_shape c.geometry a a' shape refl refl shape.written_planes
                    shape.written_layers shape.normal),
              deferred a found leased refl refl,
            )
      ]
]
