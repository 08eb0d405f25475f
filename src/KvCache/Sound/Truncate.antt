-- ===== src/KvCache/Sound/Truncate.antt =====
-- `truncate_suffix` of vllm_rlt/core/kv_cache_manager.py keeps the invariant.
use vllm_rlt.Common.{
  ℕ, ◌≤◌, ◌≡◌, refl, ◌∙◌, ◌⊎◌, Bool, true, false, not, ◌||◌, List, [], ◌∷◌, some, String, lookup,
  insert, All-lookup, lookup-insert, str_eq_iff, ok, err, value_error, length, map, All, arith, inl,
  inr, Bool-cases, if◌then◌else◌, length-map, any, ◌<◌, ltb,
}
use vllm_rlt.KvCache.Written.{Written, cut}
use vllm_rlt.KvCache.Written.Laws.{IsNormal, cut-IsNormal}
use vllm_rlt.KvCache.State.{Allocation, Cache, get_allocation, is_empty}
use vllm_rlt.KvCache.Pages.{truncate_suffix, shares_suffix}
use vllm_rlt.KvCache.Sound.{IsShaped, keep_shape, IsSound}
use vllm_rlt.KvCache.Sound.Release.{update-IsSound}

length-map-cut :
    (n layers : ℕ) (rows : List (List Written))
    → All (λ row. length row ≡ layers) rows
    → All (All IsNormal) rows
    → All (λ row. length row ≡ layers) (map (map (cut n)) rows)
      × All (All IsNormal) (map (map (cut n)) rows)
length-map-cut n layers [] sized normal = (tt, tt)
length-map-cut n layers (row ∷ rows) (size, sized) (ok_row, normal) =
    let (sized', normal') = length-map-cut n layers rows sized normal in
    ((length-map (cut n) row ∙ size, sized'), (row_normal row ok_row, normal'))
  where
    row_normal : (row : List Written) → All IsNormal row → All IsNormal (map (cut n) row)
    row_normal [] h = tt
    row_normal (w ∷ row) (h, hs) = (cut-IsNormal w n h, row_normal row hs)

abbrev refuses : Allocation → ℕ → Cache → Bool
refuses a frontier c =
    ltb a.max_tokens frontier
    || (not (is_empty a.transfer_leases) || any (shares_suffix c frontier) a.block_tables)

truncated : Allocation → ℕ → Allocation
truncated a frontier = record a { written = map (map (cut frontier)) a.written }

truncate_suffix_lem :
    (rid : String) (frontier : ℕ) (a : Allocation) (c : Cache)
    → lookup rid c.allocations ≡ some a
    → truncate_suffix rid frontier c ≡ (
        if refuses a frontier c
        then err value_error
        else ok (record c { allocations = insert rid (truncated a frontier) c.allocations }))
unfolding truncate_suffix get_allocation truncated
truncate_suffix_lem rid frontier a c found = ground arith

-- Truncating an existing allocation keeps a sound state sound and every page where it is, and
-- drops the written positions from the frontier on. It refuses, with a ValueError, a frontier beyond
-- the capacity, a leased allocation and a suffix with a page that is held twice.
pub truncate_suffix-IsSound :
    (rid : String) (frontier : ℕ) (a : Allocation) (c : Cache)
    → IsSound c
    → lookup rid c.allocations ≡ some a
    → ((truncate_suffix rid frontier c ≡ err value_error)
        × ((a.max_tokens < frontier)
            ⊎ ((is_empty a.transfer_leases ≡ false)
                ⊎ (any (shares_suffix c frontier) a.block_tables ≡ true))))
      ⊎ ((c' : Cache) × (truncate_suffix rid frontier c ≡ ok c')
          × IsSound c'
          × (c'.pool ≡ c.pool)
          × (frontier ≤ a.max_tokens)
          × (is_empty a.transfer_leases ≡ true)
          × (any (shares_suffix c frontier) a.block_tables ≡ false)
          × (lookup rid c'.allocations
              ≡ some (record a { written = map (map (cut frontier)) a.written })))
unfolding truncated
truncate_suffix-IsSound rid frontier a c s found =
    let shape : IsShaped c.geometry a =
      All-lookup (IsShaped c.geometry) rid a c.allocations s.shaped found in
    let a' = truncated a frontier in
    let (layers, normal) =
      length-map-cut frontier c.num_layers a.written shape.written_layers shape.normal in
    elim (Bool-cases (refuses a frontier c)) [
      | inl bad ↦ inl (rw (truncate_suffix_lem rid frontier a c found, bad), ground arith)
      | inr good ↦ inr (
        record c { allocations = insert rid a' c.allocations },
        rw (truncate_suffix_lem rid frontier a c found, good),
        update-IsSound rid a a' c s found refl (
            keep_shape c.geometry a a' shape refl refl
              (length-map (map (cut frontier)) a.written ∙ shape.written_planes) layers normal),
        refl,
        ground arith,
        ground arith,
        ground arith,
        ground (arith, lookup-insert rid rid a' c.allocations, str_eq_iff rid rid),
      )
    ]
