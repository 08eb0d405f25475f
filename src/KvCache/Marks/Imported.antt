-- ===== src/KvCache/Marks/Imported.antt =====
-- Keys and values received from a prefill worker (`mark_imported_prefix` of
-- vllm_rlt/core/kv_cache_manager.py).
use vllm_rlt.Common.{
  ℕ, ◌≤◌, ◌<◌, ◌≡◌, refl, ◌∙◌, ◌⊎◌, inl, inr, true, false, not, ◌&&◌, ◌||◌, List, [], ◌∷◌, some,
  String, lookup, insert, lookup-insert, str_eq_iff, All-lookup, ok, err, value_error,
  runtime_error, ltb, leb, if◌then◌else◌, any, map, length, length-map, All, arith, Bool-cases,
}
use vllm_rlt.KvCache.Written.{Written, holds}
use vllm_rlt.KvCache.Written.Laws.{IsNormal}
use vllm_rlt.KvCache.State.{Allocation, Cache, get_allocation, is_empty}
use vllm_rlt.KvCache.Marks.{initialized, set_prefix, mark_imported_prefix}
use vllm_rlt.KvCache.Sound.{IsShaped, IsSound, keep_shape}
use vllm_rlt.KvCache.Sound.Release.{update-IsSound}

-- Written positions up to `extent`, and no others.
abbrev pub IsFilled : ℕ → Written → Type 0
IsFilled extent w = (p : ℕ) → holds w p ≡ ltb p extent

fill_one :
    (start extent : ℕ) (w : Written)
    → initialized start w ≡ false
    → (set_prefix extent w).pending ≡ []
fill_one start extent w h = empty_list w.pending (ground arith)
  where
    empty_list : (ps : List ℕ) → is_empty ps ≡ true → ps ≡ []
    empty_list [] e = refl
    empty_list (p ∷ ps) e = cc

filled :
    (extent : ℕ) (w : Written)
    → (set_prefix extent w).pending ≡ []
    → IsNormal (set_prefix extent w) × IsFilled extent (set_prefix extent w)
unfolding holds
filled extent w e = (λ p h. absurd (ground arith), λ p. ground arith)

fill_row :
    (start extent : ℕ) (ws : List Written)
    → any (initialized start) ws ≡ false
    → All IsNormal (map (set_prefix extent) ws) × All (IsFilled extent) (map (set_prefix extent) ws)
fill_row start extent [] h = (tt, tt)
fill_row start extent (w ∷ ws) h =
    let (n, f) = filled extent w (fill_one start extent w (ground arith)) in
    let (ns, fs) = fill_row start extent ws (ground arith) in ((n, ns), (f, fs))

fill_rows :
    (start extent layers : ℕ) (rows : List (List Written))
    → any (any (initialized start)) rows ≡ false
    → All (λ row. length row ≡ layers) rows
    → All (All IsNormal) (map (map (set_prefix extent)) rows)
      × All (All (IsFilled extent)) (map (map (set_prefix extent)) rows)
      × All (λ row. length row ≡ layers) (map (map (set_prefix extent)) rows)
fill_rows start extent layers [] h even = (tt, tt, tt)
fill_rows start extent layers (row ∷ rows) h (size, even) =
    let (n, f) = fill_row start extent row (ground arith) in
    let (ns, fs, sizes) = fill_rows start extent layers rows (ground arith) even in
    ((n, ns), (f, fs), (length-map (set_prefix extent) row ∙ size, sizes))

mark_imported_prefix_lem :
    (rid : String) (extent start : ℕ) (a : Allocation) (c : Cache)
    → lookup rid c.allocations ≡ some a
    → mark_imported_prefix rid extent start c ≡ (
        if not (ltb 0 extent && leb extent a.max_tokens)
        then err value_error
        else if a.release_requested || any (any (initialized start)) a.written
        then err runtime_error
        else ok (record c {
          allocations =
              insert rid
                (record a { written = map (map (set_prefix extent)) a.written })
                c.allocations;
        }))
unfolding mark_imported_prefix get_allocation
mark_imported_prefix_lem rid extent start a c found = ground arith

-- For an existing allocation of a sound state, an import is refused with a ValueError where it is
-- empty or exceeds the capacity, and with a RuntimeError where the allocation is to be released or
-- does not stand at `start` throughout. Otherwise none of this is the case, the state stays sound,
-- and at every plane and layer exactly the positions below `extent` are written.
pub mark_imported_prefix-IsSound :
    (rid : String) (extent start : ℕ) (a : Allocation) (c : Cache)
    → IsSound c
    → lookup rid c.allocations ≡ some a
    → ((mark_imported_prefix rid extent start c ≡ err value_error)
        × ((ltb 0 extent && leb extent a.max_tokens) ≡ false))
      ⊎ (((mark_imported_prefix rid extent start c ≡ err runtime_error)
            × ((a.release_requested || any (any (initialized start)) a.written) ≡ true))
          ⊎ ((c' : Cache) × (mark_imported_prefix rid extent start c ≡ ok c')
              × (0 < extent)
              × (extent ≤ a.max_tokens)
              × (a.release_requested ≡ false)
              × (any (any (initialized start)) a.written ≡ false)
              × IsSound c'
              × (a' : Allocation) × (lookup rid c'.allocations ≡ some a')
              × All (All (IsFilled extent)) a'.written))
mark_imported_prefix-IsSound rid extent start a c s found =
    let shape : IsShaped c.geometry a =
      All-lookup (IsShaped c.geometry) rid a c.allocations s.shaped found in
    let a' : Allocation = record a { written = map (map (set_prefix extent)) a.written } in
    let lem = mark_imported_prefix_lem rid extent start a c found in
    elim (Bool-cases (ltb 0 extent && leb extent a.max_tokens)) [
      | inr bad ↦ inl (rw (lem, bad) refl, bad)
      | inl fits ↦
          elim (Bool-cases (a.release_requested || any (any (initialized start)) a.written)) [
            | inl busy ↦ inr (inl (rw (lem, fits, busy) refl, busy))
            | inr clear ↦
                let (normal, full, layers) =
                  fill_rows start extent c.num_layers a.written (ground arith)
                    shape.written_layers in
                inr (
                  inr (
                    record c { allocations = insert rid a' c.allocations },
                    rw (lem, fits, clear) refl,
                    ground arith,
                    ground arith,
                    ground arith,
                    ground arith,
                    update-IsSound rid a a' c s found refl (
                        keep_shape c.geometry a a' shape refl refl
                          (length-map (map (set_prefix extent)) a.written ∙ shape.written_planes)
                          layers normal),
                    a',
                    ground (arith, lookup-insert rid rid a' c.allocations, str_eq_iff rid rid),
                    full,
                  ))
          ]
    ]
