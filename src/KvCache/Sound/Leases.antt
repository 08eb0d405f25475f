-- ===== src/KvCache/Sound/Leases.antt =====
-- `pin_transfer` and `unpin_transfer` of vllm_rlt/core/kv_cache_manager.py keep the invariant.
use vllm_rlt.Common.{
  ◌≡◌, refl, ◌⊎◌, true, false, ◌&&◌, List, [], ◌∷◌, some, String, lookup, insert, remove,
  All-lookup, lookup-insert, str_eq_iff, ok, err, runtime_error, arith, inl, inr, Bool-cases,
  if◌then◌else◌,
}
use vllm_rlt.KvCache.State.{Allocation, Cache, get_allocation, is_empty}
use vllm_rlt.KvCache.Pages.{free, pin_transfer, unpin_transfer, discard, has_text}
use vllm_rlt.KvCache.Sound.{IsShaped, keep_shape, IsSound}
use vllm_rlt.KvCache.Sound.Release.{update-IsSound, Freed, absent, deferred, released, free-IsSound}

pinned-not_empty :
    (tid : String) (leases : List String)
    → is_empty (if has_text tid leases then leases else tid ∷ leases) ≡ false
pinned-not_empty tid [] = refl
pinned-not_empty tid (t ∷ leases) = ground arith

Freed-last :
    (rid : String) (c c' : Cache) (a : Allocation)
    → lookup rid c.allocations ≡ some a
    → is_empty a.transfer_leases ≡ true
    → Freed rid c c'
    → c'.allocations ≡ remove rid c.allocations
Freed-last rid c c' a here idle (absent missing same) = absurd (cc)
Freed-last rid c c' a here idle (deferred b found leased marked same) = absurd (ground arith)
Freed-last rid c c' a here idle (released b found empty gone) = gone

-- In a sound state, pinning an existing allocation raises a RuntimeError exactly if it is scheduled
-- for release. Otherwise the state stays sound and the allocation has a lease.
pub pin_transfer-IsSound :
    (rid tid : String) (a : Allocation) (c : Cache)
    → IsSound c
    → lookup rid c.allocations ≡ some a
    → ((pin_transfer rid tid c ≡ err runtime_error) × (a.release_requested ≡ true))
      ⊎ ((c' : Cache) × (pin_transfer rid tid c ≡ ok c')
          × IsSound c'
          × (a.release_requested ≡ false)
          × (a' : Allocation) × (lookup rid c'.allocations ≡ some a')
          × (is_empty a'.transfer_leases ≡ false))
unfolding pin_transfer get_allocation
pin_transfer-IsSound rid tid a c s found =
    let shape : IsShaped c.geometry a =
      All-lookup (IsShaped c.geometry) rid a c.allocations s.shaped found in
    let leases =
      if has_text tid a.transfer_leases then a.transfer_leases else tid ∷ a.transfer_leases in
    let a' : Allocation = record a { transfer_leases = leases } in
    elim (Bool-cases a.release_requested) [
      | inl doomed ↦ inl (ground arith, doomed)
      | inr alive ↦ inr (
        record c { allocations = insert rid a' c.allocations },
        ground arith,
        update-IsSound rid a a' c s found refl (
            keep_shape c.geometry a a' shape refl refl shape.written_planes shape.written_layers
              shape.normal),
        alive,
        a',
        ground (arith, lookup-insert rid rid a' c.allocations, str_eq_iff rid rid),
        pinned-not_empty tid a.transfer_leases,
      )
    ]

abbrev unleased : String → Allocation → Allocation
unleased tid a = record a { transfer_leases = discard tid a.transfer_leases }

unpin_transfer_lem :
    (rid tid : String) (a : Allocation) (c : Cache)
    → lookup rid c.allocations ≡ some a
    → unpin_transfer rid tid c ≡ (
        if a.release_requested && is_empty (discard tid a.transfer_leases)
        then free rid (record c { allocations = insert rid (unleased tid a) c.allocations })
        else ok (record c { allocations = insert rid (unleased tid a) c.allocations }))
unfolding unpin_transfer get_allocation
unpin_transfer_lem rid tid a c found = ground arith

-- In a sound state, removing a lease from an existing allocation keeps the state sound. A release
-- deferred by leases happens with the last of them, and not before.
pub unpin_transfer-IsSound :
    (rid tid : String) (a : Allocation) (c : Cache)
    → IsSound c
    → lookup rid c.allocations ≡ some a
    → (c' : Cache) × (unpin_transfer rid tid c ≡ ok c')
      × IsSound c'
      × ((a.release_requested && is_empty (discard tid a.transfer_leases)) ≡ false
          → lookup rid c'.allocations
            ≡ some (record a { transfer_leases = discard tid a.transfer_leases }))
      × ((a.release_requested && is_empty (discard tid a.transfer_leases)) ≡ true
          → c'.allocations
            ≡ remove rid (
                insert rid
                  (record a { transfer_leases = discard tid a.transfer_leases })
                  c.allocations))
unpin_transfer-IsSound rid tid a c s found =
    let shape : IsShaped c.geometry a =
      All-lookup (IsShaped c.geometry) rid a c.allocations s.shaped found in
    let a' : Allocation = record a { transfer_leases = discard tid a.transfer_leases } in
    let next : Cache = record c { allocations = insert rid a' c.allocations } in
    let sound : IsSound next = update-IsSound rid a a' c s found refl (
      keep_shape c.geometry a a' shape refl refl shape.written_planes shape.written_layers
        shape.normal) in
    let here : lookup rid next.allocations ≡ some a' =
      ground (arith, lookup-insert rid rid a' c.allocations, str_eq_iff rid rid) in
    elim (Bool-cases (a.release_requested && is_empty (discard tid a.transfer_leases))) [
      | inr kept ↦ (
        next,
        rw (unpin_transfer_lem rid tid a c found, kept),
        sound,
        λ e. here,
        λ e. absurd (cc),
      )
      | inl last ↦
          let (c', freed, sound', how) = free-IsSound rid next sound in
          (
            c',
            rw (unpin_transfer_lem rid tid a c found, last) freed,
            sound',
            λ e. absurd (cc),
            λ e. Freed-last rid next c' a' here (ground arith) how,
          )
    ]
