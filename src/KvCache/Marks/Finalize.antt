-- ===== src/KvCache/Marks/Finalize.antt =====
-- Finalizing a token (vllm_rlt/core/kv_cache_manager.py) marks it at every deeper plane.
use vllm_rlt.Common.{
  ℕ, zero, suc, ◌+◌, ◌-◌, ◌≤◌, ◌<◌, ◌≡◌, sym, ap, subst, ◌∙◌, ◌⊎◌, inl, inr, Bool, true, false, not,
  ◌&&◌, ◌||◌, some, String, lookup, insert, lookup-insert, str_eq_iff, All-lookup, ok, err,
  runtime_error, ltb, ◌==◌, if◌then◌else◌, any, contains, contains-range_from, range_from, All,
  arith, Bool-cases,
}
use vllm_rlt.KvCache.Written.{holds}
use vllm_rlt.KvCache.State.{
  Geometry, Allocation, Cache, is_shared, storage_depths, plane, get_allocation, validate_depth,
  validate_position,
}
use vllm_rlt.KvCache.Marks.{row, mark_planes, deeper, record_finalized, mark_finalized}
use vllm_rlt.KvCache.Marks.Laws.{IsGrid, mark_planes-IsGrid, holds-mark_planes}
use vllm_rlt.KvCache.Sound.{IsShaped, IsSound, keep_shape}
use vllm_rlt.KvCache.Sound.Release.{update-IsSound}

range_from-below :
    (start n bound : ℕ) → start + n ≤ bound → All (λ p. p < bound) (range_from start n)
range_from-below start zero bound h = tt
range_from-below start (suc n) bound h =
    (omega arith, range_from-below (start + 1) n bound (omega arith))

grid :
    (g : Geometry) (a : Allocation)
    → IsShaped g a
    → IsGrid (storage_depths g) g.num_layers a.written
grid g a s = record { height = s.written_planes; width = s.written_layers; normal = s.normal }

deep_planes : (g : Geometry) → is_shared g.layout ≡ false → storage_depths g ≡ g.max_loops
unfolding storage_depths
deep_planes g deep = ground arith

record_finalized_written :
    (g : Geometry) (a : Allocation) (position exit_depth : ℕ)
    → is_shared g.layout ≡ false
    → (record_finalized g a position exit_depth).written
      ≡ mark_planes a.written (deeper g exit_depth) g.recurrent_layers position
unfolding record_finalized
record_finalized_written g a position exit_depth deep = ground arith

record_finalized_tables :
    (g : Geometry) (a : Allocation) (position exit_depth : ℕ)
    → ((record_finalized g a position exit_depth).block_tables ≡ a.block_tables)
      × ((record_finalized g a position exit_depth).max_tokens ≡ a.max_tokens)
unfolding record_finalized
record_finalized_tables g a position exit_depth = ground arith

-- Under LAST_EXITED, finalizing a token after the loop `exit_depth` marks its position at every
-- deeper plane and every recurrent layer. It marks nothing else and forgets nothing.
pub record_finalized_lem :
    (g : Geometry) (a : Allocation) (position exit_depth : ℕ)
    → IsShaped g a
    → is_shared g.layout ≡ false
    → exit_depth < g.max_loops
    → All (λ l. l < g.num_layers) g.recurrent_layers
    → (p l x : ℕ)
    → holds (row (record_finalized g a position exit_depth).written p l) x ≡ (
        holds (row a.written p l) x
        || ((ltb exit_depth p && ltb p g.max_loops)
            && (contains l g.recurrent_layers && (position == x))))
record_finalized_lem g a position exit_depth s deep h layers p l x =
    let depths = deep_planes g deep in
    let even = subst (λ n. IsGrid n g.num_layers a.written) depths (grid g a s) in
    ap (λ ws. holds (row ws p l) x) (record_finalized_written g a position exit_depth deep)
    ∙ holds-mark_planes g.max_loops g.num_layers a.written (deeper g exit_depth) g.recurrent_layers
        position even (range_from-below (exit_depth + 1) _ g.max_loops (omega arith)) layers p l x
    ∙ ground (arith, contains-range_from p (exit_depth + 1) (g.max_loops - (exit_depth + 1)))

finalized-IsShaped :
    (g : Geometry) (a : Allocation) (position exit_depth : ℕ)
    → IsShaped g a
    → is_shared g.layout ≡ false
    → exit_depth < g.max_loops
    → IsShaped g (record_finalized g a position exit_depth)
finalized-IsShaped g a position exit_depth s deep h =
    let depths = deep_planes g deep in
    let even = subst (λ n. IsGrid n g.num_layers a.written) depths (grid g a s) in
    let after : IsGrid g.max_loops g.num_layers (record_finalized g a position exit_depth).written =
      subst (IsGrid g.max_loops g.num_layers)
        (sym (record_finalized_written g a position exit_depth deep))
        (mark_planes-IsGrid g.max_loops g.num_layers a.written (deeper g exit_depth)
          g.recurrent_layers position even
          (range_from-below (exit_depth + 1) _ g.max_loops (omega arith))) in
    keep_shape g a (record_finalized g a position exit_depth) s
      (record_finalized_tables g a position exit_depth).0
      (record_finalized_tables g a position exit_depth).1 (after.height ∙ sym depths) after.width
      after.normal

abbrev pub unwritten : Cache → Allocation → ℕ → ℕ → Bool
unwritten c a position exit_depth =
    any (λ l. not (holds (row a.written (plane c.geometry exit_depth) l) position))
      c.recurrent_layers

mark_finalized_lem :
    (rid : String) (position exit_depth : ℕ) (a : Allocation) (c : Cache)
    → lookup rid c.allocations ≡ some a
    → exit_depth < c.max_loops
    → position < a.max_tokens
    → mark_finalized rid position exit_depth c ≡ (
        if unwritten c a position exit_depth
        then err runtime_error
        else ok (record c {
          allocations =
              insert rid (record_finalized c.geometry a position exit_depth) c.allocations;
        }))
unfolding mark_finalized get_allocation validate_depth validate_position
mark_finalized_lem rid position exit_depth a c found hd hp = ground arith

-- Under LAST_EXITED, in a sound state, for a position and an exit depth in range and recurrent layers
-- in range, `mark_finalized` refuses a token of an existing allocation that some recurrent layer has not written at its exit depth.
-- Otherwise the state stays sound, and the position is marked at every deeper plane and recurrent
-- layer, with nothing else marked and nothing forgotten.
pub mark_finalized-IsSound :
    (rid : String) (position exit_depth : ℕ) (a : Allocation) (c : Cache)
    → IsSound c
    → lookup rid c.allocations ≡ some a
    → is_shared c.layout ≡ false
    → exit_depth < c.max_loops
    → position < a.max_tokens
    → All (λ l. l < c.num_layers) c.recurrent_layers
    → ((mark_finalized rid position exit_depth c ≡ err runtime_error)
        × (unwritten c a position exit_depth ≡ true))
      ⊎ ((c' : Cache) × (mark_finalized rid position exit_depth c ≡ ok c')
          × IsSound c'
          × (unwritten c a position exit_depth ≡ false)
          × (a' : Allocation) × (lookup rid c'.allocations ≡ some a')
          × ((p l x : ℕ)
              → holds (row a'.written p l) x ≡ (
                  holds (row a.written p l) x
                  || ((ltb exit_depth p && ltb p c.max_loops)
                      && (contains l c.recurrent_layers && (position == x))))))
mark_finalized-IsSound rid position exit_depth a c s found deep hd hp layers =
    let shape : IsShaped c.geometry a =
      All-lookup (IsShaped c.geometry) rid a c.allocations s.shaped found in
    let a' = record_finalized c.geometry a position exit_depth in
    elim (Bool-cases (unwritten c a position exit_depth)) [
      | inl bad ↦ inl (rw (mark_finalized_lem rid position exit_depth a c found hd hp, bad), bad)
      | inr good ↦ inr (
        record c { allocations = insert rid a' c.allocations },
        rw (mark_finalized_lem rid position exit_depth a c found hd hp, good),
        update-IsSound rid a a' c s found
            (record_finalized_tables c.geometry a position exit_depth).0
            (finalized-IsShaped c.geometry a position exit_depth shape deep hd),
        good,
        a',
        ground (arith, lookup-insert rid rid a' c.allocations, str_eq_iff rid rid),
        record_finalized_lem c.geometry a position exit_depth shape deep hd layers,
      )
    ]
