-- ===== src/KvCache/Marks.antt =====
-- The bookkeeping of written positions in `KVCacheManager` (vllm_rlt/core/kv_cache_manager.py):
-- which tokens have keys and values at which plane and layer.
pub mod Laws
pub mod Finalize
pub mod Imported
use vllm_rlt.Common.{
  ℕ, zero, suc, ◌+◌, ◌-◌, ◌*◌, ◌/◌, ◌%◌, Bool, true, false, not, ◌&&◌, ◌||◌, List, [], ◌∷◌, ◌++◌,
  Option, none, some, String, Dict, lookup, insert, Result, ok, err, value_error, runtime_error,
  index_error, ◌>>=◌, ◌>>◌, raise_if, ltb, leb, ◌==◌, if◌then◌else◌, length, get_elem?, get_or, set,
  any, all, map, range, range_from,
}
use vllm_rlt.KvCache.Written.{Written, add, holds, written_to}
use vllm_rlt.KvCache.State.{
  Geometry, Allocation, Cache, Layout, is_shared, plane, get_allocation, validate_depth,
  validate_layer, validate_position, is_empty,
}

-- `written[plane][layer]`. Both indices are in range in a sound state.
unfoldable pub row : List (List Written) → ℕ → ℕ → Written
unfolding written_to
row ws p l = get_or (get_or ws p []) l (written_to 0)

-- `written[plane][layer].add(position)`.
unfoldable pub mark : List (List Written) → ℕ → ℕ → ℕ → List (List Written)
unfolding row
mark ws p l position = set ws p (set (get_or ws p []) l (add (row ws p l) position))

unfoldable pub mark_layers : List (List Written) → ℕ → List ℕ → ℕ → List (List Written)
unfolding mark
mark_layers ws p [] position = ws
mark_layers ws p (l ∷ layers) position = mark_layers (mark ws p l position) p layers position

unfoldable pub mark_planes : List (List Written) → List ℕ → List ℕ → ℕ → List (List Written)
unfolding mark_layers
mark_planes ws [] layers position = ws
mark_planes ws (p ∷ planes) layers position =
    mark_planes (mark_layers ws p layers position) planes layers position

-- `range(exit_depth + 1, self.max_loops)`.
abbrev pub deeper : Geometry → ℕ → List ℕ
deeper g exit_depth = range_from (exit_depth + 1) (g.max_loops - (exit_depth + 1))

-- `_record_finalized`: the plane of a depth is the depth itself where anything is recorded.
unfoldable pub record_finalized : Geometry → Allocation → ℕ → ℕ → Allocation
unfolding mark_planes
record_finalized g a position exit_depth = if is_shared g.layout then a else record a {
  written = mark_planes a.written (deeper g exit_depth) g.recurrent_layers position;
}

-- `_require_exit_written`.
unfoldable pub require_exit_written : String → ℕ → ℕ → Cache → Result Allocation
unfolding get_allocation validate_depth validate_position plane row holds
require_exit_written rid position exit_depth c = do
  a ← get_allocation rid c
  validate_depth c.geometry exit_depth
  validate_position a position
  raise_if
      (any (λ l. not (holds (row a.written (plane c.geometry exit_depth) l) position))
        c.recurrent_layers)
      runtime_error
  ok a

unfoldable pub mark_finalized : String → ℕ → ℕ → Cache → Result Cache
unfolding require_exit_written record_finalized
mark_finalized rid position exit_depth c = do
  a ← require_exit_written rid position exit_depth c
  ok (record c {
    allocations = insert rid (record_finalized c.geometry a position exit_depth) c.allocations;
  })

-- `token_written`: whether every layer has written the position at the depth.
unfoldable pub token_written : String → ℕ → ℕ → Cache → Result Bool
unfolding get_allocation validate_depth validate_position plane row holds
token_written rid position depth c = do
  a ← get_allocation rid c
  validate_depth c.geometry depth
  validate_position a position
  ok (all (λ l. holds (row a.written (plane c.geometry depth) l) position) (range c.num_layers))

-- `_require_prefix`: attention reads only a context that is written throughout.
unfoldable pub require_prefix : Geometry → Allocation → ℕ → ℕ → ℕ → Result (Unit {0})
unfolding plane row
require_prefix g a layer depth extent =
    raise_if (ltb (row a.written (plane g depth) layer).prefix extent) runtime_error

-- `mark_imported_prefix`.
abbrev pub initialized : ℕ → Written → Bool
initialized start w = not (w.prefix == start) || not (is_empty w.pending)

abbrev pub set_prefix : ℕ → Written → Written
set_prefix extent w = record w { prefix = extent }

unfoldable pub mark_imported_prefix : String → ℕ → ℕ → Cache → Result Cache
unfolding get_allocation
mark_imported_prefix rid extent start c = do
  a ← get_allocation rid c
  raise_if (not (ltb 0 extent && leb extent a.max_tokens)) value_error
  raise_if a.release_requested runtime_error
  raise_if (any (any (initialized start)) a.written) runtime_error
  let a' = record a { written = map (map (set_prefix extent)) a.written }
  ok (record c { allocations = insert rid a' c.allocations })

-- A row of a batch: the request, its depth and its position.
pub record Row : Type 0 where
  pub request_id : String
  pub depth : ℕ
  pub position : ℕ

-- `_validate_rows`, for lists of one length.
unfoldable pub validate_rows : List Row → Cache → Result (Unit {0})
unfolding get_allocation validate_depth validate_position
validate_rows [] c = ok tt
validate_rows (r ∷ rows) c = do
  a ← get_allocation r.request_id c
  validate_depth c.geometry r.depth
  validate_position a r.position
  validate_rows rows c

-- `block_tables[plane][position // block_size]` and `position % block_size`.
unfoldable pub address : Row → Cache → Result (ℕ × ℕ)
unfolding get_allocation plane
address r c = do
  a ← get_allocation r.request_id c
  elim (get_elem? a.block_tables (plane c.geometry r.depth)) [
    | none ↦ err index_error
    | some table ↦ elim (get_elem? table (r.position / c.block_size)) [
      | none ↦ err index_error
      | some block ↦ ok (block, r.position % c.block_size)
    ]
  ]

unfoldable pub addresses : List Row → Cache → Result (List (ℕ × ℕ))
unfolding address
addresses [] c = ok []
addresses (r ∷ rows) c = do here ← address r c; rest ← addresses rows c; ok (here ∷ rest)

-- `len(set(zip(blocks, offsets))) != n`.
abbrev repeats : List (ℕ × ℕ) → Bool
repeats [] = false
repeats ((b, o) ∷ slots) = any (λ e. (e.0 == b) && (e.1 == o)) slots || repeats slots

-- The addresses of `_prepare_batch` with `for_write=True`.
unfoldable pub prepare_write : List Row → Cache → Result (List (ℕ × ℕ))
unfolding validate_rows addresses
prepare_write rows c = do
  validate_rows rows c
  slots ← addresses rows c
  raise_if (repeats slots) value_error
  ok slots

-- The loop at the end of `_write_prepared`.
unfoldable pub mark_rows : ℕ → List Row → Cache → Result Cache
unfolding get_allocation mark plane
mark_rows layer [] c = ok c
mark_rows layer (r ∷ rows) c = do
  a ← get_allocation r.request_id c
  let a' = record a { written = mark a.written (plane c.geometry r.depth) layer r.position }
  mark_rows layer rows (record c { allocations = insert r.request_id a' c.allocations })

-- `write`, its bookkeeping: the tensors go to the addresses.
unfoldable pub write : ℕ → List Row → Cache → Result (List (ℕ × ℕ) × Cache)
unfolding validate_layer prepare_write mark_rows
write layer rows c = do
  validate_layer c.geometry layer
  slots ← prepare_write rows c
  c' ← mark_rows layer rows c
  ok (slots, c')
