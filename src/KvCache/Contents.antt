-- ===== src/KvCache/Contents.antt =====
-- The tensors of `KVCacheManager` (vllm_rlt/core/kv_cache_manager.py): what `write` stores,
-- `finalize_token` copies, and `snapshot` and `restore` save and bring back. A tensor maps a block,
-- a layer and an offset to a value; values and dtypes are abstract.
pub mod Copies
pub mod Snapshots
use vllm_rlt.Common.{
  ℕ, zero, suc, ◌+◌, ◌-◌, ◌*◌, ◌/◌, ◌%◌, Bool, true, false, not, ◌&&◌, ◌||◌, List, [], ◌∷◌, ◌++◌,
  Option, none, some, String, lookup, insert, Result, ok, err, value_error, runtime_error,
  index_error, ◌>>=◌, ◌>>◌, raise_if, ◌==◌, if◌then◌else◌, length, get_elem?, concat, any, map,
  range,
}
use vllm_rlt.KvCache.Written.{Written}
use vllm_rlt.KvCache.State.{
  Geometry, Allocation, Cache, is_shared, plane, get_allocation, is_empty, held_pages,
}
use vllm_rlt.KvCache.Marks.{require_exit_written, record_finalized, deeper}

abbrev pub Tensor : Type 0 → Type 0
Tensor V = ℕ → ℕ → ℕ → V

-- What one page holds: a layer and an offset to a value.
abbrev pub Page : Type 0 → Type 0
Page V = ℕ → ℕ → V

pub record Contents (V : Type 0) : Type 0 where
  pub key_cache : Tensor V
  pub value_cache : Tensor V

pub record KvSnapshot (V : Type 0) : Type 0 where
  pub max_tokens : ℕ
  pub pages : ℕ
  pub written : List (List Written)
  pub keys : List (Page V)
  pub values : List (Page V)

module _ {V : Type 0} where
  -- `cache[destination, layer, offset].copy_(cache[source, layer, offset])`.
  unfoldable pub copy_slot : ℕ → ℕ → ℕ → ℕ → Tensor V → Tensor V
  copy_slot source destination layer offset t b l o =
      if (b == destination) && ((l == layer) && (o == offset))
      then t source layer offset
      else t b l o

  -- The inner loop of `finalize_token`, over the recurrent layers. The source copies whole pages
  -- of layers at once where every layer is recurrent.
  unfoldable pub copy_layers : ℕ → ℕ → List ℕ → ℕ → Tensor V → Tensor V
  unfolding copy_slot
  copy_layers source destination [] offset t = t
  copy_layers source destination (l ∷ layers) offset t =
      copy_layers source destination layers offset (copy_slot source destination l offset t)

  unfoldable pub copy_planes : ℕ → List ℕ → List ℕ → ℕ → Tensor V → Tensor V
  unfolding copy_layers
  copy_planes source [] layers offset t = t
  copy_planes source (d ∷ destinations) layers offset t =
      copy_planes source destinations layers offset (copy_layers source d layers offset t)

  -- `for row, block in enumerate(blocks): cache[block].copy_(saved[row])`.
  unfoldable pub write_pages : List ℕ → List (Page V) → Tensor V → Result (Tensor V)
  write_pages [] saved t = ok t
  write_pages (b ∷ blocks) [] t = err index_error
  write_pages (b ∷ blocks) (page ∷ saved) t =
      write_pages blocks saved (λ x. if x == b then page else t x)

-- `block_tables[plane][page]`.
unfoldable pub page_of : Allocation → ℕ → ℕ → Result ℕ
page_of a p page = elim (get_elem? a.block_tables p) [
  | none ↦ err index_error
  | some table ↦ elim (get_elem? table page) [ none ↦ err index_error | some block ↦ ok block ]
]

unfoldable pub pages_of : Allocation → List ℕ → ℕ → Result (List ℕ)
unfolding page_of
pages_of a [] page = ok []
pages_of a (p ∷ planes) page = do
  block ← page_of a p page
  rest ← pages_of a planes page
  ok (block ∷ rest)

-- `w.prefix or w.pending`.
abbrev pub touched : Written → Bool
touched w = not (w.prefix == 0) || not (is_empty w.pending)

-- The layers that `finalize_token` copies: all at once where every layer is recurrent.
abbrev pub copied_layers : Geometry → List ℕ
copied_layers g =
    if length g.recurrent_layers == g.num_layers then range g.num_layers else g.recurrent_layers

module _ {V : Type 0} where
  -- The copies of `finalize_token` under LAST_EXITED, where the plane of a depth is the depth.
  unfoldable pub copy_token : Geometry → Allocation → ℕ → ℕ → Contents V → Result (Contents V)
  unfolding page_of pages_of copy_planes
  copy_token g a position exit_depth m = do
    source ← page_of a exit_depth (position / g.block_size)
    destinations ← pages_of a (deeper g exit_depth) (position / g.block_size)
    let offset = position % g.block_size
    ok (record {
      key_cache = copy_planes source destinations (copied_layers g) offset m.key_cache;
      value_cache = copy_planes source destinations (copied_layers g) offset m.value_cache;
    })

  unfoldable pub finalize_token : String → ℕ → ℕ → Cache → Contents V → Result (Cache × Contents V)
  unfolding require_exit_written record_finalized copy_token
  finalize_token rid position exit_depth c m = do
    a ← require_exit_written rid position exit_depth c
    if is_shared c.layout then ok (c, m) else (do
      m' ← copy_token c.geometry a position exit_depth m
      let a' = record_finalized c.geometry a position exit_depth
      ok (record c { allocations = insert rid a' c.allocations }, m'))

  unfoldable pub snapshot : String → Cache → Contents V → Result (KvSnapshot V)
  unfolding get_allocation held_pages
  snapshot rid c m = do
    a ← get_allocation rid c
    raise_if (not (is_empty a.transfer_leases)) runtime_error
    let blocks = concat a.block_tables
    ok (record {
      max_tokens = a.max_tokens;
      pages = held_pages a;
      written = a.written;
      keys = map m.key_cache blocks;
      values = map m.value_cache blocks;
    })

  unfoldable pub restore : String → KvSnapshot V → Cache → Contents V → Result (Cache × Contents V)
  unfolding get_allocation held_pages write_pages
  restore rid saved c m = do
    a ← get_allocation rid c
    raise_if (not (a.max_tokens == saved.max_tokens)) value_error
    raise_if (not (held_pages a == saved.pages)) value_error
    raise_if (any (any touched) a.written) runtime_error
    let blocks = concat a.block_tables
    keys ← write_pages blocks saved.keys m.key_cache
    values ← write_pages blocks saved.values m.value_cache
    let a' = record a { written = saved.written }
    ok (
      record c { allocations = insert rid a' c.allocations },
      record { key_cache = keys; value_cache = values },
    )
