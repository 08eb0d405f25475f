-- ===== src/KvCache/State.antt =====
-- The state of `KVCacheManager` (vllm_rlt/core/kv_cache_manager.py), its constructor and its small
-- queries. Tensors stand apart, in `KvCache.Contents`.
use vllm_rlt.Common.{
  ℕ, ◌+◌, ◌-◌, ◌*◌, ◌/◌, Bool, true, false, not, ◌&&◌, ◌||◌, List, [], ◌∷◌, Option, none, some,
  String, Dict, lookup, Result, ok, err, value_error, key_error, index_error, get_elem?, ◌>>=◌,
  ◌>>◌, raise_if, leb, ◌==◌, if◌then◌else◌, length, concat, any, contains,
}
use vllm_rlt.KvCache.Written.{Written}
use vllm_rlt.KvCache.Pool.{Pool, empty_pool}
use vllm_rlt.KvCache.Pool

pub data Layout : Type 0 where
  last_exited shared : Layout

-- The constructor's arguments that the accounting reads. `watermark_blocks` is
-- `int(watermark_ratio * num_blocks)`.
pub record Geometry : Type 0 where
  pub num_layers : ℕ
  pub num_kv_heads : ℕ
  pub head_dim : ℕ
  pub num_blocks : ℕ
  pub block_size : ℕ
  pub max_loops : ℕ
  pub layout : Layout
  pub enable_prefix_caching : Bool
  pub incremental_allocation : Bool
  pub watermark_blocks : ℕ
  pub recurrent_layers : List ℕ

-- `ident` stands for the identity of the Python object.
pub record Allocation : Type 0 where
  pub ident : ℕ
  pub max_tokens : ℕ
  pub block_tables : List (List ℕ)
  pub written : List (List Written)
  pub transfer_leases : List String
  pub release_requested : Bool

-- A publication that waits for a GPU event; `allocation` is the identity of the object it holds.
pub record PendingPrefix : Type 0 where
  pub request_id : String
  pub allocation : ℕ
  pub tokens : List ℕ
  pub extent : ℕ
  pub event : ℕ

pub record Cache : Type 0 where
  pub geometry : Geometry
  pub open geometry use *
  pub pool : Pool
  pub open pool use *
  pub allocations : Dict Allocation
  pub prefixes : Dict (List ℕ)
  pub pending_prefixes : List PendingPrefix
  pub prefix_hits : ℕ
  pub prefix_queries : ℕ
  pub next_ident : ℕ

abbrev pub is_shared : Layout → Bool
is_shared shared = true
is_shared last_exited = false

-- `storage_depths`: the planes that a page has.
unfoldable pub storage_depths : Geometry → ℕ
storage_depths g = if is_shared g.layout then 1 else g.max_loops

abbrev pub distinct : List ℕ → Bool
distinct [] = true
distinct (x ∷ xs) = not (contains x xs) && distinct xs

abbrev pub is_empty {ℓ} : {A : Type ℓ} → List A → Bool
is_empty [] = true
is_empty (x ∷ xs) = false

-- `KVCacheManager.__init__`, the checks and the fields of the accounting.
unfoldable pub create : Geometry → Result Cache
create g = do
  raise_if
      (any (λ v. v == 0)
        (g.num_layers ∷ g.num_kv_heads ∷ g.head_dim ∷ g.num_blocks ∷ g.block_size ∷ g.max_loops
          ∷ []))
      value_error
  raise_if (is_empty g.recurrent_layers || not (distinct g.recurrent_layers)) value_error
  raise_if (any (λ l. leb g.num_layers l) g.recurrent_layers) value_error
  raise_if (g.enable_prefix_caching && is_shared g.layout) value_error
  ok (record {
    geometry = g;
    pool = empty_pool g.num_blocks;
    allocations = [];
    prefixes = [];
    pending_prefixes = [];
    prefix_hits = 0;
    prefix_queries = 0;
    next_ident = 0;
  })

-- The pages that hold a number of tokens.
unfoldable pub pages_for : Geometry → ℕ → ℕ
pages_for g tokens = (tokens + g.block_size - 1) / g.block_size

unfoldable pub required_blocks : Geometry → ℕ → Result ℕ
unfolding pages_for storage_depths
required_blocks g max_tokens =
    if max_tokens == 0 then err value_error else ok (pages_for g max_tokens * storage_depths g)

unfoldable pub num_free_blocks : Cache → ℕ
num_free_blocks c = Pool.num_free_blocks c.prefixes c.pool

unfoldable pub num_used_blocks : Cache → ℕ
unfolding num_free_blocks
num_used_blocks c = c.num_blocks - num_free_blocks c

unfoldable pub get_allocation : String → Cache → Result Allocation
get_allocation rid c = elim (lookup rid c.allocations) [ none ↦ err key_error | some a ↦ ok a ]

abbrev pub is_some {ℓ} : {A : Type ℓ} → Option A → Bool
is_some none = false
is_some (some a) = true

unfoldable pub has_allocation : String → Cache → Bool
has_allocation rid c = is_some (lookup rid c.allocations)

-- `len(block_tables[0])`; there is at least one plane.
unfoldable pub held_pages : Allocation → ℕ
held_pages a = elim a.block_tables [ [] ↦ 0 | t ∷ ts ↦ length t ]

unfoldable pub allocated_blocks : String → Cache → Result ℕ
unfolding get_allocation held_pages
allocated_blocks rid c = do a ← get_allocation rid c; ok (held_pages a * storage_depths c.geometry)

unfoldable pub plane : Geometry → ℕ → ℕ
plane g depth = if is_shared g.layout then 0 else depth

unfoldable pub validate_depth : Geometry → ℕ → Result (Unit {0})
validate_depth g depth = raise_if (leb g.max_loops depth) value_error

unfoldable pub validate_layer : Geometry → ℕ → Result (Unit {0})
validate_layer g layer = raise_if (leb g.num_layers layer) value_error

unfoldable pub validate_position : Allocation → ℕ → Result (Unit {0})
validate_position a position = raise_if (leb a.max_tokens position) value_error

unfoldable pub has_transfer_lease : String → Cache → Result Bool
unfolding get_allocation
has_transfer_lease rid c = do a ← get_allocation rid c; ok (not (is_empty a.transfer_leases))

-- `exclusive_prefix_blocks`: the blocks of a prefix hit that only the index holds.
unfoldable pub exclusive_prefix_blocks : List (List ℕ) → Cache → ℕ
exclusive_prefix_blocks prefix c = Pool.exclusive c.pool.refs (concat prefix)

-- `bytes_per_block`, for elements of the size given.
unfoldable pub bytes_per_block : ℕ → Geometry → ℕ
bytes_per_block element_size g =
    2 * g.num_layers * g.block_size * g.num_kv_heads * g.head_dim * element_size

unfoldable pub plane_block_tables : String → Cache → Result (List (List ℕ))
unfolding get_allocation
plane_block_tables rid c = do a ← get_allocation rid c; ok a.block_tables

unfoldable pub get_block_table : String → ℕ → Cache → Result (List ℕ)
unfolding get_allocation validate_depth plane
get_block_table rid depth c = do
  validate_depth c.geometry depth
  a ← get_allocation rid c
  elim (get_elem? a.block_tables (plane c.geometry depth)) [
    | none ↦ err index_error
    | some t ↦ ok t
  ]
