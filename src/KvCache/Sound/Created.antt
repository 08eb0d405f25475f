-- ===== src/KvCache/Sound/Created.antt =====
-- A new `KVCacheManager` (vllm_rlt/core/kv_cache_manager.py, `__init__`) is sound.
use vllm_rlt.Common.{total, [], length-replicate}
use vllm_rlt.KvCache.Pool.{empty_pool}
use vllm_rlt.KvCache.Pool.Refs.{empty_pool-Balanced}
use vllm_rlt.KvCache.State.{Geometry, Cache}
use vllm_rlt.KvCache.Sound.{IsSound}

abbrev pub initial : Geometry → Cache
initial g = record {
  geometry = g;
  pool = empty_pool g.num_blocks;
  allocations = [];
  prefixes = [];
  pending_prefixes = [];
  prefix_hits = 0;
  prefix_queries = 0;
  next_ident = 0;
}

pub initial-IsSound : (g : Geometry) → IsSound (initial g)
unfolding empty_pool total
initial-IsSound g = record {
  balanced = empty_pool-Balanced g.num_blocks;
  size = length-replicate g.num_blocks 0;
  shaped = tt;
  grouped = tt;
}
