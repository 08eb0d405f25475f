-- ===== src/KvCache/Sound.antt =====
-- The invariant of `KVCacheManager` (vllm_rlt/core/kv_cache_manager.py).
pub mod Created
pub mod Allocate
pub mod Grow
pub mod Release
pub mod Truncate
pub mod Leases
pub mod Prefix
use vllm_rlt.Common.{
  ℕ, zero, suc, ◌+◌, ◌≤◌, ◌<◌, ◌≡◌, refl, sym, ap, subst, ◌∙◌, List, [], ◌∷◌, String, Dict, total,
  length, lookup, some, ok, concat, count, All, arith,
}
use vllm_rlt.KvCache.Written.Laws.{IsNormal}
use vllm_rlt.KvCache.Pool.Refs.{Balanced, empty_pool-Balanced}
use vllm_rlt.KvCache.Pool.Claim.{with_prefixes}
use vllm_rlt.KvCache.State.{
  Geometry, Allocation, Cache, storage_depths, pages_for, held_pages, create, get_allocation,
}

-- The references that the block tables of all allocations hold to a block.
abbrev pub table_refs : Dict Allocation → ℕ → ℕ
table_refs allocations b = total (λ a. count b (concat a.block_tables)) allocations

-- One table for each plane, all of one length and within the logical capacity; the written
-- positions of each plane and layer, in normal form.
pub record IsShaped (g : Geometry) (a : Allocation) : Type 0 where
  pub planes : length a.block_tables ≡ storage_depths g
  pub even : All (λ t. length t ≡ held_pages a) a.block_tables
  pub fits : held_pages a ≤ pages_for g a.max_tokens
  pub written_planes : length a.written ≡ storage_depths g
  pub written_layers : All (λ row. length row ≡ g.num_layers) a.written
  pub normal : All (All IsNormal) a.written

pub get_allocation_lem :
    (rid : String) (a : Allocation) (c : Cache)
    → lookup rid c.allocations ≡ some a
    → get_allocation rid c ≡ ok a
unfolding get_allocation
get_allocation_lem rid a c found = rw (found, get_allocation)

held_pages-eq :
    (a a' : Allocation) → a'.block_tables ≡ a.block_tables → held_pages a' ≡ held_pages a
unfolding held_pages
held_pages-eq a a' e = rw (e, held_pages)

-- A change that leaves the tables and the capacity alone, and keeps the written positions in order.
pub keep_shape :
    (g : Geometry) (a a' : Allocation)
    → IsShaped g a
    → a'.block_tables ≡ a.block_tables
    → a'.max_tokens ≡ a.max_tokens
    → length a'.written ≡ storage_depths g
    → All (λ row. length row ≡ g.num_layers) a'.written
    → All (All IsNormal) a'.written
    → IsShaped g a'
keep_shape g a a' s tables capacity planes layers normal =
    let held = held_pages-eq a a' tables in
    record {
      planes = ap length tables ∙ s.planes;
      even =
          subst (λ ts. All (λ t. length t ≡ held_pages a') ts) (sym tables)
            (subst (λ n. All (λ t. length t ≡ n) a.block_tables) (sym held) s.even);
      fits =
          subst (λ n. held_pages a' ≤ pages_for g n) (sym capacity) (omega (arith, s.fits, held));
      written_planes = planes;
      written_layers = layers;
      normal = normal;
    }

-- Every reference count is the number of tables and prefix entries that hold the block, a block is
-- free exactly if nothing holds it and is then free once, and every allocation is well formed.
pub record IsSound (c : Cache) : Type 0 where
  pub balanced : Balanced (with_prefixes c.prefixes (table_refs c.allocations)) c.pool
  pub size : length c.pool.refs ≡ c.num_blocks
  pub shaped : All (λ e. IsShaped c.geometry e.1) c.allocations
  pub grouped : All (λ e. length e.1 ≡ storage_depths c.geometry) c.prefixes
