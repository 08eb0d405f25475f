-- ===== src/KvCache/Sound/Grow.antt =====
-- `ensure_capacity` of vllm_rlt/core/kv_cache_manager.py keeps the invariant.
use vllm_rlt.Common.{
  ℕ, ◌+◌, ◌-◌, ◌*◌, ◌≤◌, ◌<◌, ◌≡◌, refl, sym, subst, ◌∙◌, true, false, some, String, lookup, insert,
  total-insert_old, All-insert, All-lookup, lookup-insert, str_eq_iff, ok, length, concat, count,
  All, All-mono, All-append_right, arith, inl, inr, Bool-cases, ltb, ◌==◌, if◌then◌else◌,
}
use vllm_rlt.KvCache.Pool
use vllm_rlt.KvCache.Pool.{Pool, claim, Claimed}
use vllm_rlt.KvCache.Pool.Refs.{Balanced-ext}
use vllm_rlt.KvCache.Pool.Claim.{claim_refused, claim-Granted}
use vllm_rlt.KvCache.State.{
  Allocation, Cache, storage_depths, pages_for, held_pages, num_free_blocks, get_allocation,
}
use vllm_rlt.KvCache.Pages.{extend_tables, grow, ensure_capacity}
use vllm_rlt.KvCache.Pages.Tables.{extend_tables_lem}
use vllm_rlt.KvCache.Sound.{table_refs, IsShaped, IsSound}
use vllm_rlt.KvCache.Sound.Allocate.{held_pages_lem, Claims, HasPages, pages_for_mono}

grow-Claims :
    (rid : String) (a : Allocation) (extra : ℕ) (c : Cache)
    → IsSound c
    → lookup rid c.allocations ≡ some a
    → held_pages a + extra ≤ pages_for c.geometry a.max_tokens
    → Claims
        (extra * storage_depths c.geometry)
        (HasPages rid (held_pages a + extra))
        c
        (grow rid a extra c)
unfolding grow num_free_blocks Pool.num_free_blocks
grow-Claims rid a extra c s found fits =
    let others = table_refs c.allocations in
    let wanted = extra * storage_depths c.geometry in
    let shape : IsShaped c.geometry a =
      All-lookup (IsShaped c.geometry) rid a c.allocations s.shaped found in
    elim (Bool-cases (ltb (Pool.num_free_blocks c.prefixes c.pool) wanted)) [
      | inl short ↦
          let refused = claim_refused wanted c.prefixes c.pool (ground arith) in
          record {
            granted = false;
            after = c;
            returns = rw refused;
            sound = s;
            covers = λ enough. absurd (ground arith);
            post = λ e. absurd (cc);
            refusal = λ e. (refl, refl);
          }
      | inr room ↦
          let got = claim-Granted wanted c.prefixes others c.pool s.balanced (ground arith) in
          let tables = extend_tables 0 extra got.blocks a.block_tables in
          let (planes, lens, counts) =
            extend_tables_lem (storage_depths c.geometry) extra (held_pages a) got.blocks
              a.block_tables shape.planes got.taken shape.even in
          let a' : Allocation = record a { block_tables = tables } in
          let (same, le) = held_pages_lem a' tables (held_pages a + extra) refl lens in
          let c' : Cache = record c {
            prefixes = got.kept;
            pool = got.after;
            allocations = insert rid a' c.allocations;
          } in
          record {
            granted = true;
            after = c';
            returns = rw got.returns;
            sound = record {
              balanced =
                  Balanced-ext _ _ got.after
                    (λ b. omega (
                      arith,
                      counts b,
                      total-insert_old (λ (x : Allocation). count b (concat x.block_tables)) rid a'
                          a c.allocations found,
                    ))
                    got.balanced;
              size = got.same_size ∙ s.size;
              shaped =
                  All-insert (IsShaped c.geometry) rid a' c.allocations
                    (record {
                      planes = planes;
                      even = same;
                      fits = omega arith;
                      written_planes = shape.written_planes;
                      written_layers = shape.written_layers;
                      normal = shape.normal;
                    })
                    s.shaped;
              grouped =
                  All-append_right (λ e. length e.1 ≡ storage_depths c.geometry) got.dropped
                    got.kept
                    (subst (All (λ e. length e.1 ≡ storage_depths c.geometry))
                      (sym got.oldest_first) s.grouped);
            };
            covers = λ enough. refl;
            post = λ e. (
              a',
              ground (arith, lookup-insert rid rid a' c.allocations, str_eq_iff rid rid),
              All-mono tables (λ t h. omega arith) lens,
            );
            refusal = λ e. absurd (cc);
          }
    ]

ensure_capacity_lem :
    (rid : String) (tokens : ℕ) (a : Allocation) (c : Cache)
    → lookup rid c.allocations ≡ some a
    → 0 < tokens
    → tokens ≤ a.max_tokens
    → ensure_capacity rid tokens c ≡ (
        if pages_for c.geometry tokens - held_pages a == 0
        then ok (true, c)
        else grow rid a (pages_for c.geometry tokens - held_pages a) c)
unfolding ensure_capacity get_allocation
ensure_capacity_lem rid tokens a c found pos within = ground arith

-- Growing an existing allocation to a frontier within its capacity, from 1 on, keeps a sound state sound. It succeeds
-- whenever the missing pages are covered by `num_free_blocks`; afterwards every plane has the pages
-- of the frontier. A refusal leaves the allocations and the prefix index unchanged.
pub ensure_capacity-Claims :
    (rid : String) (tokens : ℕ) (a : Allocation) (c : Cache)
    → IsSound c
    → lookup rid c.allocations ≡ some a
    → 0 < tokens
    → tokens ≤ a.max_tokens
    → Claims
        ((pages_for c.geometry tokens - held_pages a) * storage_depths c.geometry)
        (HasPages rid (pages_for c.geometry tokens))
        c
        (ensure_capacity rid tokens c)
ensure_capacity-Claims rid tokens a c s found pos within =
    let extra = pages_for c.geometry tokens - held_pages a in
    let shape : IsShaped c.geometry a =
      All-lookup (IsShaped c.geometry) rid a c.allocations s.shaped found in
    elim (Bool-cases (extra == 0)) [
      | inl nothing ↦ record {
        granted = true;
        after = c;
        returns = rw (ensure_capacity_lem rid tokens a c found pos within, nothing);
        sound = s;
        covers = λ enough. refl;
        post = λ e. (a, found, All-mono a.block_tables (λ t h. ground arith) shape.even);
        refusal = λ e. absurd (cc);
      }
      | inr more ↦
          let bound : held_pages a + extra ≤ pages_for c.geometry a.max_tokens =
            ground (arith, pages_for_mono c.geometry tokens a.max_tokens within) in
          let r = grow-Claims rid a extra c s found bound in
          record {
            granted = r.granted;
            after = r.after;
            returns = rw (ensure_capacity_lem rid tokens a c found pos within, more) r.returns;
            sound = r.sound;
            covers = r.covers;
            post = λ e.
                subst (λ n. HasPages rid n r.after) {x = held_pages a + extra}
                  {y = pages_for c.geometry tokens} (ground arith) (r.post e);
            refusal = r.refusal;
          }
    ]
