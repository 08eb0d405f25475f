-- ===== src/Scheduler/Admission/Budget.antt =====
-- The admission budget of vllm_rlt/core/scheduler.py covers what the allocation takes.
use vllm_rlt.Common.{
  ℕ, ◌+◌, ◌-◌, ◌*◌, ◌≤◌, ◌<◌, ◌≡◌, refl, ap, ◌∙◌, ◌⊎◌, inl, inr, Bool, true, false, not, ◌&&◌, List,
  some, Dict, Result, ok, err, value_error, arith, if-cases, length, min, if◌then◌else◌, >>=-eq-ok,
  ltb,
}
use native.Mathlib.Nat.{add-mul, zero-mul, mul-le-mul_right}
use vllm_rlt.KvCache.State.{
  Geometry, Cache, storage_depths, pages_for, required_blocks, num_free_blocks,
  exclusive_prefix_blocks,
}
use vllm_rlt.KvCache.Sound.{IsSound}
use vllm_rlt.KvCache.Sound.Allocate.{
  IsHit, HasPages, needed_blocks, pages_for_mono, allocate-Claims,
}
use vllm_rlt.Scheduler.State.{Request, SchedulerConfig, World}
use vllm_rlt.Scheduler.Admission.{
  AdmissionPlan, total_budget_blocks, reserved_growth_blocks, make_plan, enter_prefill,
  commit_admission,
}

-- What the scheduler budgets before any growth of others: the pages of the budgeted tokens beyond the
-- hit, and the hit's blocks that only the index holds.
le_or_lt : (m n : ℕ) → (m ≤ n) ⊎ (n < m)
le_or_lt m n = ground arith

mul_sub_le : (a b l d : ℕ) → a ≤ b → (a - l) * d ≤ b * d - l * d
mul_sub_le a b l d h = elim (le_or_lt l a) [
  | inl le ↦
      let split : a * d ≡ l * d + (a - l) * d =
        ap (λ n. n * d) {x = a} {y = l + (a - l)} (omega arith) ∙ add-mul l (a - l) d in
      omega (arith, split, mul-le-mul_right {m = a} {n = b} d h)
  | inr lt ↦
      let none_left : (a - l) * d ≡ 0 =
        ap (λ n. n * d) {x = a - l} {y = 0} (omega arith) ∙ zero-mul d in
      omega (arith, none_left)
]

required_blocks-eq :
    (g : Geometry) (n m : ℕ) → required_blocks g n ≡ ok m → m ≡ pages_for g n * storage_depths g
unfolding required_blocks
required_blocks-eq g n m e = ground arith

initial_within :
    (incremental can_preempt : Bool) (prompt outputs chunk initial : ℕ)
    → 0 < outputs
    → initial ≡ (if not incremental then prompt + outputs - 1 else min prompt chunk)
    → initial ≤ (
        if incremental && not (incremental && not can_preempt)
        then prompt
        else prompt + outputs - 1)
initial_within false can_preempt prompt outputs chunk initial pos e = omega (arith, e)
initial_within true true prompt outputs chunk initial pos e = omega (arith, e)
initial_within true false prompt outputs chunk initial pos e = omega (arith, e)

-- A plan allocates for no more tokens than it budgets, and the budget covers the allocation.
make_plan-covers :
    (can_preempt : Bool) (r : Request) (active : ℕ) (prefix : List (List ℕ))
    (config : SchedulerConfig) (requests : Dict Request) (c : Cache) (plan : AdmissionPlan)
    → 0 < r.sampling_params.max_tokens
    → make_plan can_preempt r active prefix config requests c ≡ ok plan
    → (plan.prefix_blocks ≡ prefix)
      × (needed_blocks plan.capacity_tokens (some plan.initial_tokens) prefix c
          ≤ total_budget_blocks plan)
unfolding make_plan total_budget_blocks
make_plan-covers can_preempt r active prefix config requests c plan pos e =
    let prompt = length r.prompt_token_ids in
    let budget =
      if c.incremental_allocation && not (c.incremental_allocation && not can_preempt)
      then prompt
      else prompt + r.sampling_params.max_tokens - 1 in
    let (required, e₁, e₂) = >>=-eq-ok (required_blocks c.geometry budget) _ e in
    let (reserved, e₃, e₄) = >>=-eq-ok (reserved_growth_blocks _ c requests) _ e₂ in
    let initial_le : plan.initial_tokens ≤ budget =
      initial_within c.incremental_allocation can_preempt prompt r.sampling_params.max_tokens
        (length prefix * c.block_size + config.prefill_chunk_size) plan.initial_tokens pos
        (cc e₄) in
    let required_at : plan.required_blocks ≡ required - length prefix * storage_depths c.geometry =
      cc e₄ in
    let claim_at : plan.cached_claim_blocks ≡ exclusive_prefix_blocks prefix c = cc e₄ in
    (
      cc e₄,
      omega (
        arith,
        required_at,
        claim_at,
        required_blocks-eq c.geometry budget required e₁,
        mul_sub_le (pages_for c.geometry plan.initial_tokens) (pages_for c.geometry budget)
            (length prefix) (storage_depths c.geometry)
            (pages_for_mono c.geometry plan.initial_tokens budget initial_le),
      ),
    )

-- What committing to a plan does.
pub data Committed (r : Request) (plan : AdmissionPlan) (w : World) (res : Result (Bool × World))
    : Type 0 where
  over_budget :
      num_free_blocks w.cache < total_budget_blocks plan
      → res ≡ ok (false, w)
      → Committed r plan w res
  invalid :
      total_budget_blocks plan ≤ num_free_blocks w.cache
      → res ≡ err value_error
      → Committed r plan w res
  admitted :
      (c : Cache)
      → total_budget_blocks plan ≤ num_free_blocks w.cache
      → res
        ≡ ok (
          true,
          record {
            scheduler = enter_prefill r.request_id plan.cached_tokens w.scheduler;
            cache = c;
          },
        )
      → IsSound c
      → HasPages r.request_id (pages_for w.cache.geometry plan.initial_tokens) c
      → Committed r plan w res

-- A plan made for a sound state and a prefix hit is never refused by the allocator when its budget
-- fits: with fewer free blocks than the whole budget, the request waits and nothing changes.
-- Otherwise, unless the request itself is invalid (a ValueError), it enters PREFILL with the pages
-- of its first step in a sound state. `max_tokens` of the request is at least 1.
pub commit_admission-Committed :
    (can_preempt : Bool) (r : Request) (active : ℕ) (prefix : List (List ℕ)) (w : World)
    (plan : AdmissionPlan)
    → IsSound w.cache
    → IsHit w.cache prefix
    → 0 < r.sampling_params.max_tokens
    → make_plan can_preempt r active prefix w.scheduler.config w.scheduler.requests w.cache
      ≡ ok plan
    → Committed r plan w (commit_admission r.request_id plan w)
unfolding commit_admission
commit_admission-Committed can_preempt r active prefix w plan s hit pos e =
    let (same, covers) =
      make_plan-covers can_preempt r active prefix w.scheduler.config w.scheduler.requests w.cache
        plan pos e in
    if-cases (Committed r plan w) (ltb (num_free_blocks w.cache) (total_budget_blocks plan))
      (λ over. over_budget (ground arith) refl)
      (λ fits.
        let room : total_budget_blocks plan ≤ num_free_blocks w.cache = ground arith in
        elim (allocate-Claims r.request_id plan.capacity_tokens (some plan.initial_tokens) prefix
          w.cache s hit) [
            | inl bad ↦ invalid room (rw (same, bad))
            | inr claims ↦
                let granted : claims.granted ≡ true = claims.covers (omega (arith, covers, room)) in
                admitted claims.after room (rw (same, claims.returns, granted)) claims.sound
                  (claims.post granted)
          ])
