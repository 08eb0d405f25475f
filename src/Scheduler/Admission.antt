-- ===== src/Scheduler/Admission.antt =====
-- Admission in vllm_rlt/core/scheduler.py: `_ensure_active_slot`, `_try_resume`,
-- `_reserved_growth_blocks`, `_plan_admission`, `_commit_admission` and `_admit`.
pub mod Budget
use vllm_rlt.Common.{
  ℕ, zero, suc, ◌+◌, ◌-◌, ◌*◌, ◌==◌, Bool, true, false, not, ◌&&◌, ◌||◌, List, [], ◌∷◌, ◌++◌,
  Option, none, some, String, Dict, lookup, Result, ok, err, key_error, index_error, ◌>>=◌, ltb,
  leb, length, any, min, if◌then◌else◌, concat,
}
use vllm_rlt.KvCache.State.{
  Cache, storage_depths, required_blocks, allocated_blocks, num_free_blocks,
  exclusive_prefix_blocks, is_some,
}
use vllm_rlt.KvCache.Pages.{allocate}
use vllm_rlt.KvCache.Prefix.{lookup_prefix}
use vllm_rlt.Scheduler.State.{
  Stage, same_stage, Request, Order, is_priority, SchedulerConfig, Scheduler, World, set_queue,
}
use vllm_rlt.Scheduler.Queues.{modify, enqueue, order_waiting_requests}

-- The operations that the engine binds: `preempt requester priority_only excluded`, and `resume`
-- with `none` where the request has no snapshot.
pub record Callbacks : Type 0 where
  pub preempt : Option (String → Bool → List String → World → Result (Bool × World))
  pub resume : Option (String → World → Result (Option Bool × World))

pub data ResumeResult : Type 0 where
  not_preempted restored blocked : ResumeResult

pub record AdmissionPlan : Type 0 where
  pub capacity_tokens : ℕ
  pub initial_tokens : ℕ
  pub prefix_blocks : List (List ℕ)
  pub cached_tokens : ℕ
  pub required_blocks : ℕ
  pub reserved_growth_blocks : ℕ
  pub admission_headroom_blocks : ℕ
  pub cached_claim_blocks : ℕ

unfoldable pub total_budget_blocks : AdmissionPlan → ℕ
total_budget_blocks p =
    p.required_blocks + p.reserved_growth_blocks + p.admission_headroom_blocks
    + p.cached_claim_blocks

abbrev is_active : Request → Bool
is_active r = not (same_stage r.stage Stage.waiting || same_stage r.stage Stage.receiving)

unfoldable pub active_count : Dict Request → ℕ
active_count [] = 0
active_count ((k, r) ∷ requests) = (if is_active r then 1 else 0) + active_count requests

-- The number of active requests afterwards, or `none` where admission stops.
unfoldable pub ensure_active_slot : Callbacks → String → ℕ → World → Result (Option ℕ × World)
ensure_active_slot callbacks requester active w =
    if ltb active w.scheduler.config.max_num_seqs
    then ok (some active, w)
    else if not (is_priority w.scheduler.config.policy)
    then ok (none, w)
    else elim callbacks.preempt [
      | none ↦ ok (none, w)
      | some preempt ↦ do
        (done, w') ← preempt requester true [] w
        ok ((if done then some (active - 1) else none), w')
    ]

abbrev resume_result : Option Bool → ResumeResult
resume_result none = ResumeResult.not_preempted
resume_result (some true) = ResumeResult.restored
resume_result (some false) = ResumeResult.blocked

unfoldable pub try_resume : Callbacks → String → World → Result (ResumeResult × World)
try_resume callbacks rid w = elim callbacks.resume [
  | none ↦ ok (ResumeResult.not_preempted, w)
  | some resume ↦ do (answer, w') ← resume rid w; ok (resume_result answer, w')
]

-- The tokens whose blocks are kept for a request, or `none` where it is skipped.
abbrev reserved_tokens : Bool → Request → Option ℕ
reserved_tokens reserve_outputs r =
    if not (same_stage r.stage Stage.prefill) && not (reserve_outputs && is_active r)
    then none
    else some (
        length r.prompt_token_ids
        + (if reserve_outputs then r.sampling_params.max_tokens - 1 else 0))

unfoldable pub reserved_growth_blocks : Bool → Cache → Dict Request → Result ℕ
reserved_growth_blocks reserve_outputs c [] = ok 0
reserved_growth_blocks reserve_outputs c ((k, r) ∷ requests) =
    elim (reserved_tokens reserve_outputs r) [
      | none ↦ reserved_growth_blocks reserve_outputs c requests
      | some tokens ↦ do
        allocated ← allocated_blocks r.request_id c
        needed ← required_blocks c.geometry tokens
        rest ← reserved_growth_blocks reserve_outputs c requests
        ok ((needed - allocated) + rest)
    ]

-- `_plan_admission` after the prefix lookup.
unfoldable pub make_plan :
    Bool
    → Request
    → ℕ
    → List (List ℕ)
    → SchedulerConfig
    → Dict Request
    → Cache
    → Result AdmissionPlan
unfolding reserved_growth_blocks
make_plan can_preempt r active prefix config requests c = do
  let prompt = length r.prompt_token_ids
  let capacity = prompt + r.sampling_params.max_tokens - 1
  let cached = length prefix * c.block_size
  let reserve_outputs = c.incremental_allocation && not can_preempt
  required ←
      required_blocks c.geometry
        (if c.incremental_allocation && not reserve_outputs then prompt else capacity)
  reserved ← reserved_growth_blocks reserve_outputs c requests
  ok (record {
    capacity_tokens = capacity;
    initial_tokens =
        if not c.incremental_allocation
        then capacity
        else min prompt (cached + config.prefill_chunk_size);
    prefix_blocks = prefix;
    cached_tokens = cached;
    required_blocks = required - length prefix * storage_depths c.geometry;
    reserved_growth_blocks = reserved;
    admission_headroom_blocks = if active == 0 then 0 else c.watermark_blocks;
    cached_claim_blocks = exclusive_prefix_blocks prefix c;
  })

unfoldable pub enter_prefill : String → ℕ → Scheduler → Scheduler
enter_prefill rid cached s = enqueue rid Stage.prefill (record s {
  requests = modify rid (λ r. record r { num_prefilled_tokens = cached }) s.requests;
})

unfoldable pub commit_admission : String → AdmissionPlan → World → Result (Bool × World)
unfolding total_budget_blocks enter_prefill
commit_admission rid plan w =
    if ltb (num_free_blocks w.cache) (total_budget_blocks plan) then ok (false, w) else (do
      (granted, c) ←
          allocate rid plan.capacity_tokens (some plan.initial_tokens) plan.prefix_blocks w.cache
      ok (
        granted,
        record {
          scheduler =
              if granted then enter_prefill rid plan.cached_tokens w.scheduler else w.scheduler;
          cache = c;
        },
      ))

unfoldable pub bypass : List String → Dict Request → Dict Request
bypass [] requests = requests
bypass (rid ∷ deferred) requests =
    bypass deferred
      (modify rid (λ r. record r { admission_bypasses = r.admission_bypasses + 1 }) requests)

unfoldable pub get_request : String → Scheduler → Result Request
get_request rid s = elim (lookup rid s.requests) [ none ↦ err key_error | some r ↦ ok r ]

-- Whether a request has been passed over as often as is allowed.
abbrev exhausted : Scheduler → String → Bool
exhausted s rid = elim (lookup rid s.requests) [
  | none ↦ false
  | some r ↦ leb s.config.max_admission_bypasses r.admission_bypasses
]

-- A round of the loop of `_admit`; `going` is false after a `break`.
pub record Round : Type 0 where
  pub going : Bool
  pub active : ℕ
  pub deferred : List String
  pub world : World

-- `waiting.popleft()`.
unfoldable pub pop_waiting : World → Result (String × World)
unfolding set_queue
pop_waiting w = elim (w.scheduler.queues Stage.waiting) [
  | [] ↦ err index_error
  | rid ∷ queue ↦ ok (rid, record w { scheduler = set_queue Stage.waiting queue w.scheduler })
]

-- What follows a commit: the request waits on, or those deferred before it were passed over.
unfoldable pub settle : String → ℕ → List String → Bool → World → Round
unfolding bypass
settle rid active deferred false w = record {
  going = not (exhausted w.scheduler rid);
  active = active;
  deferred = deferred ++ rid ∷ [];
  world = w;
}
settle rid active deferred true w =
    let s = record w.scheduler { requests = bypass deferred w.scheduler.requests } in
    record {
      going = not (any (exhausted s) deferred);
      active = active + 1;
      deferred = deferred;
      world = record w { scheduler = s };
    }

-- `sha256` and `ready` are those of the prefix index.
module _ (sha256 : String → List ℕ → String) (ready : ℕ → Bool) where
  unfoldable pub plan_admission : Callbacks → String → ℕ → World → Result (AdmissionPlan × World)
  unfolding get_request make_plan
  plan_admission callbacks rid active w = do
    r ← get_request rid w.scheduler
    (prefix, c) ← lookup_prefix sha256 ready r.prompt_token_ids w.cache
    plan ←
        make_plan (is_some callbacks.preempt) r active prefix w.scheduler.config
          w.scheduler.requests c
    ok (plan, record w { cache = c })

  -- The body of the loop for a request that was taken off the queue.
  unfoldable pub consider : Callbacks → String → ℕ → List String → World → Result Round
  unfolding try_resume plan_admission commit_admission settle
  consider callbacks rid active deferred w = do
    (answer, w₁) ← try_resume callbacks rid w
    elim answer [
      | restored ↦
          ok (record { going = true; active = active + 1; deferred = deferred; world = w₁ })
      | blocked ↦
          ok (record { going = true; active = active; deferred = deferred ++ rid ∷ []; world = w₁ })
      | not_preempted ↦ do
        (plan, w₂) ← plan_admission callbacks rid active w₁
        (admitted, w₃) ← commit_admission rid plan w₂
        ok (settle rid active deferred admitted w₃)
    ]

  -- The loop of `_admit`, with the rounds that are left. The result's `going` is not read.
  unfoldable pub admit_rounds : ℕ → Callbacks → Round → Result Round
  unfolding ensure_active_slot get_request pop_waiting consider
  admit_rounds zero callbacks now = ok now
  admit_rounds (suc rounds) callbacks now = elim (now.world.scheduler.queues Stage.waiting) [
    | [] ↦ ok now
    | first ∷ queue ↦ do
      requester ← get_request first now.world.scheduler
      (slot, w) ← ensure_active_slot callbacks requester.request_id now.active now.world
      elim slot [
        | none ↦ ok (record now { world = w })
        | some active ↦ do
          (rid, w') ← pop_waiting w
          next ← consider callbacks rid active now.deferred w'
          elim next.going [ true ↦ admit_rounds rounds callbacks next | false ↦ ok next ]
      ]
  ]

  unfoldable pub admit : Callbacks → World → Result World
  unfolding active_count order_waiting_requests admit_rounds set_queue
  admit callbacks w = do
    s ← order_waiting_requests w.scheduler
    let start : Round = record {
      going = true;
      active = active_count w.scheduler.requests;
      deferred = [];
      world = record w { scheduler = s };
    }
    let rounds = min (length (s.queues Stage.waiting)) s.config.admission_scan_limit
    last ← admit_rounds rounds callbacks start
    let queue = last.deferred ++ last.world.scheduler.queues Stage.waiting
    ok (record last.world { scheduler = set_queue Stage.waiting queue last.world.scheduler })
