-- ===== src/Scheduler/Tests.antt =====
-- Instances of the theorems about vllm_rlt/core/scheduler.py and its policies.
use vllm_rlt.Common.{
  ℕ, ◌≡◌, refl, Result, err, Option, some, replicate, true, false, not, ◌&&◌, List, [], ◌∷◌, none,
  String, lookup, map, ok, Ensures, str_eq, if◌then◌else◌, arith,
}
use vllm_rlt.KvCache.Pool.{exclusive}
use vllm_rlt.KvCache.State.{
  Layout, Geometry, Allocation, required_blocks, exclusive_prefix_blocks, pages_for,
}
use vllm_rlt.KvCache.Pages.{ensure_capacity, has_text}
use vllm_rlt.KvCache.Sound.{IsSound}
use vllm_rlt.KvCache.Sound.Created.{initial, initial-IsSound}
use vllm_rlt.KvCache.Sound.Allocate.{IsHit}
use vllm_rlt.KvCache.Sound.Release.{Freed}
use vllm_rlt.Scheduler.State.{
  Stage, same_stage, FinishReason, ℤ, pos, negsuc, Request, Mode, Order, SchedulerConfig,
  NoRefillPhase, Scheduler, World,
}
use vllm_rlt.Scheduler.Queues.{finish_request, finish, with_priority, order_waiting_requests}
use vllm_rlt.Scheduler.Queues.Finished.{finish_lem, unique}
use vllm_rlt.Scheduler.Queues.Sorted.{Ascending, of_priority, order_waiting_requests-Ascending}
use vllm_rlt.Scheduler.Admission.{Callbacks, AdmissionPlan, make_plan, commit_admission}
use vllm_rlt.Scheduler.Admission.Budget.{Committed, commit_admission-Committed}
use vllm_rlt.Scheduler.Batches.{SchedulerOutput, take_batch}
use vllm_rlt.Scheduler.Batches.Bounds.{Bounded, take_batch-Bounded}
use vllm_rlt.Scheduler.Policies.{schedule, decode_due, queued}
use vllm_rlt.Scheduler.Policies.Fairness.{Decodes, schedule-Decodes}

abbrev geometry : Geometry
geometry = record {
  num_layers = 2;
  num_kv_heads = 1;
  head_dim = 4;
  num_blocks = 8;
  block_size = 2;
  max_loops = 2;
  layout = Layout.last_exited;
  enable_prefix_caching = false;
  incremental_allocation = true;
  watermark_blocks = 0;
  recurrent_layers = 0 ∷ 1 ∷ [];
}

abbrev config : SchedulerConfig
config = record {
  max_num_seqs = 2;
  max_num_batched_tokens = 4;
  prefill_chunk_size = 2;
  mode = Mode.no_refill;
  policy = Order.by_priority;
  min_coda_batch_size = 1;
  max_prefill_batches_before_decode = 1;
  admission_scan_limit = 4;
  max_admission_bypasses = 2;
}

abbrev request : String → ℤ → Stage → Request
request rid priority stage = record {
  request_id = rid;
  prompt_token_ids = 5 ∷ 6 ∷ 7 ∷ [];
  sampling_params = record {
    max_tokens = 2;
    min_loops = 1;
    max_loops = none;
    ignore_eos = false;
    exits_early = false;
    priority = priority;
  };
  stage = stage;
  generated_token_ids = [];
  exit_depths = [];
  num_output_placeholders = 0;
  num_speculative_rounds = 0;
  num_prefilled_tokens = 0;
  loops_done = 0;
  pending_exit_depth = none;
  admission_bypasses = 0;
  finish_reason = none;
  exit_trace = [];
  ident = 0;
}

abbrev queues : Stage → List String
queues Stage.waiting = "a" ∷ "b" ∷ []
queues Stage.recurrent = "c" ∷ []
queues stage = []

abbrev world : World
world = record {
  scheduler = record {
    config = config;
    num_speculative_tokens = none;
    requests =
        ("a", request "a" (pos 1) Stage.waiting)
        ∷ ("b", request "b" (negsuc 0) Stage.waiting)
        ∷ ("c", request "c" (pos 0) Stage.recurrent)
        ∷ [];
    queues = queues;
    prefill_batches_since_recurrent = 1;
    phase = NoRefillPhase.fill;
  };
  cache = initial geometry;
}

abbrev callbacks : Callbacks
callbacks = record { preempt = none; resume = none }

abbrev digest : String → List ℕ → String
digest d tokens = d

schedule-Decodes_example :
    Decodes callbacks world (schedule digest (λ e. true) callbacks false world)
unfolding decode_due queued
schedule-Decodes_example = schedule-Decodes digest (λ e. true) callbacks false world refl refl refl

-- Two requests in prefill, each with a page in both planes.
abbrev two_pages : ℕ → ℕ → Allocation
two_pages a b = record {
  ident = a;
  max_tokens = 4;
  block_tables = (a ∷ []) ∷ (b ∷ []) ∷ [];
  written = replicate 2 (replicate 2 (record { prefix = 0; pending = [] }));
  transfer_leases = [];
  release_requested = false;
}

abbrev prefills : Stage → List String
prefills Stage.prefill = "p" ∷ "q" ∷ []
prefills stage = []

abbrev prefilling : World
prefilling = record {
  scheduler = record (world.scheduler) {
    requests =
        ("p", request "p" (pos 0) Stage.prefill) ∷ ("q", request "q" (pos 0) Stage.prefill) ∷ [];
    queues = prefills;
  };
  cache = record (initial geometry) {
    pool = record { refs = 1 ∷ 1 ∷ 1 ∷ 1 ∷ 0 ∷ 0 ∷ 0 ∷ 0 ∷ []; free_blocks = 4 ∷ 5 ∷ 6 ∷ 7 ∷ [] };
    allocations = ("p", two_pages 0 1) ∷ ("q", two_pages 2 3) ∷ [];
  };
}

take_batch-Bounded_example :
    Ensures (λ r. Bounded config Stage.prefill r.0) (take_batch callbacks Stage.prefill prefilling)
take_batch-Bounded_example = take_batch-Bounded callbacks Stage.prefill prefilling tt

abbrev token_counts : Result (Option SchedulerOutput × World) → List ℕ
token_counts (err raised) = []
token_counts (ok (none, w)) = []
token_counts (ok (some out, w)) = map (λ i. i.token_count) out.items

-- The batch has both requests, and the whole budget of tokens.
take_batch_test : token_counts (take_batch callbacks Stage.prefill prefilling) ≡ 2 ∷ 2 ∷ []
unfolding take_batch lookup ensure_capacity pages_for
take_batch_test = refl

abbrev keyed : List (ℤ × String)
keyed = (pos 1, "a") ∷ (negsuc 0, "b") ∷ []

order_waiting_requests-Ascending_example :
    (s' : Scheduler) × (ranked : List (ℤ × String)) × (order_waiting_requests world.scheduler
      ≡ ok s')
    × (s'.queues Stage.waiting ≡ map (λ e. e.1) ranked)
    × Ascending ranked
    × ((k : ℤ) → of_priority k ranked ≡ of_priority k keyed)
    × ((t : Stage) → same_stage t Stage.waiting ≡ false → s'.queues t ≡ queues t)
unfolding with_priority lookup
order_waiting_requests-Ascending_example =
    order_waiting_requests-Ascending world.scheduler keyed refl refl

finish_lem_example :
    (w' : World) × (finish (request "c" (pos 0) Stage.recurrent) FinishReason.stop world
      ≡ ok (finish_request FinishReason.stop (request "c" (pos 0) Stage.recurrent), w'))
    × IsSound w'.cache
    × Freed "c" world.cache w'.cache
    × ((j : String)
        → lookup j w'.scheduler.requests
          ≡ (if str_eq "c" j then none else lookup j world.scheduler.requests))
    × ((stage : Stage) (j : String)
        → has_text j (w'.scheduler.queues stage)
          ≡ (not (str_eq "c" j) && has_text j (queues stage)))
unfolding unique lookup
finish_lem_example =
    finish_lem (request "c" (pos 0) Stage.recurrent) FinishReason.stop world
      (request "c" (pos 0) Stage.recurrent) (initial-IsSound geometry) refl refl

abbrev plan : AdmissionPlan
plan = record {
  capacity_tokens = 4;
  initial_tokens = 2;
  prefix_blocks = [];
  cached_tokens = 0;
  required_blocks = 4;
  reserved_growth_blocks = 0;
  admission_headroom_blocks = 0;
  cached_claim_blocks = 0;
}

no-IsHit : IsHit (initial geometry) []
no-IsHit = record { grouped = tt; in_use = tt }

commit_admission-Committed_example :
    Committed (request "a" (pos 1) Stage.waiting) plan world (commit_admission "a" plan world)
unfolding make_plan required_blocks exclusive_prefix_blocks exclusive
commit_admission-Committed_example =
    commit_admission-Committed true (request "a" (pos 1) Stage.waiting) 1 [] world plan
      (initial-IsSound geometry) no-IsHit (omega arith) refl
