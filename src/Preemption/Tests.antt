-- ===== src/Preemption/Tests.antt =====
-- An instance of the theorem about victims.
use vllm_rlt.Common.{ℕ, true, false, [], ◌∷◌, none, String, Ensures}
use vllm_rlt.KvCache.State.{Layout, Geometry}
use vllm_rlt.KvCache.Sound.Created.{initial}
use vllm_rlt.Scheduler.State.{Stage, pos, Request, Mode, Order, NoRefillPhase, World}
use vllm_rlt.Preemption.{select_preemption_victim}
use vllm_rlt.Preemption.Victims.{Selected, select_preemption_victim-Selected}

abbrev geometry : Geometry
geometry = record {
  num_layers = 2;
  num_kv_heads = 1;
  head_dim = 4;
  num_blocks = 8;
  block_size = 2;
  max_loops = 2;
  layout = Layout.last_exited;
  enable_prefix_caching = false;
  incremental_allocation = true;
  watermark_blocks = 0;
  recurrent_layers = 0 ∷ 1 ∷ [];
}

abbrev request : String → ℕ → Stage → Request
request rid priority stage = record {
  request_id = rid;
  prompt_token_ids = 5 ∷ 6 ∷ 7 ∷ [];
  sampling_params = record {
    max_tokens = 2;
    min_loops = 1;
    max_loops = none;
    ignore_eos = false;
    exits_early = false;
    priority = pos priority;
  };
  stage = stage;
  generated_token_ids = [];
  exit_depths = [];
  num_output_placeholders = 0;
  num_speculative_rounds = 0;
  num_prefilled_tokens = 0;
  loops_done = 0;
  pending_exit_depth = none;
  admission_bypasses = 0;
  finish_reason = none;
  exit_trace = [];
  ident = 0;
}

abbrev world : World
world = record {
  scheduler = record {
    config = record {
      max_num_seqs = 2;
      max_num_batched_tokens = 4;
      prefill_chunk_size = 2;
      mode = Mode.refill;
      policy = Order.by_priority;
      min_coda_batch_size = 1;
      max_prefill_batches_before_decode = 1;
      admission_scan_limit = 4;
      max_admission_bypasses = 2;
    };
    num_speculative_tokens = none;
    requests = ("a", request "a" 1 Stage.waiting) ∷ ("b", request "b" 5 Stage.waiting) ∷ [];
    queues = λ stage. [];
    prefill_batches_since_recurrent = 0;
    phase = NoRefillPhase.fill;
  };
  cache = initial geometry;
}

select_preemption_victim-Selected_example :
    Ensures
      (Selected (request "a" 1 Stage.waiting) true [] world.cache world.scheduler.requests)
      (select_preemption_victim (request "a" 1 Stage.waiting) true [] world)
select_preemption_victim-Selected_example =
    select_preemption_victim-Selected (request "a" 1 Stage.waiting) true [] world
