-- ===== src/Scheduler/State.antt =====
-- Requests (vllm_rlt/request.py), the scheduler's configuration (vllm_rlt/config.py) and the fields
-- of `Scheduler` (vllm_rlt/core/scheduler.py). Device tensors are left out.
use vllm_rlt.Common.{
  ℕ, ◌+◌, ◌-◌, Bool, true, false, List, Option, none, some, String, Dict, ◌==◌, leb, length,
  if◌then◌else◌,
}
use vllm_rlt.KvCache.State.{Cache}

pub data Stage : Type 0 where
  waiting receiving prefill prelude recurrent speculative coda finished : Stage

abbrev stage_index : Stage → ℕ
stage_index waiting = 0
stage_index receiving = 1
stage_index prefill = 2
stage_index prelude = 3
stage_index recurrent = 4
stage_index speculative = 5
stage_index coda = 6
stage_index finished = 7

abbrev pub same_stage : Stage → Stage → Bool
same_stage s t = stage_index s == stage_index t

pub data FinishReason : Type 0 where
  stop length_limit abort : FinishReason

-- A Python integer, as a priority may be negative: `negsuc n` is `-(n + 1)`.
pub data ℤ : Type 0 where
  pos negsuc : ℕ → ℤ

abbrev pub le_int : ℤ → ℤ → Bool
le_int (pos m) (pos n) = leb m n
le_int (pos m) (negsuc n) = false
le_int (negsuc m) (pos n) = true
le_int (negsuc m) (negsuc n) = leb n m

-- `max_loops` is none where the model's depth bounds the loops; `exits_early` is
-- `exit_threshold < 1`.
pub record SamplingParams : Type 0 where
  pub max_tokens : ℕ
  pub min_loops : ℕ
  pub max_loops : Option ℕ
  pub ignore_eos : Bool
  pub exits_early : Bool
  pub priority : ℤ

-- `ident` is the identity of the object, which `is` compares. The remaining probability, a float, is left out.
pub record Request : Type 0 where
  pub request_id : String
  pub prompt_token_ids : List ℕ
  pub sampling_params : SamplingParams
  pub stage : Stage
  pub generated_token_ids : List ℕ
  pub exit_depths : List ℕ
  pub num_output_placeholders : ℕ
  pub num_speculative_rounds : ℕ
  pub num_prefilled_tokens : ℕ
  pub loops_done : ℕ
  pub pending_exit_depth : Option ℕ
  pub admission_bypasses : ℕ
  pub finish_reason : Option FinishReason
  pub exit_trace : List ℕ
  pub ident : ℕ

-- `params.max_loops or total`.
unfoldable pub loop_limit : Option ℕ → ℕ → ℕ
loop_limit none total = total
loop_limit (some loops) total = if loops == 0 then total else loops

unfoldable pub num_scheduled_outputs : Request → ℕ
num_scheduled_outputs r = length r.generated_token_ids + r.num_output_placeholders

-- A prompt is never empty, so that the subtraction does not go below 0.
unfoldable pub position : Request → ℕ
unfolding num_scheduled_outputs
position r = length r.prompt_token_ids + num_scheduled_outputs r - 1

-- `mode` and `policy` of `SchedulerConfig`.
pub data Mode : Type 0 where
  refill no_refill : Mode

pub data Order : Type 0 where
  fcfs by_priority : Order

abbrev pub is_priority : Order → Bool
is_priority fcfs = false
is_priority by_priority = true

pub record SchedulerConfig : Type 0 where
  pub max_num_seqs : ℕ
  pub max_num_batched_tokens : ℕ
  pub prefill_chunk_size : ℕ
  pub mode : Mode
  pub policy : Order
  pub min_coda_batch_size : ℕ
  pub max_prefill_batches_before_decode : ℕ
  pub admission_scan_limit : ℕ
  pub max_admission_bypasses : ℕ

-- `drain` is the source's `CODA`.
pub data NoRefillPhase : Type 0 where
  fill core drain : NoRefillPhase

-- `num_speculative_tokens` stands for `speculative_config`; the last two fields are the policy's.
pub record Scheduler : Type 0 where
  pub config : SchedulerConfig
  pub num_speculative_tokens : Option ℕ
  pub requests : Dict Request
  pub queues : Stage → List String
  pub prefill_batches_since_recurrent : ℕ
  pub phase : NoRefillPhase

-- The scheduler and the cache manager that it shares with the engine.
pub record World : Type 0 where
  pub scheduler : Scheduler
  pub cache : Cache

-- `self.queues[stage] = queue`.
unfoldable pub set_queue : Stage → List String → Scheduler → Scheduler
set_queue stage queue s = record s {
  queues = λ t. if same_stage t stage then queue else s.queues t;
}

-- What a caller sees of a request.
pub record RequestOutput : Type 0 where
  pub request_id : String
  pub prompt_token_ids : List ℕ
  pub token_ids : List ℕ
  pub exit_depths : List ℕ
  pub finished : Bool
  pub finish_reason : Option FinishReason

-- `RequestOutput.from_request`, without the text.
unfoldable pub from_request : Request → RequestOutput
from_request r = record {
  request_id = r.request_id;
  prompt_token_ids = r.prompt_token_ids;
  token_ids = r.generated_token_ids;
  exit_depths = r.exit_depths;
  finished = same_stage r.stage finished;
  finish_reason = r.finish_reason;
}
