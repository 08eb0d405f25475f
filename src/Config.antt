-- ===== src/Config.antt =====
-- Validation of settings: vllm_rlt/config.py (`SchedulerConfig`, `ExecutionConfig`,
-- `SpeculativeConfig`), vllm_rlt/pd/config.py and the integer fields of vllm_rlt/sampling_params.py.
-- Other floating-point settings and checks of a value's Python type are left out.
use vllm_rlt.Common.{
  ℕ, Bool, false, not, ◌&&◌, ◌||◌, List, [], ◌∷◌, ◌++◌, Option, none, some, String, Result, ok,
  value_error, ◌>>◌, raise_if, ltb, leb, any, contains, str_eq,
}
use vllm_rlt.KvCache.State.{is_empty}
use vllm_rlt.Scheduler.State.{SchedulerConfig, ℤ, pos, le_int}

unfoldable pub positive : ℕ → Result (Unit {0})
positive value = raise_if (ltb value 1) value_error

unfoldable pub all_positive : List ℕ → Result (Unit {0})
unfolding positive
all_positive [] = ok tt
all_positive (value ∷ values) = do positive value; all_positive values

unfoldable pub validate_scheduler : SchedulerConfig → Result (Unit {0})
unfolding all_positive
validate_scheduler c = all_positive (
    c.max_num_seqs ∷ c.max_num_batched_tokens ∷ c.min_coda_batch_size ∷ c.admission_scan_limit
    ∷ c.max_admission_bypasses ∷ c.prefill_chunk_size ∷ c.max_prefill_batches_before_decode ∷ [])

pub record ExecutionConfig : Type 0 where
  pub static_buffers : Bool
  pub pad_to_power_of_two : Bool
  pub cuda_graph_max_batch_size : ℕ
  pub cuda_graph_max_graphs : ℕ
  pub cuda_graph_memory_reserve_bytes : ℕ

unfoldable pub validate_execution : ExecutionConfig → Result (Unit {0})
unfolding all_positive
validate_execution c = do
  all_positive (
      c.cuda_graph_max_batch_size ∷ c.cuda_graph_max_graphs ∷ c.cuda_graph_memory_reserve_bytes
      ∷ [])
  raise_if (c.pad_to_power_of_two && not c.static_buffers) value_error

pub record SpeculativeConfig : Type 0 where
  pub num_speculative_tokens : ℕ
  pub draft_loops : ℕ
  pub target_loops : ℕ

unfoldable pub validate_speculative : SpeculativeConfig → Result (Unit {0})
unfolding all_positive
validate_speculative c = do
  all_positive (c.num_speculative_tokens ∷ c.draft_loops ∷ c.target_loops ∷ [])
  raise_if (leb c.target_loops c.draft_loops) value_error

-- `max_loops` is `None` or a bound on the loops.
pub record LoopParams : Type 0 where
  pub max_tokens : ℕ
  pub min_loops : ℕ
  pub max_loops : Option ℕ

abbrev pub given : Option ℕ → List ℕ
given none = []
given (some n) = n ∷ []

unfoldable pub validate_loops : LoopParams → Result (Unit {0})
unfolding all_positive
validate_loops p = do
  all_positive (p.max_tokens ∷ p.min_loops ∷ given p.max_loops)
  raise_if (any (λ n. ltb n p.min_loops) (given p.max_loops)) value_error

-- A timeout: a finite floating-point number is an integer number of some smallest unit.
pub data Seconds : Type 0 where
  not_finite : Seconds
  finite : ℤ → Seconds

-- `math.isfinite(value) and value > 0`.
abbrev pub is_proper : Seconds → Bool
is_proper not_finite = false
is_proper (finite amount) = not (le_int amount (pos 0))

pub record PdConfig : Type 0 where
  pub prefill_devices : List ℕ
  pub decode_devices : List ℕ
  pub max_pending_requests : ℕ
  pub transfer_chunk_bytes : ℕ
  pub max_inflight_bytes : ℕ
  pub max_transfer_descriptors : ℕ
  pub max_control_messages : ℕ
  pub startup_timeout : Seconds
  pub request_timeout : Seconds
  pub shutdown_timeout : Seconds
  pub backend : String

abbrev pub repeats : List ℕ → Bool
repeats [] = false
repeats (d ∷ ds) = contains d ds || repeats ds

unfoldable pub validate_pd : PdConfig → Result (Unit {0})
unfolding all_positive
validate_pd c = do
  raise_if (is_empty c.prefill_devices || is_empty c.decode_devices) value_error
  raise_if (repeats (c.prefill_devices ++ c.decode_devices)) value_error
  all_positive (
      c.max_pending_requests ∷ c.transfer_chunk_bytes ∷ c.max_inflight_bytes
      ∷ c.max_transfer_descriptors ∷ c.max_control_messages ∷ [])
  raise_if (ltb c.max_inflight_bytes c.transfer_chunk_bytes) value_error
  raise_if (not (is_proper c.startup_timeout)) value_error
  raise_if (not (is_proper c.request_timeout)) value_error
  raise_if (not (is_proper c.shutdown_timeout)) value_error
  raise_if (str_eq c.backend "") value_error
