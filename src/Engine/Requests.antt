-- ===== src/Engine/Requests.antt =====
-- `add_request`, `has_unfinished_requests` and `abort_request` of `LLMEngine` in
-- vllm_rlt/engine/llm_engine.py, without the async speculative branches and the saved state of a
-- preempted request. Types that Python checks at run time are the types of the arguments.
use vllm_rlt.Common.{
  ℕ, ◌+◌, ◌-◌, ◌==◌, Bool, true, false, not, ◌&&◌, ◌||◌, List, [], ◌∷◌, Option, none, some, String,
  lookup, remove, Result, ok, err, value_error, ◌>>=◌, ◌>>◌, raise_if, str_eq, ltb, leb, length,
  any, drop, take, if◌then◌else◌,
}
use vllm_rlt.KvCache.State.{is_some, is_empty, required_blocks}
use vllm_rlt.Scheduler.State.{
  Stage, SamplingParams, Request, RequestOutput, from_request, loop_limit,
}
use vllm_rlt.Scheduler.Queues
use vllm_rlt.Engine.State.{is_trace, EngineConfig, Engine}

-- `max_loops != target_loops or exit_threshold != 1.0`, in a speculative engine.
abbrev pub breaks_target : Option ℕ → ℕ → SamplingParams → Bool
breaks_target none maximum params = false
breaks_target (some target) maximum params = not (maximum == target) || params.exits_early

-- `trace[0] != total`; the trace is not empty where this is read.
abbrev pub starts_elsewhere : ℕ → List ℕ → Bool
starts_elsewhere total [] = true
starts_elsewhere total (depth ∷ depths) = not (depth == total)

-- `min_loops <= d <= max_loops` for the tokens after the first.
abbrev pub outside : SamplingParams → ℕ → ℕ → Bool
outside params maximum depth = not (leb params.min_loops depth && leb depth maximum)

unfoldable pub check_depths : List ℕ → SamplingParams → ℕ → ℕ → Result (List ℕ)
check_depths trace params maximum total = do
  raise_if
      (ltb (length trace) params.max_tokens
        || (starts_elsewhere total trace
            || any (outside params maximum) (drop 1 (take params.max_tokens trace))))
      value_error
  ok trace

-- `trace_id is not None and not trace_id`.
abbrev pub is_blank : Option String → Bool
is_blank none = false
is_blank (some trace_id) = str_eq trace_id ""

-- The request's exit trace: empty outside of the trace mode.
unfoldable pub find_trace :
    String → Option String → SamplingParams → ℕ → EngineConfig → Result (List ℕ)
unfolding check_depths
find_trace rid trace_id params maximum config =
    if is_trace config.exit_mode
    then (let key : String = elim trace_id [ none ↦ rid | some given ↦ given ] in
        elim (lookup key config.exit_traces) [
          | none ↦ err value_error
          | some trace ↦ check_depths trace params maximum config.total_ut_steps
        ])
    else ok []

abbrev pub waiting_request : String → List ℕ → SamplingParams → List ℕ → ℕ → Request
waiting_request rid prompt params trace ident = record {
  request_id = rid;
  prompt_token_ids = prompt;
  sampling_params = params;
  stage = Stage.waiting;
  generated_token_ids = [];
  exit_depths = [];
  num_output_placeholders = 0;
  num_speculative_rounds = 0;
  num_prefilled_tokens = 0;
  loops_done = 0;
  pending_exit_depth = none;
  admission_bypasses = 0;
  finish_reason = none;
  exit_trace = trace;
  ident = ident;
}

unfoldable pub add_request :
    String → List ℕ → SamplingParams → Option String → Engine → Result Engine
unfolding loop_limit find_trace required_blocks Queues.add_request
add_request rid prompt params trace_id e = do
  let config = e.config
  let maximum = loop_limit params.max_loops config.total_ut_steps
  let capacity = length prompt + params.max_tokens - 1
  raise_if (str_eq rid "") value_error
  raise_if (is_empty prompt) value_error
  raise_if (any (λ t. not (ltb t config.vocab_size)) prompt) value_error
  raise_if (ltb config.total_ut_steps maximum || ltb maximum params.min_loops) value_error
  raise_if (breaks_target config.target_loops maximum params) value_error
  raise_if (is_blank trace_id) value_error
  raise_if (is_some trace_id && not (is_trace config.exit_mode)) value_error
  trace ← find_trace rid trace_id params maximum config
  raise_if (ltb config.max_position_embeddings capacity) value_error
  required ← required_blocks e.world.cache.geometry capacity
  raise_if (ltb e.world.cache.num_blocks required) value_error
  scheduler ←
      Queues.add_request (waiting_request rid prompt params trace e.next_ident) e.world.scheduler
  ok (record e {
    world = record (e.world) { scheduler = scheduler };
    next_ident = e.next_ident + 1;
  })

-- The speculative rounds in flight are left out.
unfoldable pub has_unfinished_requests : Engine → Bool
has_unfinished_requests e = not (is_empty e.world.scheduler.requests)

unfoldable pub abort_request : String → Engine → Result (RequestOutput × Engine)
unfolding Queues.abort from_request
abort_request rid e = do
  (r, world) ← Queues.abort rid e.world
  ok (
    from_request r,
    record e { world = world; pending_exit_signals = remove rid e.pending_exit_signals },
  )
