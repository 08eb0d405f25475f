-- ===== src/Coordinator/Requests.antt =====
-- `add_request`, `abort_request` and `has_unfinished_requests` of `PDEngine` in vllm_rlt/pd/engine.py.
-- Types that Python checks at run time are the types of the arguments; uuid4 is the argument `tid`.
use vllm_rlt.Common.{
  ℕ, ◌+◌, ◌-◌, Bool, true, false, not, ◌&&◌, ◌||◌, List, [], ◌∷◌, Option, none, some, String, Dict,
  lookup, insert, remove, Result, ok, err, runtime_error, value_error, key_error, ◌>>=◌, ◌>>◌,
  raise_if, str_eq, ltb, leb, ◌==◌, length, any, drop, take, if◌then◌else◌,
}
use vllm_rlt.KvCache.State.{is_some, is_empty}
use vllm_rlt.Scheduler.State.{
  Stage, FinishReason, SamplingParams, Request, RequestOutput, from_request, loop_limit,
}
use vllm_rlt.Engine.Requests.{is_blank}
use vllm_rlt.Coordinator.State.{
  Role, same_role, PdModelInfo, Peer, Phase, is_waiting, Pending, Command, Coordinator, blocks_for,
  send,
}
use vllm_rlt.Coordinator.Messages.{store}

-- The tokens that a role's worker holds for a request.
abbrev pub role_tokens : Role → List ℕ → SamplingParams → ℕ
role_tokens Role.prefill prompt params = length prompt
role_tokens Role.decode prompt params = length prompt + (params.max_tokens - 1)

-- The checks of the prompt and the parameters.
unfoldable pub check_prompt : List ℕ → SamplingParams → PdModelInfo → Result (Unit {0})
unfolding loop_limit
check_prompt prompt params cfg = do
  let maximum = loop_limit params.max_loops cfg.total_ut_steps
  raise_if (is_empty prompt || any (λ t. not (ltb t cfg.vocab_size)) prompt) value_error
  raise_if (ltb cfg.total_ut_steps maximum || ltb maximum params.min_loops) value_error
  raise_if (ltb cfg.max_position_embeddings (length prompt + params.max_tokens - 1)) value_error

-- `trace[0] != total`, read once the trace is known to be long enough.
abbrev pub first_differs : ℕ → List ℕ → Bool
first_differs total [] = true
first_differs total (depth ∷ depths) = not (depth == total)

-- The checks of the exit trace; `traces` is none outside of the trace mode. The trace's key is kept.
unfoldable pub check_trace :
    String
    → Option String
    → SamplingParams
    → PdModelInfo
    → Option (Dict (List ℕ))
    → Result (Option String)
unfolding loop_limit
check_trace rid none params cfg none = ok none
check_trace rid (some trace_id) params cfg none = err value_error
check_trace rid trace_id params cfg (some traces) = do
  raise_if (is_blank trace_id) value_error
  let key : String = elim trace_id [ none ↦ rid | some given ↦ given ]
  let trace : List ℕ = elim (lookup key traces) [ none ↦ [] | some depths ↦ depths ]
  let maximum = loop_limit params.max_loops cfg.total_ut_steps
  raise_if
      (ltb (length trace) params.max_tokens
        || (first_differs cfg.total_ut_steps trace
            || any (λ depth. not (leb params.min_loops depth && leb depth maximum))
                (drop 1 (take params.max_tokens trace))))
      value_error
  ok (some key)

-- `any(self._blocks(p, tokens) <= p.info["num_blocks"] for p in peers if p.role == role)`.
unfoldable pub fits_role : Role → ℕ → Dict Peer → Bool
unfolding blocks_for
fits_role role tokens peers =
    any (λ e. same_role e.1.role role && leb (blocks_for e.1 tokens) e.1.info.num_blocks) peers

abbrev pub new_request : String → List ℕ → SamplingParams → Request
new_request rid prompt params = record {
  request_id = rid;
  prompt_token_ids = prompt;
  sampling_params = params;
  stage = Stage.waiting;
  generated_token_ids = [];
  exit_depths = [];
  num_output_placeholders = 0;
  num_speculative_rounds = 0;
  num_prefilled_tokens = 0;
  loops_done = 0;
  pending_exit_depth = none;
  admission_bypasses = 0;
  finish_reason = none;
  exit_trace = [];
  ident = 0;
}

abbrev pub new_pending : Request → String → Option String → ℕ → Pending
new_pending request tid trace_id clock = record {
  request = request;
  tid = tid;
  trace_id = trace_id;
  created = clock;
  p = none;
  d = none;
  phase = Phase.waiting;
  p_blocks = 0;
  d_blocks = 0;
  cancelled = false;
  p_released = false;
  p_compute_released = false;
  d_released = false;
  finished = false;
  timings = [];
}

unfoldable pub add_request :
    String → List ℕ → SamplingParams → Option String → String → ℕ → Coordinator → Result Coordinator
unfolding check_prompt check_trace fits_role store
add_request rid prompt params trace_id tid clock c = do
  raise_if (c.closed || c.failure) runtime_error
  raise_if (str_eq rid "" || is_some (lookup rid c.requests)) value_error
  raise_if (leb c.max_pending_requests (length c.transfers)) value_error
  check_prompt prompt params c.model_info
  key ← check_trace rid trace_id params c.model_info c.traces
  raise_if (not (fits_role Role.prefill (role_tokens Role.prefill prompt params) c.peers))
      value_error
  raise_if (not (fits_role Role.decode (role_tokens Role.decode prompt params) c.peers)) value_error
  ok (
      store (new_pending (new_request rid prompt params) tid key clock)
        (record c { requests = insert rid tid c.requests }))

-- `deque(o for o in self.outputs if o.request_id != request_id)`.
unfoldable pub drop_outputs : String → List RequestOutput → List RequestOutput
drop_outputs rid [] = []
drop_outputs rid (o ∷ outputs) =
    let rest = drop_outputs rid outputs in if str_eq o.request_id rid then rest else o ∷ rest

-- The messages of a cancellation, to the sides that have not been released.
unfoldable pub send_cancel : Pending → Coordinator → Result Coordinator
unfolding send
send_cancel w c = do
  c' ← send w.d (Command.cancel w.tid) c
  (if w.p_released
      then send w.d (Command.cancel_safe w.tid) c'
      else send w.p (Command.cancel w.tid) c')

abbrev pub aborted : Request → Request
aborted r = record r { stage = Stage.finished; finish_reason = some FinishReason.abort }

-- A transfer that waits is dropped; the workers of another are told.
unfoldable pub withdraw : Pending → Coordinator → Result Coordinator
unfolding send_cancel store
withdraw w c =
    if c.closed || is_waiting w.phase
    then ok (record c { transfers = remove w.tid c.transfers })
    else send_cancel w (store (record w { cancelled = true; request = aborted w.request }) c)

-- The identity of the request is the id of its transfer; `next` raises where there is none.
unfoldable pub abort_request : String → Coordinator → Result (RequestOutput × Coordinator)
unfolding drop_outputs withdraw from_request
abort_request rid c = elim (lookup rid c.requests) [
  | none ↦ err key_error
  | some tid ↦ elim (lookup tid c.transfers) [
    | none ↦ err runtime_error
    | some w ↦ do
      c' ←
          withdraw w
            (record c { requests = remove rid c.requests; outputs = drop_outputs rid c.outputs })
      ok (from_request (aborted w.request), c')
  ]
]

abbrev pub has_unfinished_requests : Coordinator → Bool
has_unfinished_requests c = not (is_empty c.transfers)
