-- ===== src/Coordinator/Tests.antt =====
-- A run of the model of vllm_rlt/pd/engine.py with one worker of each role, and instances of its
-- theorems.
use vllm_rlt.Common.{
  ℕ, ◌≡◌, refl, Bool, true, false, [], ◌∷◌, none, some, String, Result, ok, err, lookup, ◌>>=◌,
  insert, remove, List, Returns, All-lookup, total, runtime_error, arith,
}
use vllm_rlt.Scheduler.State.{SamplingParams, RequestOutput, pos, Order}
use vllm_rlt.Coordinator.State.{Role, Info, Peer, Event, Message, Coordinator}
use vllm_rlt.Coordinator.Messages.{message}
use vllm_rlt.Coordinator.Requests.{add_request, abort_request, has_unfinished_requests}
use vllm_rlt.Coordinator.Admission.{keys, admit_waiting}
use vllm_rlt.Coordinator.Steps.{Inbox, poll, step}
use vllm_rlt.Coordinator.Settled.{Settled, step-Settled}
use vllm_rlt.Coordinator.Credits.Admitted.{IsWithin, IsBooked, admit_waiting-IsBooked}
use vllm_rlt.Coordinator.Reachable.{
  Step, Reach, here, next, Reach-IsBooked, Reach-has_unfinished_requests,
}

abbrev pool : Info
pool = record {
  agent = "agent";
  block_size = 4;
  depths = 2;
  num_blocks = 8;
  watermark_blocks = 1;
  max_seqs = 2;
  active_limit = 1;
}

abbrev worker : Role → Peer
worker role = record {
  role = role;
  info = pool;
  blocks = 0;
  slots = 0;
  compute_slots = 0;
  ready = true;
  connected = true;
  stopped = false;
}

abbrev start : Coordinator
start = record {
  model_info = record { vocab_size = 10; total_ut_steps = 4; max_position_embeddings = 64 };
  max_pending_requests = 4;
  max_control_messages = 8;
  request_timeout = 100;
  scheduling_policy = Order.fcfs;
  traces = none;
  peers = ("P", worker Role.prefill) ∷ ("D", worker Role.decode) ∷ [];
  requests = [];
  transfers = [];
  outputs = [];
  metrics = [];
  profile_session = none;
  profile_replies = [];
  num_used_blocks = 0;
  closed = false;
  failure = false;
  sent = [];
}

abbrev three_tokens : SamplingParams
three_tokens = record {
  max_tokens = 3;
  min_loops = 1;
  max_loops = none;
  ignore_eos = false;
  exits_early = false;
  priority = pos 0;
}

abbrev from_worker : String → String → Event → Coordinator → Result Coordinator
from_worker name tid e c = elim (lookup name c.peers) [
  | none ↦ err runtime_error
  | some peer ↦ message 7 name peer (Message.transfer tid e) c
]

-- A request from its arrival to the release of both sides.
abbrev whole_life : Coordinator → Result Coordinator
whole_life c = do
  added ← add_request "a" (1 ∷ 2 ∷ 3 ∷ []) three_tokens none "t" 5 c
  admitted ← admit_waiting 6 added
  reserved ← from_worker "D" "t" (Event.reserved ((0 ∷ []) ∷ []) 0 0) admitted
  computed ← from_worker "P" "t" Event.prefill_complete reserved
  active ← from_worker "D" "t" Event.activated computed
  left ← from_worker "P" "t" Event.released active
  from_worker "D" "t" Event.released left

abbrev outcome : Result Coordinator → Result (ℕ × ℕ × Bool)
outcome m = do
  c ← m
  ok (total (λ p. p.blocks) c.peers, total (λ p. p.slots) c.peers, has_unfinished_requests c)

whole_life_lem : outcome (whole_life start) ≡ ok (0, 0, false)
unfolding message add_request admit_waiting lookup insert remove total
whole_life_lem = refl

abbrev IsUnused : Peer → Type 0
IsUnused peer = (peer.blocks ≡ 0) × (peer.slots ≡ 0) × (peer.compute_slots ≡ 0) × IsWithin peer

worker-IsWithin : (role : Role) → IsWithin (worker role)
worker-IsWithin role = (omega arith, omega arith, λ h. omega arith)

start-IsUnused : (n : String) (peer : Peer) → lookup n start.peers ≡ some peer → IsUnused peer
start-IsUnused n peer at =
    All-lookup IsUnused n peer start.peers
      (
        (refl, refl, refl, worker-IsWithin Role.prefill),
        ((refl, refl, refl, worker-IsWithin Role.decode), tt),
      )
      at

start-IsBooked : IsBooked start
unfolding total
start-IsBooked = (
  record {
    balanced = λ n peer at.
        let u = start-IsUnused n peer at in record { blocks = u.0; slots = u.1; compute = u.2 };
    wired = tt;
  },
  λ n peer at. (start-IsUnused n peer at).3,
)

abbrev value_or : Coordinator → Result Coordinator → Coordinator
value_or c (err raised) = c
value_or c (ok d) = d

abbrev added : Coordinator
added = value_or start (add_request "a" (1 ∷ 2 ∷ 3 ∷ []) three_tokens none "t" 5 start)

abbrev admitted : Coordinator
admitted = value_or start (admit_waiting 6 added)

unused : lookup "t" (start.transfers) ≡ none
unfolding lookup
unused = refl

added_lem : add_request "a" (1 ∷ 2 ∷ 3 ∷ []) three_tokens none "t" 5 start ≡ ok added
unfolding add_request lookup insert total
added_lem = refl

admitted_lem : admit_waiting 6 added ≡ ok admitted
unfolding admit_waiting add_request lookup insert total
admitted_lem = refl

to_admitted : Reach start admitted
to_admitted =
    next (next here (Step.added "a" (1 ∷ 2 ∷ 3 ∷ []) three_tokens none "t" 5 unused added_lem))
      (Step.admission 6 admitted_lem)

Reach-IsBooked_example : IsBooked admitted
Reach-IsBooked_example = Reach-IsBooked start-IsBooked to_admitted

admit_waiting-IsBooked_example : Returns IsBooked (admit_waiting 6 added)
admit_waiting-IsBooked_example = admit_waiting-IsBooked 6 added (
    Reach-IsBooked start-IsBooked
      (next here (Step.added "a" (1 ∷ 2 ∷ 3 ∷ []) three_tokens none "t" 5 unused added_lem)))

still_open : added.closed ≡ false
unfolding add_request lookup insert
still_open = refl

abbrev nothing : RequestOutput
nothing = record {
  request_id = "";
  prompt_token_ids = [];
  token_ids = [];
  exit_depths = [];
  finished = false;
  finish_reason = none;
}

abbrev withdrawn : RequestOutput × Coordinator
withdrawn = elim (abort_request "a" added) [ err raised ↦ (nothing, added) | ok done ↦ done ]

withdrawn_lem : abort_request "a" added ≡ ok withdrawn
unfolding abort_request add_request lookup insert remove
withdrawn_lem = refl

to_withdrawn : Reach start (withdrawn.1)
to_withdrawn =
    next (next here (Step.added "a" (1 ∷ 2 ∷ 3 ∷ []) three_tokens none "t" 5 unused added_lem))
      (Step.withdrawn "a" withdrawn.0 still_open withdrawn_lem)

none_left : has_unfinished_requests withdrawn.1 ≡ false
unfolding abort_request add_request lookup insert remove
none_left = refl

worker_here : lookup "P" withdrawn.1.peers ≡ some (worker Role.prefill)
unfolding abort_request add_request lookup insert remove
worker_here = refl

Reach-has_unfinished_requests_example :
    ((worker Role.prefill).blocks ≡ 0)
    × ((worker Role.prefill).slots ≡ 0)
    × ((worker Role.prefill).compute_slots ≡ 0)
Reach-has_unfinished_requests_example =
    Reach-has_unfinished_requests start-IsBooked to_withdrawn none_left "P" (worker Role.prefill)
      worker_here

abbrev silent : Inbox
silent = record { messages = λ name. []; hung_up = λ name. false; is_alive = λ name. true }

-- An output waits.
abbrev with_output : Coordinator
with_output = record added { outputs = nothing ∷ [] }

step-Settled_example :
    Settled with_output
      (poll 6 silent (keys with_output.peers) with_output).1
      (step 6 silent with_output)
step-Settled_example = step-Settled 6 silent with_output

abbrev returned : Result (List RequestOutput) × Coordinator → List RequestOutput
returned (err raised, c) = []
returned (ok outputs, c) = outputs

step_test : returned (step 6 silent with_output) ≡ nothing ∷ []
unfolding step add_request lookup insert remove total
step_test = refl
