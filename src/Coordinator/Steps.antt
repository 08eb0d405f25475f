-- ===== src/Coordinator/Steps.antt =====
-- `_poll`, `step` and `_terminate` of `PDEngine` in vllm_rlt/pd/engine.py. What the workers' processes
-- and channels do is the argument `inbox`.
use vllm_rlt.Common.{
  ℕ, ◌-◌, Bool, true, false, not, ◌&&◌, List, [], ◌∷◌, Option, none, some, String, lookup, Error,
  Result, ok, err, runtime_error, timeout_error, ltb, length, any, take, if◌then◌else◌, ◌||◌,
}
use vllm_rlt.Scheduler.State.{RequestOutput}
use vllm_rlt.Coordinator.State.{Message, Coordinator}
use vllm_rlt.Coordinator.Messages.{message}
use vllm_rlt.Coordinator.Admission.{keys, admit_waiting}

-- What a worker's channel holds, whether it is closed behind that, and whether the process lives.
pub record Inbox : Type 0 where
  pub messages : String → List Message
  pub hung_up : String → Bool
  pub is_alive : String → Bool

-- The exception that was raised, if any, and the state at that time.
abbrev pub Outcome : Type 0
Outcome = Option Error × Coordinator

unfoldable pub receive : ℕ → String → List Message → Coordinator → Outcome
unfolding message
receive clock name [] c = (none, c)
receive clock name (m ∷ ms) c = elim (lookup name c.peers) [
  | none ↦ (none, c)
  | some peer ↦ elim (message clock name peer m c) [
    | err raised ↦ (some raised, c)
    | ok c' ↦ receive clock name ms c'
  ]
]

abbrev has_stopped : String → Coordinator → Bool
has_stopped name c = elim (lookup name c.peers) [ none ↦ false | some peer ↦ peer.stopped ]

-- The checks after the messages of one worker.
unfoldable pub check_alive : Inbox → String → Coordinator → Outcome
check_alive inbox name c =
    if not (has_stopped name c)
      && ((ltb (length (inbox.messages name)) c.max_control_messages && inbox.hung_up name)
          || not (inbox.is_alive name))
    then (some runtime_error, c)
    else (none, c)

-- `rest` after an outcome without an exception.
abbrev pub unless_raised {ℓ} :
    {A : Type ℓ} → Outcome → (Error → Coordinator → A) → (Coordinator → A) → A
unless_raised (none, c) fail rest = rest c
unless_raised (some e, c) fail rest = fail e c

unfoldable pub poll : ℕ → Inbox → List String → Coordinator → Outcome
unfolding receive check_alive
poll clock inbox [] c = (none, c)
poll clock inbox (name ∷ names) c =
    unless_raised (receive clock name (take c.max_control_messages (inbox.messages name)) c)
      (λ e c'. (some e, c'))
      (λ c'.
        unless_raised (check_alive inbox name c') (λ e c''. (some e, c'')) (poll clock inbox names))

-- `_terminate`, without the processes and the profile's manifest.
unfoldable pub terminate : Coordinator → Coordinator
terminate c = record c { num_used_blocks = 0; closed = true }

-- The handler of `step`'s exceptions.
unfoldable pub fail_step : Error → Coordinator → Result (List RequestOutput) × Coordinator
unfolding terminate
fail_step raised c = (err raised, terminate (record c { failure = true }))

abbrev pub timed_out : ℕ → Coordinator → Bool
timed_out clock c = any (λ e. ltb c.request_timeout (clock - e.1.created)) c.transfers

-- `list(self.outputs)` and `self.outputs.clear()`, or the handler.
unfoldable pub deliver :
    Coordinator → Result Coordinator → Result (List RequestOutput) × Coordinator
unfolding fail_step
deliver before (err raised) = fail_step raised before
deliver before (ok c) = (ok c.outputs, record c { outputs = [] })

unfoldable pub step : ℕ → Inbox → Coordinator → Result (List RequestOutput) × Coordinator
unfolding poll fail_step deliver admit_waiting
step clock inbox c =
    if c.closed
    then (err runtime_error, c)
    else unless_raised (poll clock inbox (keys c.peers) c) fail_step (λ c'.
      if timed_out clock c'
      then fail_step timeout_error c'
      else deliver c' (admit_waiting clock c'))
