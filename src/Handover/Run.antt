-- ===== src/Handover/Run.antt =====
-- `run` of `PDWorker` in vllm_rlt/pd/worker.py: the rounds of its loop. A round is given what the worker
-- reads from outside it: the messages, the transport's answers, the clock, the recorded events, and what
-- the engine and its model runner do. The profiler's step is left out.
use vllm_rlt.Common.{
  ℕ, zero, suc, Bool, List, [], ◌∷◌, none, some, String, lookup, Result, ok, err, key_error, ◌>>=◌,
  any, if◌then◌else◌,
}
use vllm_rlt.KvCache.State.{Cache}
use vllm_rlt.Scheduler.State.{RequestOutput}
use vllm_rlt.Scheduler.Admission.{Callbacks}
use vllm_rlt.Scheduler.Batches.{SchedulerOutput}
use vllm_rlt.Transfer.Inflight.{Transfer, Status}
use vllm_rlt.Engine.State.{Engine, Runner}
use vllm_rlt.Coordinator.State.{Role, Command, Event}
use vllm_rlt.Handover.State.{Worker, send_event}
use vllm_rlt.Handover.Commands.{free_slot, command}
use vllm_rlt.Handover.Progress.{Notification, progress}
use vllm_rlt.Handover.Prefilling.{prefill_step}

pub record WorkerRound : Type 0 where
  pub messages : List Command
  pub clock : ℕ
  pub event : ℕ
  pub status : Transfer → Status
  pub accepts : String → ℕ → Bool
  pub notes : List Notification
  pub callbacks : Callbacks
  pub run_batch : SchedulerOutput → Cache → Result Cache
  pub events : String → ℕ
  pub engine_step : Engine → Result (List RequestOutput × Engine)

-- At most so many of the messages that are there.
unfoldable pub handle_messages : Runner → WorkerRound → ℕ → List Command → Worker → Result Worker
unfolding command
handle_messages runner t zero messages w = ok w
handle_messages runner t (suc n) [] w = ok w
handle_messages runner t (suc n) (c ∷ messages) w = do
  w' ← command runner t.clock t.event c w
  handle_messages runner t n messages w'

-- An output of the engine; the slot of a finished request is free again.
unfoldable pub send_output : RequestOutput → Worker → Result Worker
unfolding send_event free_slot
send_output o w =
    let w' = send_event o.request_id (Event.output o) w in
    if o.finished
    then elim (lookup o.request_id w.work) [
      | none ↦ err key_error
      | some work ↦ ok (free_slot o.request_id work w')
    ]
    else ok w'

unfoldable pub send_outputs : List RequestOutput → Worker → Result Worker
unfolding send_output
send_outputs [] w = ok w
send_outputs (o ∷ outputs) w = do w' ← send_output o w; send_outputs outputs w'

-- The last part of a round: a batch of prefills, or a step of the engine where a work is active.
unfoldable pub advance : Runner → WorkerRound → Role → Worker → Result Worker
unfolding prefill_step send_outputs
advance runner t Role.prefill w = do
  (submitted, w') ← prefill_step runner t.callbacks t.run_batch t.events w
  ok w'
advance runner t Role.decode w =
    if any (λ x. x.1.active) w.work
    then (do
      (outputs, engine) ← t.engine_step w.engine
      send_outputs outputs (record w { engine = engine }))
    else ok w

unfoldable pub run_round : Runner → ℕ → WorkerRound → Worker → Result Worker
unfolding handle_messages progress advance
run_round runner max_control_messages t w = do
  w₁ ← handle_messages runner t max_control_messages t.messages w
  w₂ ← progress runner t.status t.accepts t.notes w₁
  advance runner t w₂.role w₂

-- `while self.running`, for the given rounds.
unfoldable pub run : Runner → ℕ → List WorkerRound → Worker → Result Worker
unfolding run_round
run runner max_control_messages [] w = ok w
run runner max_control_messages (t ∷ rounds) w =
    let rest =
      run_round runner max_control_messages t w >>= run runner max_control_messages rounds in
    if w.running then rest else ok w
