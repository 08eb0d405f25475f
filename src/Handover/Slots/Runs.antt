-- ===== src/Handover/Slots/Runs.antt =====
-- The rounds of a worker (`run` in vllm_rlt/pd/worker.py) keep its slots in order.
use vllm_rlt.Common.{
  ℕ, zero, suc, refl, inl, inr, List, [], ◌∷◌, lookup, any, Option-cases, if-cases, Ensures,
  bind-Ensures, Ensures-ok,
}
use vllm_rlt.Scheduler.State.{RequestOutput}
use vllm_rlt.Engine.State.{Runner}
use vllm_rlt.Coordinator.State.{Role, Command, Event}
use vllm_rlt.Handover.State.{Worker, send_event}
use vllm_rlt.Handover.Commands.{command}
use vllm_rlt.Handover.Progress.{progress}
use vllm_rlt.Handover.Prefilling.{prefill_step}
use vllm_rlt.Handover.Run.{
  WorkerRound, handle_messages, send_output, send_outputs, advance, run_round, run,
}
use vllm_rlt.Handover.Slots.{IsSlotted, free_slot-IsSlotted}
use vllm_rlt.Handover.Slots.Accepted.{command-IsSlotted}
use vllm_rlt.Handover.Slots.Turns.{progress-IsSlotted}
use vllm_rlt.Handover.Slots.Prefilled.{SlottedAfter, prefill_step-IsSlotted}

handle_messages-IsSlotted :
    (runner : Runner) (t : WorkerRound) (n : ℕ) (messages : List Command) (w : Worker)
    → IsSlotted w
    → Ensures IsSlotted (handle_messages runner t n messages w)
unfolding handle_messages
handle_messages-IsSlotted runner t zero messages w sound = sound
handle_messages-IsSlotted runner t (suc n) [] w sound = sound
handle_messages-IsSlotted runner t (suc n) (c ∷ messages) w sound =
    let done = command runner t.clock t.event c w in
    bind-Ensures IsSlotted done _ (λ w' h.
      handle_messages-IsSlotted runner t n messages w'
        (Ensures-ok IsSlotted done h (command-IsSlotted runner t.clock t.event c w sound)))

send_output-IsSlotted :
    (o : RequestOutput) (w : Worker) → IsSlotted w → Ensures IsSlotted (send_output o w)
unfolding send_output send_event
send_output-IsSlotted o w sound =
    let w' = send_event o.request_id (Event.output o) w in
    if-cases (Ensures IsSlotted) o.finished
      (λ t. elim (Option-cases (lookup o.request_id w.work)) [
        | inl e ↦ rw e tt
        | inr e ↦ rw (e.1) (free_slot-IsSlotted o.request_id e.0 w' (sound, e.0, e.1, refl))
      ])
      (λ f. sound)

send_outputs-IsSlotted :
    (outputs : List RequestOutput) (w : Worker)
    → IsSlotted w
    → Ensures IsSlotted (send_outputs outputs w)
unfolding send_outputs
send_outputs-IsSlotted [] w sound = sound
send_outputs-IsSlotted (o ∷ outputs) w sound = bind-Ensures IsSlotted (send_output o w) _ (λ w' h.
    send_outputs-IsSlotted outputs w'
      (Ensures-ok IsSlotted (send_output o w) h (send_output-IsSlotted o w sound)))

advance-IsSlotted :
    (runner : Runner) (t : WorkerRound) (role : Role) (w : Worker)
    → IsSlotted w
    → Ensures IsSlotted (advance runner t role w)
unfolding advance
advance-IsSlotted runner t Role.prefill w sound =
    let done = prefill_step runner t.callbacks t.run_batch t.events w in
    bind-Ensures IsSlotted done _ (λ stepped h.
      Ensures-ok SlottedAfter done h
        (prefill_step-IsSlotted runner t.callbacks t.run_batch t.events w sound))
advance-IsSlotted runner t Role.decode w sound =
    if-cases (Ensures IsSlotted) (any (λ x. x.1.active) w.work)
      (λ on.
        bind-Ensures IsSlotted (t.engine_step w.engine) _
          (λ stepped h. send_outputs-IsSlotted stepped.0 (record w { engine = stepped.1 }) sound))
      (λ off. sound)

run_round-IsSlotted :
    (runner : Runner) (limit : ℕ) (t : WorkerRound) (w : Worker)
    → IsSlotted w
    → Ensures IsSlotted (run_round runner limit t w)
unfolding run_round
run_round-IsSlotted runner limit t w sound =
    let handled = handle_messages runner t limit t.messages w in
    bind-Ensures IsSlotted handled _ (λ w₁ h.
      let moved = progress runner t.status t.accepts t.notes w₁ in
      bind-Ensures IsSlotted moved _ (λ w₂ h'. advance-IsSlotted runner t w₂.role w₂ (
        Ensures-ok IsSlotted moved h' (
          progress-IsSlotted runner t.status t.accepts t.notes w₁ (
            Ensures-ok IsSlotted handled h
              (handle_messages-IsSlotted runner t limit t.messages w sound))))))

-- However many rounds a worker runs, and whatever messages, transfers, events and engine steps they
-- bring, a run that does not raise leaves every slot below the limit free or held by one work, and no
-- other slot.
pub run-IsSlotted :
    (runner : Runner) (limit : ℕ) (rounds : List WorkerRound) (w : Worker)
    → IsSlotted w
    → Ensures IsSlotted (run runner limit rounds w)
unfolding run
run-IsSlotted runner limit [] w sound = sound
run-IsSlotted runner limit (t ∷ rounds) w sound =
    if-cases (Ensures IsSlotted) w.running
      (λ on. bind-Ensures IsSlotted (run_round runner limit t w) _ (λ w' h.
        run-IsSlotted runner limit rounds w' (
          Ensures-ok IsSlotted (run_round runner limit t w) h
            (run_round-IsSlotted runner limit t w sound))))
      (λ off. sound)
