-- ===== src/Coordinator/Settled.antt =====
-- What `step` of vllm_rlt/pd/engine.py returns, and the state that it leaves.
use vllm_rlt.Common.{
  ℕ, ◌≡◌, refl, ◌∙◌, ◌⊎◌, inl, inr, true, false, List, [], none, some, Result, ok, err, if-cases,
  Ensures,
}
use vllm_rlt.Scheduler.State.{RequestOutput}
use vllm_rlt.Coordinator.State.{Coordinator}
use vllm_rlt.Coordinator.Admission.{keys, scanned, admit_waiting}
use vllm_rlt.Coordinator.Steps.{
  Inbox, Outcome, unless_raised, poll, terminate, fail_step, timed_out, deliver, step,
}
use vllm_rlt.Coordinator.Outputs.{append_nil, admit_each-Keeps, Grown, poll-Grows}

-- What a step from `c` returns, where it has `polled` the workers, and what it leaves.
abbrev pub Settled : Coordinator → Coordinator → Result (List RequestOutput) × Coordinator → Type 0
Settled c polled (ok outputs, c') =
    (c.closed ≡ false) × (outputs ≡ polled.outputs) × Grown c.outputs outputs × (c'.outputs ≡ [])
Settled c polled (err raised, c') =
    (c'.closed ≡ true) × ((c.closed ≡ true) ⊎ ((c'.failure ≡ true) × (c'.num_used_blocks ≡ 0)))

deliver-Settled :
    (c c' : Coordinator) (m : Result Coordinator)
    → c.closed ≡ false
    → Grown c.outputs c'.outputs
    → Ensures (λ a. a.outputs ≡ c'.outputs) m
    → Settled c c' (deliver c' m)
unfolding deliver fail_step terminate
deliver-Settled c c' (err raised) open_ g h = (refl, inr (refl, refl))
deliver-Settled c c' (ok a) open_ g h = (open_, h, (g.0, h ∙ g.1), refl)

unless_raised-Settled :
    (c : Coordinator) (o : Outcome) (rest : Coordinator → Result (List RequestOutput) × Coordinator)
    → (o.0 ≡ none → Settled c o.1 (rest o.1))
    → Settled c o.1 (unless_raised o fail_step rest)
unfolding fail_step terminate
unless_raised-Settled c (none, c') rest h = h refl
unless_raised-Settled c (some e, c') rest h = (refl, inr (refl, refl))

-- A step that returns, of a coordinator that is open, hands over every output that was waiting and,
-- behind these, all that the workers' messages brought, and keeps none. A step that raises, for
-- whatever reason, leaves the coordinator closed: it was closed before, or it is marked as failed and
-- no block counts as used.
pub step-Settled :
    (clock : ℕ) (inbox : Inbox) (c : Coordinator)
    → Settled c (poll clock inbox (keys c.peers) c).1 (step clock inbox c)
unfolding step admit_waiting
step-Settled clock inbox c =
    let polled = poll clock inbox (keys c.peers) c in
    let grown = poll-Grows c.outputs clock inbox (keys c.peers) c ([], append_nil c.outputs) in
    if-cases (Settled c polled.1) c.closed (λ t. (t, inl t))
      (λ open_. unless_raised-Settled c polled _ (λ fine.
        if-cases (Settled c polled.1) (timed_out clock polled.1) (λ t. (refl, inr (refl, refl)))
          (λ g. deliver-Settled c polled.1 (admit_waiting clock polled.1) open_ grown (
            admit_each-Keeps (λ outputs. outputs ≡ polled.1.outputs) clock (scanned polled.1)
              polled.1 refl))))
