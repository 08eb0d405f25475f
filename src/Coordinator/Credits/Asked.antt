-- ===== src/Coordinator/Credits/Asked.antt =====
-- `add_request` and `abort_request` of vllm_rlt/pd/engine.py keep the books of the workers.
use vllm_rlt.Common.{
  ℕ, ◌≡◌, refl, sym, subst, inl, inr, true, false, not, ◌||◌, List, Option, none, some, String,
  lookup, insert, remove, ok, Ensures, bind-Ensures, Ensures-ok, str_eq, arith, Option-cases,
  if-cases, All-lookup_keyed, raise_if, length, leb, runtime_error, value_error,
}
use vllm_rlt.KvCache.State.{is_some}
use vllm_rlt.Scheduler.State.{SamplingParams}
use vllm_rlt.Coordinator.State.{Role, is_waiting, Pending, Command, Coordinator, send}
use vllm_rlt.Coordinator.Messages.{store}
use vllm_rlt.Coordinator.Requests.{
  check_prompt, check_trace, fits_role, role_tokens, new_request, new_pending, add_request,
  drop_outputs, send_cancel, withdraw, aborted, abort_request,
}
use vllm_rlt.Coordinator.Credits.{
  Wired, IsKept, IsCredited, keep-IsCredited, remove-IsCredited, new-IsCredited, send-Ensures,
}
use vllm_rlt.Coordinator.Credits.Admitted.{AllWithin, IsBooked, nothing_held}

-- A new request takes no credits, where its transfer's id is new.
pub add_request-IsBooked :
    (rid : String) (prompt : List ℕ) (params : SamplingParams) (trace_id : Option String)
    (tid : String) (clock : ℕ) (c : Coordinator)
    → IsBooked c
    → lookup tid c.transfers ≡ none
    → Ensures IsBooked (add_request rid prompt params trace_id tid clock c)
unfolding add_request store
add_request-IsBooked rid prompt params trace_id tid clock c booked fresh =
    bind-Ensures IsBooked (raise_if (c.closed || c.failure) runtime_error) _ (λ a ea.
      bind-Ensures IsBooked
        (raise_if (str_eq rid "" || is_some (lookup rid c.requests)) value_error) _
        (λ b eb.
          bind-Ensures IsBooked
            (raise_if (leb c.max_pending_requests (length c.transfers)) value_error) _
            (λ d ed. bind-Ensures IsBooked (check_prompt prompt params c.model_info) _ (λ f ef.
              bind-Ensures IsBooked (check_trace rid trace_id params c.model_info c.traces) _
                (λ key ek.
                  bind-Ensures IsBooked
                    (raise_if
                      (not
                        (fits_role Role.prefill (role_tokens Role.prefill prompt params) c.peers))
                      value_error)
                    _
                    (λ g eg.
                      bind-Ensures IsBooked
                        (raise_if
                          (not
                            (fits_role Role.decode (role_tokens Role.decode prompt params) c.peers))
                          value_error)
                        (λ x. ok (
                          store (new_pending (new_request rid prompt params) tid key clock)
                            (record c { requests = insert rid tid c.requests })))
                        (λ h eh. (
                          new-IsCredited c.peers c.transfers
                              (new_pending (new_request rid prompt params) tid key clock) booked.0
                              fresh (λ n. (refl, refl, refl))
                              (Wired.idle refl refl refl refl refl refl),
                          booked.1,
                        ))))))))

send_cancel-Ensures :
    (w : Pending) (c : Coordinator) → IsBooked c → Ensures IsBooked (send_cancel w c)
unfolding send_cancel
send_cancel-Ensures w c booked =
    bind-Ensures IsBooked (send w.d (Command.cancel w.tid) c) _ (λ c' e.
      let next = Ensures-ok IsBooked (send w.d (Command.cancel w.tid) c) e (
        send-Ensures (λ peers transfers. IsCredited peers transfers × AllWithin peers) w.d _ c
          booked) in
      if-cases (Ensures IsBooked) w.p_released
        (λ t.
          send-Ensures (λ peers transfers. IsCredited peers transfers × AllWithin peers) w.d _ c'
            next)
        (λ f.
          send-Ensures (λ peers transfers. IsCredited peers transfers × AllWithin peers) w.p _ c'
            next))

withdraw-IsBooked :
    (w : Pending) (c : Coordinator)
    → IsBooked c
    → lookup w.tid c.transfers ≡ some w
    → c.closed ≡ false
    → Ensures IsBooked (withdraw w c)
unfolding withdraw store
withdraw-IsBooked w c booked found running =
    let wired = (All-lookup_keyed (IsKept c.peers) w.tid w c.transfers booked.0.wired found).1 in
    if-cases (Ensures IsBooked) (c.closed || is_waiting w.phase)
      (λ t.
        let idle = nothing_held wired (ground arith) in
        let no_p = idle.0 in
        let no_d = idle.1 in
        (
          remove-IsCredited c.peers c.transfers w.tid w booked.0 found (λ n. ground arith),
          booked.1,
        ))
      (λ f.
        send_cancel-Ensures w (store (record w { cancelled = true; request = aborted w.request }) c)
          (
            keep-IsCredited c.peers c.transfers w
                (record w { cancelled = true; request = aborted w.request }) booked.0 found refl
                (λ n. (refl, refl, refl)) wired,
            booked.1,
          ))

-- A request that is aborted while the coordinator runs keeps its credits until its workers release them,
-- and one that waits holds none.
pub abort_request-IsBooked :
    (rid : String) (c : Coordinator)
    → IsBooked c
    → c.closed ≡ false
    → Ensures (λ done. IsBooked done.1) (abort_request rid c)
unfolding abort_request store
abort_request-IsBooked rid c booked running = elim (Option-cases (lookup rid c.requests)) [
  | inl e ↦ rw (e, abort_request) tt
  | inr e ↦ elim (Option-cases (lookup e.0 c.transfers)) [
    | inl g ↦ rw (e.1, abort_request, g) tt
    | inr g ↦
        rw (e.1, abort_request, g.1)
          (let kept = All-lookup_keyed (IsKept c.peers) e.0 g.0 c.transfers booked.0.wired g.1 in
            let found : lookup g.0.tid c.transfers ≡ some g.0 =
              subst (λ t. lookup t c.transfers ≡ some g.0) (sym kept.0) g.1 in
            let c' = record c {
              requests = remove rid c.requests;
              outputs = drop_outputs rid c.outputs;
            } in
            bind-Ensures (λ done. IsBooked done.1) (withdraw g.0 c') _
              (λ c'' h.
                Ensures-ok IsBooked (withdraw g.0 c') h
                  (withdraw-IsBooked g.0 c' booked found running)))
  ]
]
