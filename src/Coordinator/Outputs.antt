-- ===== src/Coordinator/Outputs.antt =====
-- The outputs that wait in the coordinator of vllm_rlt/pd/engine.py, under messages and scans.
use vllm_rlt.Common.{
  ℕ, ◌-◌, ◌≡◌, refl, ap, ◌∙◌, inl, inr, Bool, true, false, not, ◌&&◌, ◌||◌, List, [], ◌∷◌, ◌++◌,
  Option, none, some, String, lookup, Error, Result, ok, err, take, if-cases, Ensures, bind-Ensures,
  Ensures-ok, Option-cases,
}
use vllm_rlt.Scheduler.State.{RequestOutput}
use vllm_rlt.Coordinator.State.{
  Role, same_role, Peer, is_waiting, Pending, Command, Event, Message, Coordinator, send, get_peer,
  count_blocks,
}
use vllm_rlt.Coordinator.Messages.{
  names, store, store_peer, on_reserved, on_prefill_complete, on_committed, on_activated, on_output,
  on_released, on_event, retire, returns_early, after_event, on_transfer, on_profile_reply, message,
}
use vllm_rlt.Coordinator.Admission.{choose, book, assign, offer_credits, admit_one, admit_each}
use vllm_rlt.Coordinator.Steps.{Inbox, Outcome, receive, check_alive, unless_raised, poll}

append_append : (xs ys zs : List RequestOutput) → (xs ++ ys) ++ zs ≡ xs ++ (ys ++ zs)
append_append [] ys zs = refl
append_append (x ∷ xs) ys zs = ap (λ l. x ∷ l) (append_append xs ys zs)

pub append_nil : (xs : List RequestOutput) → xs ≡ xs ++ []
append_nil [] = refl
append_nil (x ∷ xs) = ap (λ l. x ∷ l) (append_nil xs)

-- A property of the outputs is kept where a command is sent.
send-outputs :
    (P : List RequestOutput → Type 0) (to : Option String) (command : Command) (c : Coordinator)
    → P c.outputs
    → Ensures (λ c'. P c'.outputs) (send to command c)
unfolding send
send-outputs P none command c h = tt
send-outputs P (some name) command c h = elim (Option-cases (lookup name c.peers)) [
  | inl e ↦ rw (e, send) tt
  | inr e ↦ rw (e.1, send) h
]

-- The scan of the waiting transfers leaves the outputs as they are.
module _ (P : List RequestOutput → Type 0) where
  abbrev pub Keeps : Coordinator → Type 0
  Keeps c = P c.outputs

  abbrev pub KeepsStep : Bool × Coordinator → Type 0
  KeepsStep (more, c) = P c.outputs

  offer_credits-Keeps :
      (clock : ℕ) (w : Pending) (p d : Option (String × Peer)) (c : Coordinator)
      → Keeps c
      → Ensures KeepsStep (offer_credits clock w p d c)
  unfolding offer_credits assign book store store_peer
  offer_credits-Keeps clock w none d c h = h
  offer_credits-Keeps clock w (some p) none c h = h
  offer_credits-Keeps clock w (some p) (some d) c h =
      let sent = assign clock w p d c in
      bind-Ensures KeepsStep sent _
        (λ c' e. Ensures-ok Keeps sent e (send-outputs P (some d.0) _ (book clock w p d c) h))

  admit_one-Keeps :
      (clock : ℕ) (w : Pending) (c : Coordinator)
      → Keeps c
      → Ensures KeepsStep (admit_one clock w c)
  unfolding admit_one
  admit_one-Keeps clock w c h =
      if-cases (Ensures KeepsStep) (w.cancelled || not (is_waiting w.phase)) (λ t. h)
        (λ f. offer_credits-Keeps clock w (choose Role.prefill w c) (choose Role.decode w c) c h)

  pub admit_each-Keeps :
      (clock : ℕ) (tids : List String) (c : Coordinator)
      → Keeps c
      → Ensures Keeps (admit_each clock tids c)
  unfolding admit_each
  admit_each-Keeps clock [] c h = h
  admit_each-Keeps clock (tid ∷ tids) c h = elim (Option-cases (lookup tid c.transfers)) [
    | inl e ↦ rw (e, admit_each) (admit_each-Keeps clock tids c h)
    | inr e ↦
        let one = admit_one clock e.0 c in
        rw (e.1, admit_each)
          (bind-Ensures Keeps one _ (λ stepped got.
            let kept = Ensures-ok KeepsStep one got (admit_one-Keeps clock e.0 c h) in
            if-cases (Ensures Keeps) stepped.0 (λ t. admit_each-Keeps clock tids stepped.1 kept)
              (λ f. kept)))
  ]

-- `before`, and what came after it.
abbrev pub Grown : List RequestOutput → List RequestOutput → Type 0
Grown before outputs = (more : List RequestOutput) × (outputs ≡ before ++ more)

-- A message only adds to the outputs.
module _ (before : List RequestOutput) where
  abbrev pub Grows : Coordinator → Type 0
  Grows c = Grown before c.outputs

  on_output-Grows :
      (delivered : RequestOutput) (now : ℕ) (w : Pending) (c : Coordinator)
      → Grows c
      → Grows (on_output delivered now w c)
  unfolding on_output store
  on_output-Grows delivered now w c g =
      let o = record delivered { request_id = w.request.request_id } in
      let longer : Grown before (c.outputs ++ o ∷ []) =
        (g.0 ++ o ∷ [], ap (λ l. l ++ o ∷ []) g.1 ∙ append_append before g.0 (o ∷ [])) in
      if-cases Grows w.cancelled (λ t. g)
        (λ f. if-cases Grows delivered.finished (λ t. longer) (λ n. longer))

  on_released-Grows :
      (name : String) (peer : Peer) (w : Pending) (c : Coordinator)
      → Grows c
      → Ensures Grows (on_released name peer w c)
  unfolding on_released store store_peer
  on_released-Grows name peer w c g =
      if-cases (Ensures Grows) (same_role peer.role Role.prefill && not w.p_released)
        (λ t.
          if-cases (Ensures Grows) (w.cancelled && not w.d_released)
            (λ s. send-outputs (Grown before) w.d _ _ g) (λ s. g))
        (λ f.
          if-cases (Ensures Grows) (same_role peer.role Role.decode && not w.d_released) (λ t. g)
            (λ s. g))

  on_event-Grows :
      (now : ℕ) (name : String) (peer : Peer) (w : Pending) (e : Event) (c : Coordinator)
      → Grows c
      → Ensures Grows (on_event now name peer w e c)
  unfolding on_event on_reserved on_prefill_complete on_committed on_activated store store_peer
  on_event-Grows now name peer w (Event.reserved tables slot cached) c g =
      if-cases (Ensures Grows) w.cancelled (λ t. send-outputs (Grown before) w.d _ _ g)
        (λ f. bind-Ensures Grows (get_peer w.d c) _ (λ d e. send-outputs (Grown before) w.p _ _ g))
  on_event-Grows now name peer w Event.prefill_started c g = g
  on_event-Grows now name peer w Event.prefill_complete c g = g
  on_event-Grows now name peer w (Event.committed count) c g =
      if-cases (Ensures Grows) w.cancelled (λ t. g) (λ f. send-outputs (Grown before) w.d _ _ g)
  on_event-Grows now name peer w Event.activated c g = send-outputs (Grown before) w.p _ _ g
  on_event-Grows now name peer w (Event.output delivered) c g = on_output-Grows delivered now w c g
  on_event-Grows now name peer w Event.released c g = on_released-Grows name peer w c g
  on_event-Grows now name peer w Event.rejected c g = tt
  on_event-Grows now name peer w Event.unknown c g = tt

  after_event-Grows :
      (early : Bool) (tid : String) (c : Coordinator) → Grows c → Grows (after_event early tid c)
  unfolding after_event count_blocks retire
  after_event-Grows true tid c g = g
  after_event-Grows false tid c g = elim (Option-cases (lookup tid c.transfers)) [
    | inl e ↦ rw (e, retire) g
    | inr e ↦ rw (e.1, retire) (if-cases Grows (e.0.p_released && e.0.d_released) (λ t. g) (λ f. g))
  ]

  message-Grows :
      (clock : ℕ) (name : String) (peer : Peer) (m : Message) (c : Coordinator)
      → Grows c
      → Ensures Grows (message clock name peer m c)
  unfolding message on_transfer on_profile_reply store_peer
  message-Grows clock name peer (Message.profile_reply control session reply) c g =
      elim (Option-cases (lookup control c.profile_replies)) [
        | inl e ↦ rw (e, on_profile_reply) g
        | inr e ↦
            rw (e.1, on_profile_reply)
              (if-cases Grows (names c.profile_session session) (λ t. g) (λ f. g))
      ]
  message-Grows clock name peer Message.fatal c g = tt
  message-Grows clock name peer (Message.ready info) c g = g
  message-Grows clock name peer Message.connected c g = g
  message-Grows clock name peer Message.stopped c g = g
  message-Grows clock name peer (Message.transfer tid e) c g =
      elim (Option-cases (lookup tid c.transfers)) [
        | inl none_at ↦ rw (none_at, on_transfer) g
        | inr at ↦
            let w = at.0 in
            let done = on_event (clock - w.created) name peer w e c in
            rw (at.1, on_transfer)
              (if-cases (Ensures Grows) (names w.p name || names w.d name)
                (λ t. bind-Ensures Grows done _ (λ c' got.
                  after_event-Grows (returns_early e w) tid c' (
                    Ensures-ok Grows done got
                      (on_event-Grows (clock - w.created) name peer w e c g))))
                (λ f. tt))
      ]

  settle-Grows :
      (c : Coordinator) (next : Coordinator → Outcome) (r : Result Coordinator)
      → Grows c
      → Ensures Grows r
      → ((c' : Coordinator) → Grows c' → Grows (next c').1)
      → Grows ((elim r as (λ x. Outcome) [ err raised ↦ (some raised, c) | ok c' ↦ next c' ]).1)
  settle-Grows c next (err raised) g h k = g
  settle-Grows c next (ok c') g h k = k c' h

  receive-Grows :
      (clock : ℕ) (name : String) (ms : List Message) (c : Coordinator)
      → Grows c
      → Grows ((receive clock name ms c).1)
  unfolding receive
  receive-Grows clock name [] c g = g
  receive-Grows clock name (m ∷ ms) c g = elim (Option-cases (lookup name c.peers)) [
    | inl e ↦ rw (e, receive) g
    | inr e ↦
        rw (e.1, receive)
          (settle-Grows c (receive clock name ms) (message clock name e.0 m c) g
            (message-Grows clock name e.0 m c g) (λ c' h. receive-Grows clock name ms c' h))
  ]

  check_alive-Grows :
      (inbox : Inbox) (name : String) (c : Coordinator)
      → Grows c
      → Grows ((check_alive inbox name c).1)
  unfolding check_alive
  check_alive-Grows inbox name c g = if-cases {A = Outcome} (λ o. Grows o.1) _ (λ t. g) (λ f. g)

  unless_raised-Grows :
      (o : Outcome) (fail : Error → Coordinator → Outcome) (rest : Coordinator → Outcome)
      → Grows o.1
      → ((e : Error) (c : Coordinator) → Grows c → Grows (fail e c).1)
      → ((c : Coordinator) → Grows c → Grows (rest c).1)
      → Grows (unless_raised o fail rest).1
  unless_raised-Grows (none, c) fail rest g h k = k c g
  unless_raised-Grows (some e, c) fail rest g h k = h e c g

  pub poll-Grows :
      (clock : ℕ) (inbox : Inbox) (names : List String) (c : Coordinator)
      → Grows c
      → Grows ((poll clock inbox names c).1)
  unfolding poll
  poll-Grows clock inbox [] c g = g
  poll-Grows clock inbox (name ∷ rest) c g =
      let received = receive clock name (take c.max_control_messages (inbox.messages name)) c in
      unless_raised-Grows received _ _ (receive-Grows clock name _ c g) (λ e c' h. h)
        (λ c' h.
          unless_raised-Grows (check_alive inbox name c') _ _ (check_alive-Grows inbox name c' h)
            (λ e c'' k. k) (λ c'' k. poll-Grows clock inbox rest c'' k))
