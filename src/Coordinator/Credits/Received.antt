-- ===== src/Coordinator/Credits/Received.antt =====
-- `_message` of vllm_rlt/pd/engine.py keeps the credits balanced, and the workers within capacity.
use vllm_rlt.Common.{
  ℕ, ◌-◌, ◌≡◌, refl, sym, subst, ◌∙◌, inl, inr, Bool, true, false, ◌&&◌, ◌||◌, Option, some, String,
  Dict, lookup, insert, Ensures, bind-Ensures, Ensures-ok, All-mono, str_eq, str_eq_iff, arith,
  Bool-cases, Option-cases, if-cases, All-lookup_keyed, lookup-insert,
}
use vllm_rlt.Coordinator.State.{Role, same_role, Peer, Event, Message, Coordinator, count_blocks}
use vllm_rlt.Coordinator.Messages.{
  names, store_peer, on_event, retire, returns_early, after_event, on_transfer, on_profile_reply,
  message,
}
use vllm_rlt.Coordinator.Credits.{
  Wired, IsKept, IsBalanced, role_of, role_of-insert, Wired-roles, remove-IsCredited,
}
use vllm_rlt.Coordinator.Credits.Events.{Credited, on_event-Credited}

compute_done :
    {peers : Dict Peer} {waiting : Bool} {p d : Option String} {pr pc dr : Bool}
    → Wired peers waiting p d pr pc dr
    → pr ≡ true
    → pc ≡ true
compute_done (Wired.idle a b c x y z) h = absurd (ground arith)
compute_done (Wired.placed n k a b c x y z) h = z h

-- A transfer that both sides have released holds nothing.
released-Credited : (tid : String) (c : Coordinator) → Credited c → Credited (retire tid c)
unfolding retire
released-Credited tid c sound = elim (Option-cases (lookup tid c.transfers)) [
  | inl e ↦ rw (e, retire) sound
  | inr e ↦
      rw (e.1, retire)
        (if-cases Credited (e.0.p_released && e.0.d_released)
          (λ t.
            let kept = (All-lookup_keyed (IsKept c.peers) tid e.0 c.transfers sound.wired e.1).1 in
            let done : e.0.p_compute_released ≡ true = compute_done kept (ground arith) in
            remove-IsCredited c.peers c.transfers tid e.0 sound e.1 (λ n. ground arith))
          (λ f. sound))
]

after_event-Credited :
    (early : Bool) (tid : String) (c : Coordinator)
    → Credited c
    → Credited (after_event early tid c)
unfolding after_event count_blocks
after_event-Credited true tid c sound = sound
after_event-Credited false tid c sound = released-Credited tid c sound

-- Counters that do not depend on the status of a worker.
status-Credited :
    (n : String) (peer peer' : Peer) (c : Coordinator)
    → Credited c
    → lookup n c.peers ≡ some peer
    → peer'.role ≡ peer.role
    → peer'.blocks ≡ peer.blocks
    → peer'.slots ≡ peer.slots
    → peer'.compute_slots ≡ peer.compute_slots
    → Credited (store_peer n peer' c)
unfolding store_peer
status-Credited n peer peer' c sound here role blocks slots compute =
    let roles : (k : String) → role_of k (insert n peer' c.peers) ≡ role_of k c.peers =
      λ k. role_of-insert n k peer peer' c.peers here role in
    record {
      balanced = λ k q e. elim (Bool-cases (str_eq n k)) [
        | inl same ↦
            let at : n ≡ k = (str_eq_iff n k).0 same in
            let is : peer' ≡ q = ground (arith, lookup-insert n k peer' c.peers) in
            let b = sound.balanced n peer here in
            subst (λ i. IsBalanced i q c.transfers) at
              (subst (λ i. IsBalanced n i c.transfers) is
                (record {
                  blocks = blocks ∙ b.blocks;
                  slots = slots ∙ b.slots;
                  compute = compute ∙ b.compute;
                }))
        | inr other ↦ sound.balanced k q (ground (arith, lookup-insert n k peer' c.peers))
      ];
      wired =
          All-mono c.transfers
            (λ e h. (h.0, Wired-roles c.peers (insert n peer' c.peers) roles h.1)) sound.wired;
    }

-- What is expected of a message: see `IsExpected`.
abbrev pub IsExpectedMessage : Peer → Message → Type 0
IsExpectedMessage peer (Message.transfer tid e) =
    e ≡ Event.prefill_complete → same_role peer.role Role.prefill ≡ true
IsExpectedMessage peer (Message.profile_reply control session reply) = Unit
IsExpectedMessage peer Message.fatal = Unit
IsExpectedMessage peer (Message.ready info) = Unit
IsExpectedMessage peer Message.connected = Unit
IsExpectedMessage peer Message.stopped = Unit

-- A message from a worker keeps the books: the blocks, slots and compute slots of every worker are the
-- sums of what the transfers hold on it, whatever the message is, where only prefill workers report the
-- end of a prefill computation.
pub message-Credited :
    (clock : ℕ) (name : String) (peer : Peer) (m : Message) (c : Coordinator)
    → Credited c
    → lookup name c.peers ≡ some peer
    → IsExpectedMessage peer m
    → Ensures Credited (message clock name peer m c)
unfolding message on_transfer on_profile_reply
message-Credited clock name peer (Message.profile_reply control session reply) c sound here h =
    elim (Option-cases (lookup control c.profile_replies)) [
      | inl e ↦ rw (e, on_profile_reply) sound
      | inr e ↦
          rw (e.1, on_profile_reply)
            (if-cases Credited (names c.profile_session session) (λ t. sound) (λ f. sound))
    ]
message-Credited clock name peer Message.fatal c sound here h = tt
message-Credited clock name peer (Message.ready info) c sound here h =
    status-Credited name peer _ c sound here refl refl refl refl
message-Credited clock name peer Message.connected c sound here h =
    status-Credited name peer _ c sound here refl refl refl refl
message-Credited clock name peer Message.stopped c sound here h =
    status-Credited name peer _ c sound here refl refl refl refl
message-Credited clock name peer (Message.transfer tid e) c sound here h =
    elim (Option-cases (lookup tid c.transfers)) [
      | inl none_at ↦ rw (none_at, on_transfer) sound
      | inr at ↦
          let w = at.0 in
          let kept = All-lookup_keyed (IsKept c.peers) tid w c.transfers sound.wired at.1 in
          let found : lookup w.tid c.transfers ≡ some w =
            subst (λ t. lookup t c.transfers ≡ some w) (sym kept.0) at.1 in
          rw (at.1, on_transfer)
            (if-cases (Ensures Credited) (names w.p name || names w.d name)
              (λ t.
                bind-Ensures Credited (on_event (clock - w.created) name peer w e c) _ (λ c' got.
                  after_event-Credited (returns_early e w) tid c' (
                    Ensures-ok Credited (on_event (clock - w.created) name peer w e c) got (
                      on_event-Credited name peer w c sound found here t (clock - w.created) e h))))
              (λ f. tt))
    ]
