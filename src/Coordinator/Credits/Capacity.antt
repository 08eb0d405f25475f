-- ===== src/Coordinator/Credits/Capacity.antt =====
-- A message of a worker keeps every worker of vllm_rlt/pd/engine.py within its capacity.
use vllm_rlt.Common.{
  ℕ, ◌-◌, ◌≡◌, refl, subst, true, false, Bool, inl, inr, not, ◌&&◌, ◌||◌, Option, some, String,
  Dict, lookup, insert, Ensures, bind-Ensures, Ensures-ok, str_eq, arith, Bool-cases, Option-cases,
  if-cases, lookup-insert,
}
use vllm_rlt.Coordinator.State.{
  Role, same_role, Info, Peer, Pending, Command, Event, Message, Coordinator, send, get_peer,
  count_blocks,
}
use vllm_rlt.Coordinator.Messages.{
  names, store, store_peer, release_compute, on_reserved, on_prefill_complete, on_committed,
  on_activated, on_output, on_released, on_event, retire, returns_early, after_event, on_transfer,
  on_profile_reply, message,
}
use vllm_rlt.Coordinator.Credits.{send-Ensures}
use vllm_rlt.Coordinator.Credits.Admitted.{IsWithin, AllWithin}

abbrev Within : Coordinator → Type 0
Within c = AllWithin c.peers

insert-AllWithin :
    (n : String) (peer : Peer) (peers : Dict Peer)
    → AllWithin peers
    → IsWithin peer
    → AllWithin (insert n peer peers)
insert-AllWithin n peer peers within own k q e = elim (Bool-cases (str_eq n k)) [
  | inl same ↦
      let is : peer ≡ q = ground (arith, lookup-insert n k peer peers) in subst IsWithin is own
  | inr other ↦ within k q (ground (arith, lookup-insert n k peer peers))
]

send-Within :
    (to : Option String) (command : Command) (c : Coordinator)
    → Within c
    → Ensures Within (send to command c)
send-Within to command c h = send-Ensures (λ peers transfers. AllWithin peers) to command c h

module _ (name : String) (peer : Peer) (w : Pending) (c : Coordinator) (within : Within c)
    (own : IsWithin peer) where
  released-Within : Ensures Within (on_released name peer w c)
  unfolding on_released store store_peer release_compute
  released-Within =
      if-cases (Ensures Within) (same_role peer.role Role.prefill && not w.p_released)
        (λ t.
          let kept = insert-AllWithin name _ c.peers within (ground arith) in
          if-cases (Ensures Within) (w.cancelled && not w.d_released)
            (λ g. send-Within w.d _ _ kept) (λ g. kept))
        (λ f.
          if-cases (Ensures Within) (same_role peer.role Role.decode && not w.d_released)
            (λ t. insert-AllWithin name _ c.peers within (ground arith)) (λ g. within))

  on_event-Within : (now : ℕ) (e : Event) → Ensures Within (on_event now name peer w e c)
  unfolding on_event on_reserved on_prefill_complete on_committed on_activated on_output store
      store_peer release_compute
  on_event-Within now (Event.reserved tables slot cached) =
      if-cases (Ensures Within) w.cancelled (λ t. send-Within w.d _ _ within)
        (λ f. bind-Ensures Within (get_peer w.d c) _ (λ d e. send-Within w.p _ _ within))
  on_event-Within now Event.prefill_started = within
  on_event-Within now Event.prefill_complete =
      insert-AllWithin name (release_compute w peer) c.peers within (ground arith)
  on_event-Within now (Event.committed count) =
      if-cases (Ensures Within) w.cancelled (λ t. within) (λ f. send-Within w.d _ _ within)
  on_event-Within now Event.activated = send-Within w.p _ _ within
  on_event-Within now (Event.output delivered) =
      if-cases Within w.cancelled (λ t. within)
        (λ f. if-cases Within delivered.finished (λ t. within) (λ g. within))
  on_event-Within now Event.released = released-Within
  on_event-Within now Event.rejected = tt
  on_event-Within now Event.unknown = tt

retire-Within : (tid : String) (c : Coordinator) → Within c → Within (retire tid c)
unfolding retire
retire-Within tid c within = elim (Option-cases (lookup tid c.transfers)) [
  | inl e ↦ rw (e, retire) within
  | inr e ↦
      rw (e.1, retire)
        (if-cases Within (e.0.p_released && e.0.d_released) (λ t. within) (λ f. within))
]

after_event-Within :
    (early : Bool) (tid : String) (c : Coordinator) → Within c → Within (after_event early tid c)
unfolding after_event count_blocks
after_event-Within true tid c within = within
after_event-Within false tid c within = retire-Within tid c within

-- The worker's pools do not change after the start.
abbrev pub IsRunning : Message → Type 0
IsRunning m = ((info : Info) → m ≡ Message.ready info → ⊥)

pub message-Within :
    (clock : ℕ) (name : String) (peer : Peer) (m : Message) (c : Coordinator)
    → Within c
    → lookup name c.peers ≡ some peer
    → IsRunning m
    → Ensures Within (message clock name peer m c)
unfolding message on_transfer on_profile_reply
message-Within clock name peer (Message.profile_reply control session reply) c within here h =
    elim (Option-cases (lookup control c.profile_replies)) [
      | inl e ↦ rw (e, on_profile_reply) within
      | inr e ↦
          rw (e.1, on_profile_reply)
            (if-cases Within (names c.profile_session session) (λ t. within) (λ f. within))
    ]
message-Within clock name peer Message.fatal c within here h = tt
message-Within clock name peer (Message.ready info) c within here h = absurd (h info refl)
message-Within clock name peer Message.connected c within here h =
    insert-AllWithin name _ c.peers within (within name peer here)
message-Within clock name peer Message.stopped c within here h =
    insert-AllWithin name _ c.peers within (within name peer here)
message-Within clock name peer (Message.transfer tid e) c within here h =
    elim (Option-cases (lookup tid c.transfers)) [
      | inl none_at ↦ rw (none_at, on_transfer) within
      | inr at ↦
          let w = at.0 in
          rw (at.1, on_transfer)
            (if-cases (Ensures Within) (names w.p name || names w.d name)
              (λ t. bind-Ensures Within (on_event (clock - w.created) name peer w e c) _ (λ c' got.
                after_event-Within (returns_early e w) tid c' (
                  Ensures-ok Within (on_event (clock - w.created) name peer w e c) got (
                    on_event-Within name peer w c within (within name peer here) (clock - w.created)
                      e))))
              (λ f. tt))
    ]
