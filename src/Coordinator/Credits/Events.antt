-- ===== src/Coordinator/Credits/Events.antt =====
-- Every branch of `_message` of vllm_rlt/pd/engine.py keeps the credits balanced.
use vllm_rlt.Common.{
  ℕ, ◌-◌, ◌≡◌, refl, sym, subst, inl, inr, Bool, true, false, not, ◌&&◌, ◌||◌, List, Option, none,
  some, String, Dict, lookup, insert, Ensures, bind-Ensures, str_eq, str_eq_iff, arith, Bool-cases,
  if-cases, All-lookup_keyed,
}
use vllm_rlt.Scheduler.State.{RequestOutput}
use vllm_rlt.Coordinator.State.{
  Role, same_role, Peer, Phase, is_waiting, Pending, Event, Coordinator, get_peer,
}
use vllm_rlt.Coordinator.Messages.{
  names, timed, store, store_peer, release_compute, on_reserved, on_prefill_complete, on_committed,
  on_activated, set_default, on_output, on_released, on_event,
}
use vllm_rlt.Coordinator.Credits.{
  Wired, IsWired, IsKept, IsCredited, SameDues, role_of, keep-IsCredited, move-IsCredited, due-le,
  send-Ensures,
}

abbrev pub Credited : Coordinator → Type 0
Credited c = IsCredited c.peers c.transfers

same_role_refl : (role : Role) → same_role role role ≡ true
same_role_refl Role.prefill = refl
same_role_refl Role.decode = refl

pub same_role_eq : (a b : Role) → same_role a b ≡ true → a ≡ b
same_role_eq Role.prefill Role.prefill h = refl
same_role_eq Role.decode Role.decode h = refl
same_role_eq Role.prefill Role.decode h = absurd (ground arith)
same_role_eq Role.decode Role.prefill h = absurd (ground arith)

role_at :
    (peers : Dict Peer) (name : String) (peer : Peer) (role : Role)
    → lookup name peers ≡ some peer
    → role_of name peers ≡ some role
    → peer.role ≡ role
role_at peers name peer role here at = ground arith

-- Only a worker of the role has the name that a side of the transfer holds.
not_named :
    (peers : Dict Peer) (k name : String) (peer : Peer) (role : Role)
    → lookup name peers ≡ some peer
    → role_of k peers ≡ some role
    → same_role peer.role role ≡ false
    → names (some k) name ≡ false
not_named peers k name peer role here at other = elim (Bool-cases (str_eq k name)) [
  | inl same ↦
      let e : k ≡ name = (str_eq_iff k name).0 same in
      let r : role_of name peers ≡ some role = subst (λ i. role_of i peers ≡ some role) e at in
      let q : peer.role ≡ role = role_at peers name peer role here r in
      let same_roles : same_role role role ≡ false =
        subst (λ x. same_role x role ≡ false) q other in
      absurd (ground (arith, same_role_refl role))
  | inr apart ↦ apart
]

names_apart :
    (held : Option String) (name k : String)
    → names held name ≡ true
    → str_eq name k ≡ false
    → names held k ≡ false
names_apart none name k h apart = absurd (ground arith)
names_apart (some i) name k h apart =
    ground (arith, str_eq_iff i name, str_eq_iff i k, str_eq_iff name k)

-- Which side of a placed transfer a worker is.
at_prefill :
    {waiting : Bool} {p d : Option String} {pr pc dr : Bool} (peers : Dict Peer) (name : String)
    (peer : Peer)
    → lookup name peers ≡ some peer
    → Wired peers waiting p d pr pc dr
    → same_role peer.role Role.prefill ≡ true
    → (names p name || names d name) ≡ true
    → (names p name ≡ true) × (names d name ≡ false)
at_prefill peers name peer here (Wired.idle a b c x y z) role named =
    absurd (let h = rw (b, c) at named in ground arith)
at_prefill {d = d} peers name peer here (Wired.placed n k a b c x y z) role named =
    let q : peer.role ≡ Role.prefill = same_role_eq peer.role Role.prefill role in
    let free : names d name ≡ false =
      rw c (not_named peers k name peer Role.decode here y (rw q refl)) in
    (ground arith, free)

at_decode :
    {waiting : Bool} {p d : Option String} {pr pc dr : Bool} (peers : Dict Peer) (name : String)
    (peer : Peer)
    → lookup name peers ≡ some peer
    → Wired peers waiting p d pr pc dr
    → same_role peer.role Role.decode ≡ true
    → (names p name || names d name) ≡ true
    → (names d name ≡ true) × (names p name ≡ false)
at_decode peers name peer here (Wired.idle a b c x y z) role named =
    absurd (let h = rw (b, c) at named in ground arith)
at_decode {p = p} peers name peer here (Wired.placed n k a b c x y z) role named =
    let q : peer.role ≡ Role.decode = same_role_eq peer.role Role.decode role in
    let free : names p name ≡ false =
      rw b (not_named peers n name peer Role.prefill here x (rw q refl)) in
    (ground arith, free)

answered :
    {waiting : Bool} {p d : Option String} {pr pc dr : Bool} {peers : Dict Peer} (name : String)
    → Wired peers waiting p d pr pc dr
    → (names p name || names d name) ≡ true
    → waiting ≡ false
answered name (Wired.idle a b c x y z) named = absurd (let h = rw (b, c) at named in ground arith)
answered name (Wired.placed n k a b c x y z) named = a

rewire :
    {waiting : Bool} {p d : Option String} {pr pc dr : Bool} (peers : Dict Peer)
    (pr' pc' dr' : Bool)
    → Wired peers waiting p d pr pc dr
    → waiting ≡ false
    → ((pr ≡ true → pc ≡ true) → pr' ≡ true → pc' ≡ true)
    → Wired peers waiting p d pr' pc' dr'
rewire peers pr' pc' dr' (Wired.idle a b c x y z) handed_out h = absurd (ground arith)
rewire peers pr' pc' dr' (Wired.placed n k a b c x y z) handed_out h =
    Wired.placed n k a b c x y (h z)

-- What holds when a worker's message about the transfer `w` is handled.
module _ (name : String) (peer : Peer) (w : Pending) (c : Coordinator) (sound : Credited c)
    (found : lookup w.tid c.transfers ≡ some w) (here : lookup name c.peers ≡ some peer)
    (named : (names w.p name || names w.d name) ≡ true) where
  wired : IsWired c.peers w
  wired = (All-lookup_keyed (IsKept c.peers) w.tid w c.transfers sound.wired found).1

  handed_out : is_waiting w.phase ≡ false
  handed_out = answered name wired named

  keep :
      (w' : Pending) → w'.tid ≡ w.tid → SameDues w w' → IsWired c.peers w' → Credited (store w' c)
  unfolding store
  keep w' tid same kept =
      subst (λ t. IsCredited c.peers (insert t w' c.transfers)) (sym tid)
        (keep-IsCredited c.peers c.transfers w w' sound found tid same kept)

  keep_placed : Wired c.peers false w.p w.d w.p_released w.p_compute_released w.d_released
  keep_placed =
      subst (λ b. Wired c.peers b w.p w.d w.p_released w.p_compute_released w.d_released) handed_out
        wired

  on_reserved-Credited :
      (tables : List (List ℕ)) (slot cached now : ℕ)
      → Ensures Credited (on_reserved tables slot cached now w c)
  unfolding on_reserved timed store
  on_reserved-Credited tables slot cached now =
      if-cases (Ensures Credited) w.cancelled
        (λ t.
          send-Ensures IsCredited w.d _ _
            (keep (timed "d_reserved" now w) refl (λ n. (refl, refl, refl)) wired))
        (λ f. bind-Ensures Credited (get_peer w.d c) _ (λ d e. send-Ensures IsCredited w.p _ _ (
          keep (record (timed "d_reserved" now w) { phase = Phase.prefill }) refl
            (λ n. (refl, refl, refl)) keep_placed)))

  on_committed-Credited : (count now : ℕ) → Ensures Credited (on_committed count now w c)
  unfolding on_committed timed
  on_committed-Credited count now =
      let kept = keep (timed "prefill_submitted" now w) refl (λ n. (refl, refl, refl)) wired in
      if-cases (Ensures Credited) w.cancelled (λ t. kept)
        (λ f. send-Ensures IsCredited w.d _ _ kept)

  on_activated-Credited : (now : ℕ) → Ensures Credited (on_activated now w c)
  unfolding on_activated timed
  on_activated-Credited now = send-Ensures IsCredited w.p _ _ (
      keep (timed "d_activated" now (record w { phase = Phase.decode })) refl
        (λ n. (refl, refl, refl)) keep_placed)

  -- A worker that does not hold the prefill side moves no credits there.
  away : (k : String) → names w.p name ≡ true → str_eq name k ≡ false → names w.p k ≡ false
  away k at apart = names_apart w.p name k at apart

  on_prefill_complete-Credited :
      (now : ℕ)
      → same_role peer.role Role.prefill ≡ true
      → Credited (on_prefill_complete now name peer w c)
  unfolding on_prefill_complete timed store store_peer release_compute
  on_prefill_complete-Credited now role =
      let w' = timed "prefill_compute_completed" now (record w { p_compute_released = true }) in
      let side = at_prefill c.peers name peer here wired role named in
      let due = due-le c.peers c.transfers w.tid name w peer sound found here in
      move-IsCredited name peer (release_compute w peer) c.peers c.transfers w w' sound found here
        refl (ground arith) (ground arith)
        (λ k apart q. let free = away k side.0 apart in ground arith)
        (rewire c.peers w.p_released true w.d_released wired handed_out (λ h t. refl))

  on_output-Credited :
      (delivered : RequestOutput) (now : ℕ) → Credited (on_output delivered now w c)
  unfolding on_output timed store set_default
  on_output-Credited delivered now =
      if-cases Credited w.cancelled (λ t. sound)
        (λ f.
          let w' = record w {
            request = record (w.request) {
              generated_token_ids = delivered.token_ids;
              exit_depths = delivered.exit_depths;
            };
            timings = set_default "first_token" now w.timings;
          } in
          if-cases Credited delivered.finished
            (λ t.
              keep (timed "finished" now (record w' { finished = true })) refl
                (λ n. (refl, refl, refl)) wired)
            (λ g. keep w' refl (λ n. (refl, refl, refl)) wired))

  released_prefill :
      (same_role peer.role Role.prefill && not w.p_released) ≡ true
      → Credited (
          store
            (record w { p_released = true; p_compute_released = true })
            (store_peer name
              (record (release_compute w peer) {
                slots = (release_compute w peer).slots - 1;
                blocks = (release_compute w peer).blocks - w.p_blocks;
              })
              c))
  unfolding store store_peer release_compute
  released_prefill t =
      let role : same_role peer.role Role.prefill ≡ true = ground arith in
      let side = at_prefill c.peers name peer here wired role named in
      let due = due-le c.peers c.transfers w.tid name w peer sound found here in
      move-IsCredited name peer _ c.peers c.transfers w _ sound found here refl (ground arith)
        (ground arith) (λ k apart q. let free = away k side.0 apart in ground arith)
        (rewire c.peers true true w.d_released wired handed_out (λ h e. refl))

  released_decode :
      (same_role peer.role Role.decode && not w.d_released) ≡ true
      → Credited (
          store
            (record w { d_released = true })
            (store_peer name
              (record peer { slots = peer.slots - 1; blocks = peer.blocks - w.d_blocks })
              c))
  unfolding store store_peer
  released_decode t =
      let role : same_role peer.role Role.decode ≡ true = ground arith in
      let side = at_decode c.peers name peer here wired role named in
      let due = due-le c.peers c.transfers w.tid name w peer sound found here in
      move-IsCredited name peer _ c.peers c.transfers w _ sound found here refl refl (ground arith)
        (λ k apart q. let free = names_apart w.d name k side.0 apart in ground arith)
        (rewire c.peers w.p_released w.p_compute_released true wired handed_out (λ h. h))

  on_released-Credited : Ensures Credited (on_released name peer w c)
  unfolding on_released
  on_released-Credited =
      if-cases (Ensures Credited) (same_role peer.role Role.prefill && not w.p_released)
        (λ t.
          if-cases (Ensures Credited) (w.cancelled && not w.d_released)
            (λ g. send-Ensures IsCredited w.d _ _ (released_prefill t)) (λ g. released_prefill t))
        (λ f.
          if-cases (Ensures Credited) (same_role peer.role Role.decode && not w.d_released)
            (λ t. released_decode t) (λ g. sound))

  -- A worker reports the end of its prefill computation only where it is a prefill worker.
  abbrev pub IsExpected : Event → Type 0
  IsExpected e = e ≡ Event.prefill_complete → same_role peer.role Role.prefill ≡ true

  pub on_event-Credited :
      (now : ℕ) (e : Event) → IsExpected e → Ensures Credited (on_event now name peer w e c)
  unfolding on_event
  on_event-Credited now (Event.reserved tables slot cached) h =
      on_reserved-Credited tables slot cached now
  on_event-Credited now Event.prefill_started h =
      keep (timed "prefill_started" now w) refl (λ n. (refl, refl, refl)) wired
  on_event-Credited now Event.prefill_complete h = on_prefill_complete-Credited now (h refl)
  on_event-Credited now (Event.committed count) h = on_committed-Credited count now
  on_event-Credited now Event.activated h = on_activated-Credited now
  on_event-Credited now (Event.output delivered) h = on_output-Credited delivered now
  on_event-Credited now Event.released h = on_released-Credited
  on_event-Credited now Event.rejected h = tt
  on_event-Credited now Event.unknown h = tt
