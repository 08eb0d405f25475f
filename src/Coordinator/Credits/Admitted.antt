-- ===== src/Coordinator/Credits/Admitted.antt =====
-- `_admit` of vllm_rlt/pd/engine.py takes credits only where they are free, and books them.
use vllm_rlt.Common.{
  ℕ, ◌+◌, ◌-◌, ◌≤◌, ◌≡◌, refl, sym, ap, subst, ◌∙◌, ◌⊎◌, inl, inr, Bool, true, false, not, ◌&&◌,
  ◌||◌, List, [], ◌∷◌, Option, none, some, String, Dict, lookup, insert, Returns, bind-Returns,
  str_eq_refl, str_eq, str_eq_iff, arith, Bool-cases, Option-cases, if-cases, All-lookup_keyed,
  lookup-insert,
}
use vllm_rlt.Coordinator.State.{
  Role, same_role, Peer, Pending, is_waiting, Phase, Command, Coordinator,
}
use vllm_rlt.Coordinator.Messages.{names, timed, store, store_peer}
use vllm_rlt.Coordinator.Requests.{role_tokens}
use vllm_rlt.Coordinator.Admission.{
  is_eligible, replaces, lightest, keys, choose, needed, book, assign, offer_credits, admit_one,
  admit_each, scanned, admit_waiting,
}
use vllm_rlt.Coordinator.Credits.{
  Wired, IsKept, IsCredited, Moved, role_of, role_of-insert, store-IsCredited, send-Returns,
}
use vllm_rlt.Coordinator.Credits.Events.{Credited, same_role_eq}

-- A worker within its capacity.
abbrev pub IsWithin : Peer → Type 0
IsWithin peer =
    (peer.blocks ≤ peer.info.num_blocks)
    × (peer.slots ≤ peer.info.max_seqs)
    × (same_role peer.role Role.prefill ≡ true → peer.compute_slots ≤ peer.info.active_limit)

abbrev pub AllWithin : Dict Peer → Type 0
AllWithin peers = (n : String) (peer : Peer) → lookup n peers ≡ some peer → IsWithin peer

-- A worker that was chosen.
abbrev Chosen : Role → ℕ → Dict Peer → Option (String × Peer) → Type 0
Chosen role tokens peers none = Unit
Chosen role tokens peers (some q) =
    (lookup q.0 peers ≡ some q.1) × (is_eligible role tokens q.1 ≡ true)

lightest-Chosen :
    (role : Role) (tokens : ℕ) (peers : Dict Peer) (ns : List String)
    (best : Option (String × Peer))
    → Chosen role tokens peers best
    → Chosen role tokens peers (lightest role tokens peers ns best)
unfolding lightest
lightest-Chosen role tokens peers [] best h = h
lightest-Chosen role tokens peers (n ∷ ns) best h = elim (Option-cases (lookup n peers)) [
  | inl e ↦ rw (e, lightest) (lightest-Chosen role tokens peers ns best h)
  | inr e ↦
      rw (e.1, lightest)
        (lightest-Chosen role tokens peers ns _ (
          if-cases (Chosen role tokens peers) (is_eligible role tokens e.0 && replaces e.0 best)
            (λ t. (e.1, ground arith)) (λ f. h)))
]

chosen_role :
    (role : Role) (tokens : ℕ) (q : Peer) → is_eligible role tokens q ≡ true → q.role ≡ role
unfolding is_eligible
chosen_role role tokens q h = same_role_eq q.role role (ground arith)

abbrev pub IsIdle : Option String → Option String → Bool → Bool → Bool → Type 0
IsIdle p d pr pc dr = (p ≡ none) × (d ≡ none) × (pr ≡ false) × (pc ≡ false) × (dr ≡ false)

pub nothing_held :
    {waiting : Bool} {p d : Option String} {pr pc dr : Bool} {peers : Dict Peer}
    → Wired peers waiting p d pr pc dr
    → waiting ≡ true
    → IsIdle p d pr pc dr
nothing_held (Wired.idle a b c x y z) h = (b, c, x, y, z)
nothing_held (Wired.placed n k a b c x y z) h = absurd (ground arith)

at_role :
    (n : String) (peer : Peer) (role : Role) (peers : Dict Peer)
    → lookup n peers ≡ some peer
    → peer.role ≡ role
    → role_of n peers ≡ some role
at_role n peer role peers here e = rw (here, role_of) (ap some e)

clash : (a b : Peer) → a ≡ b → a.role ≡ Role.prefill → b.role ≡ Role.decode → ⊥
clash a b same x y = cc

-- Credits on two workers, for a transfer that waits.
module _ (clock : ℕ) (w : Pending) (p d : String × Peer) (c : Coordinator)
    (found : lookup w.tid c.transfers ≡ some w) (p_here : lookup p.0 c.peers ≡ some p.1)
    (d_here : lookup d.0 c.peers ≡ some d.1) (p_role : p.1.role ≡ Role.prefill)
    (d_role : d.1.role ≡ Role.decode) where
  apart_names : str_eq p.0 d.0 ≡ false
  apart_names = elim (Bool-cases (str_eq p.0 d.0)) [
    | inl same ↦
        let e : p.0 ≡ d.0 = (str_eq_iff p.0 d.0).0 same in
        let h : lookup p.0 c.peers ≡ some d.1 =
          subst (λ i. lookup i c.peers ≡ some d.1) (sym e) d_here in
        absurd (clash p.1 d.1 (ground arith) p_role d_role)
    | inr apart ↦ apart
  ]

  abbrev p' : Peer
  p' = record (p.1) {
    blocks = p.1.blocks + needed Role.prefill w p.1;
    slots = p.1.slots + 1;
    compute_slots = p.1.compute_slots + 1;
  }

  abbrev d' : Peer
  d' = record (d.1) { blocks = d.1.blocks + needed Role.decode w d.1; slots = d.1.slots + 1 }

  abbrev peers' : Dict Peer
  peers' = insert d.0 d' (insert p.0 p' c.peers)

  d_still : lookup d.0 (insert p.0 p' c.peers) ≡ some d.1
  d_still = ground (arith, lookup-insert p.0 d.0 p' c.peers, apart_names)

  roles : (n : String) → role_of n peers' ≡ role_of n c.peers
  roles n =
      role_of-insert d.0 n d.1 d' (insert p.0 p' c.peers) d_still refl
      ∙ role_of-insert p.0 n p.1 p' c.peers p_here refl

  -- A worker after the booking: one of the two, or as it was.
  peers'-cases :
      (n : String) (q : Peer)
      → lookup n peers' ≡ some q
      → ((str_eq p.0 n ≡ true) × (q ≡ p'))
        ⊎ (((str_eq d.0 n ≡ true) × (q ≡ d'))
            ⊎ ((lookup n c.peers ≡ some q) × (str_eq p.0 n ≡ false) × (str_eq d.0 n ≡ false)))
  peers'-cases n q e = elim (Bool-cases (str_eq d.0 n)) [
    | inl same ↦ inr (inl (same, ground (arith, lookup-insert d.0 n d' (insert p.0 p' c.peers))))
    | inr other ↦ elim (Bool-cases (str_eq p.0 n)) [
      | inl same ↦ inl (
        same,
        ground
            (arith, lookup-insert d.0 n d' (insert p.0 p' c.peers), lookup-insert p.0 n p' c.peers),
      )
      | inr apart ↦ inr (
          inr (
            ground (
              arith,
              lookup-insert d.0 n d' (insert p.0 p' c.peers),
              lookup-insert p.0 n p' c.peers,
            ),
            apart,
            other,
          ))
    ]
  ]

  abbrev w' : Pending
  w' = timed "admitted" (clock - w.created) (record w {
    p = some p.0;
    d = some d.0;
    p_blocks = needed Role.prefill w p.1;
    d_blocks = needed Role.decode w d.1;
    phase = Phase.reserving;
  })

  moves :
      IsIdle w.p w.d w.p_released w.p_compute_released w.d_released
      → (n : String) (q : Peer) → lookup n peers' ≡ some q
      → (before : Peer) × (lookup n c.peers ≡ some before) × Moved n w w' before q
  unfolding timed
  moves idle n q at =
      let no_p : names w.p n ≡ false = rw (idle.0) refl in
      let no_d : names w.d n ≡ false = rw (idle.1) refl in
      let pr = idle.2 in
      let pc = idle.3 in
      let dr = idle.4 in
      elim (peers'-cases n q at) [
        | inl h ↦
            let e : p.0 ≡ n = (str_eq_iff p.0 n).0 h.0 in
            let apart : str_eq d.0 n ≡ false =
              ground (arith, str_eq_iff d.0 n, str_eq_iff p.0 n, str_eq_iff p.0 d.0, apart_names) in
            (
              p.1,
              subst (λ i. lookup i c.peers ≡ some p.1) e p_here,
              subst (Moved n w w' p.1) (sym h.1) (ground arith),
            )
        | inr h ↦ elim h [
          | inl k ↦
              let e : d.0 ≡ n = (str_eq_iff d.0 n).0 k.0 in
              let apart : str_eq p.0 n ≡ false =
                ground
                  (arith, str_eq_iff d.0 n, str_eq_iff p.0 n, str_eq_iff p.0 d.0, apart_names) in
              (
                d.1,
                subst (λ i. lookup i c.peers ≡ some d.1) e d_here,
                subst (Moved n w w' d.1) (sym k.1) (ground arith),
              )
          | inr k ↦ (q, k.0, ground arith)
        ]
      ]

  book-Credited : Credited c → is_waiting w.phase ≡ true → Credited (book clock w p d c)
  unfolding book store store_peer
  book-Credited sound waiting =
      let wired = (All-lookup_keyed (IsKept c.peers) w.tid w c.transfers sound.wired found).1 in
      let idle = nothing_held wired waiting in
      store-IsCredited c.peers peers' c.transfers w w' sound found refl roles (moves idle) (
        Wired.placed p.0 d.0 refl refl refl
          (roles p.0 ∙ at_role p.0 p.1 Role.prefill c.peers p_here p_role)
          (roles d.0 ∙ at_role d.0 d.1 Role.decode c.peers d_here d_role)
          (λ h. absurd (let e = idle.2 in ground arith)))

  book-AllWithin :
      AllWithin c.peers
      → is_eligible Role.prefill
          (role_tokens Role.prefill w.request.prompt_token_ids w.request.sampling_params)
          p.1
        ≡ true
      → is_eligible Role.decode
          (role_tokens Role.decode w.request.prompt_token_ids w.request.sampling_params)
          d.1
        ≡ true
      → AllWithin (book clock w p d c).peers
  unfolding book store store_peer is_eligible needed
  book-AllWithin within hp hd n q at = elim (peers'-cases n q at) [
    | inl h ↦ subst IsWithin (sym h.1) (ground arith)
    | inr h ↦ elim h [
      | inl k ↦ subst IsWithin (sym k.1) (let own = within d.0 d.1 d_here in ground arith)
      | inr k ↦ within n q k.0
    ]
  ]

-- The books are kept and the workers are within capacity.
abbrev pub IsBooked : Coordinator → Type 0
IsBooked c = Credited c × AllWithin c.peers

assign-IsBooked :
    (clock : ℕ) (w : Pending) (p d : String × Peer) (c : Coordinator)
    → IsBooked c
    → lookup w.tid c.transfers ≡ some w
    → is_waiting w.phase ≡ true
    → Chosen Role.prefill
        (role_tokens Role.prefill w.request.prompt_token_ids w.request.sampling_params)
        c.peers
        (some p)
    → Chosen Role.decode
        (role_tokens Role.decode w.request.prompt_token_ids w.request.sampling_params)
        c.peers
        (some d)
    → Returns IsBooked (assign clock w p d c)
unfolding assign book store store_peer
assign-IsBooked clock w p d c booked found waiting hp hd =
    let p_role = chosen_role Role.prefill _ p.1 hp.1 in
    let d_role = chosen_role Role.decode _ d.1 hd.1 in
    send-Returns (λ peers transfers. IsCredited peers transfers × AllWithin peers) d.0
      (record (d.1) { blocks = d.1.blocks + needed Role.decode w d.1; slots = d.1.slots + 1 })
      (Command.reserve w.tid w.request.prompt_token_ids w.request.sampling_params w.trace_id
        p.1.info.agent)
      (book clock w p d c)
      (ground (
        arith,
        lookup-insert d.0 d.0
            (record (d.1) { blocks = d.1.blocks + needed Role.decode w d.1; slots = d.1.slots + 1 })
            (insert p.0
              (record (p.1) {
                blocks = p.1.blocks + needed Role.prefill w p.1;
                slots = p.1.slots + 1;
                compute_slots = p.1.compute_slots + 1;
              })
              c.peers),
        str_eq_refl d.0,
      ))
      (
        book-Credited clock w p d c found hp.0 hd.0 p_role d_role booked.0 waiting,
        book-AllWithin clock w p d c found hp.0 hd.0 p_role d_role booked.1 hp.1 hd.1,
      )

offer_credits-IsBooked :
    (clock : ℕ) (w : Pending) (p d : Option (String × Peer)) (c : Coordinator)
    → IsBooked c
    → lookup w.tid c.transfers ≡ some w
    → is_waiting w.phase ≡ true
    → Chosen Role.prefill
        (role_tokens Role.prefill w.request.prompt_token_ids w.request.sampling_params)
        c.peers
        p
    → Chosen Role.decode
        (role_tokens Role.decode w.request.prompt_token_ids w.request.sampling_params)
        c.peers
        d
    → Returns (λ step. IsBooked step.1) (offer_credits clock w p d c)
unfolding offer_credits
offer_credits-IsBooked clock w none d c booked found waiting hp hd = booked
offer_credits-IsBooked clock w (some p) none c booked found waiting hp hd = booked
offer_credits-IsBooked clock w (some p) (some d) c booked found waiting hp hd =
    bind-Returns IsBooked (λ step. IsBooked step.1) (assign clock w p d c) _
      (assign-IsBooked clock w p d c booked found waiting hp hd) (λ c' h. h)

admit_one-IsBooked :
    (clock : ℕ) (w : Pending) (c : Coordinator)
    → IsBooked c
    → lookup w.tid c.transfers ≡ some w
    → Returns (λ step. IsBooked step.1) (admit_one clock w c)
unfolding admit_one choose
admit_one-IsBooked clock w c booked found =
    if-cases (Returns (λ step. IsBooked step.1)) (w.cancelled || not (is_waiting w.phase))
      (λ t. booked)
      (λ f.
        offer_credits-IsBooked clock w (choose Role.prefill w c) (choose Role.decode w c) c booked
          found (ground arith) (lightest-Chosen Role.prefill _ c.peers (keys c.peers) none tt)
          (lightest-Chosen Role.decode _ c.peers (keys c.peers) none tt))

admit_each-IsBooked :
    (clock : ℕ) (tids : List String) (c : Coordinator)
    → IsBooked c
    → Returns IsBooked (admit_each clock tids c)
unfolding admit_each
admit_each-IsBooked clock [] c booked = booked
admit_each-IsBooked clock (tid ∷ tids) c booked = elim (Option-cases (lookup tid c.transfers)) [
  | inl e ↦ rw (e, admit_each) (admit_each-IsBooked clock tids c booked)
  | inr e ↦
      let kept = All-lookup_keyed (IsKept c.peers) tid e.0 c.transfers booked.0.wired e.1 in
      let found : lookup e.0.tid c.transfers ≡ some e.0 =
        subst (λ t. lookup t c.transfers ≡ some e.0) (sym kept.0) e.1 in
      rw (e.1, admit_each)
        (bind-Returns (λ s. IsBooked s.1) IsBooked (admit_one clock e.0 c) _
          (admit_one-IsBooked clock e.0 c booked found)
          (λ step next.
            if-cases (Returns IsBooked) step.0 (λ t. admit_each-IsBooked clock tids step.1 next)
              (λ f. next)))
]

-- A scan of `_admit` raises nothing, keeps the books of all workers, and admits a transfer only where the blocks, the
-- slots and the compute slots of both its workers stay within their capacity.
pub admit_waiting-IsBooked :
    (clock : ℕ) (c : Coordinator) → IsBooked c → Returns IsBooked (admit_waiting clock c)
unfolding admit_waiting
admit_waiting-IsBooked clock c booked = admit_each-IsBooked clock (scanned c) c booked
