-- ===== src/Coordinator/Credits.antt =====
-- The credits that the coordinator of vllm_rlt/pd/engine.py holds on its workers: what each transfer
-- holds, and the books that agree with it.
pub mod Events
pub mod Received
pub mod Admitted
pub mod Capacity
pub mod Asked
use vllm_rlt.Common.{
  ℕ, ◌+◌, ◌-◌, ◌≤◌, ◌≡◌, refl, sym, ap, subst, ◌∙◌, ◌⊎◌, inl, inr, Bool, true, false, not, ◌&&◌,
  ◌||◌, List, [], ◌∷◌, Option, none, some, String, Dict, lookup, insert, remove, total, Result, ok,
  err, Ensures, Returns, str_eq, str_eq_iff, if◌then◌else◌, arith, Bool-cases, lookup-insert,
  total-remove, All, All-mono, All-insert_keyed, All-remove_keyed, Option-cases, total-insert_old,
  total-insert_new, le-total_of_lookup,
}
use vllm_rlt.Coordinator.State.{Role, Peer, is_waiting, Pending, Command, Coordinator, send}
use vllm_rlt.Coordinator.Messages.{names}

-- What a transfer holds on the worker `n`.
abbrev pub blocks_due : String → Pending → ℕ
blocks_due n w =
    (if names w.p n && not w.p_released then w.p_blocks else 0)
    + (if names w.d n && not w.d_released then w.d_blocks else 0)

abbrev pub slots_due : String → Pending → ℕ
slots_due n w =
    (if names w.p n && not w.p_released then 1 else 0)
    + (if names w.d n && not w.d_released then 1 else 0)

abbrev pub compute_due : String → Pending → ℕ
compute_due n w = if names w.p n && not w.p_compute_released then 1 else 0

-- The counters of a worker are the sums of what the transfers hold on it.
pub record IsBalanced (n : String) (peer : Peer) (transfers : Dict Pending) : Type 0 where
  pub blocks : peer.blocks ≡ total (blocks_due n) transfers
  pub slots : peer.slots ≡ total (slots_due n) transfers
  pub compute : peer.compute_slots ≡ total (compute_due n) transfers

abbrev pub role_of : String → Dict Peer → Option Role
role_of n peers = elim (lookup n peers) [ none ↦ none | some peer ↦ some peer.role ]

-- A transfer is idle before its admission, and after it placed on a worker of each role.
pub data Wired (peers : Dict Peer) (waiting : Bool) (p d : Option String)
    (p_released p_compute d_released : Bool) : Type 0 where
  idle :
      waiting ≡ true
      → p ≡ none
      → d ≡ none
      → p_released ≡ false
      → p_compute ≡ false
      → d_released ≡ false
      → Wired peers waiting p d p_released p_compute d_released
  placed :
      (n k : String)
      → waiting ≡ false
      → p ≡ some n
      → d ≡ some k
      → role_of n peers ≡ some Role.prefill
      → role_of k peers ≡ some Role.decode
      → (p_released ≡ true → p_compute ≡ true)
      → Wired peers waiting p d p_released p_compute d_released

abbrev pub IsWired : Dict Peer → Pending → Type 0
IsWired peers w =
    Wired peers (is_waiting w.phase) w.p w.d w.p_released w.p_compute_released w.d_released

-- The entry of a transfer stands under its id.
abbrev pub IsKept : Dict Peer → String × Pending → Type 0
IsKept peers e = (e.1.tid ≡ e.0) × IsWired peers e.1

pub record IsCredited (peers : Dict Peer) (transfers : Dict Pending) : Type 0 where
  pub balanced :
      (n : String) (peer : Peer) → lookup n peers ≡ some peer → IsBalanced n peer transfers
  pub wired : All (IsKept peers) transfers

-- A worker's counters follow a change of one transfer.
abbrev pub Moved : String → Pending → Pending → Peer → Peer → Type 0
Moved n w w' peer peer' =
    (peer'.blocks + blocks_due n w ≡ peer.blocks + blocks_due n w')
    × (peer'.slots + slots_due n w ≡ peer.slots + slots_due n w')
    × (peer'.compute_slots + compute_due n w ≡ peer.compute_slots + compute_due n w')

Wired-roles :
    {waiting : Bool} {p d : Option String} {pr pc dr : Bool} (peers peers' : Dict Peer)
    → ((n : String) → role_of n peers' ≡ role_of n peers)
    → Wired peers waiting p d pr pc dr
    → Wired peers' waiting p d pr pc dr
Wired-roles peers peers' same (Wired.idle a b c x y z) = Wired.idle a b c x y z
Wired-roles peers peers' same (Wired.placed n k a b c x y z) =
    Wired.placed n k a b c (same n ∙ x) (same k ∙ y) z

-- One transfer and the workers' counters change together.
pub store-IsCredited :
    (peers peers' : Dict Peer) (transfers : Dict Pending) (w w' : Pending)
    → IsCredited peers transfers
    → lookup w.tid transfers ≡ some w
    → w'.tid ≡ w.tid
    → ((n : String) → role_of n peers' ≡ role_of n peers)
    → ((n : String) (peer' : Peer)
        → lookup n peers' ≡ some peer'
        → (peer : Peer) × (lookup n peers ≡ some peer) × Moved n w w' peer peer')
    → IsWired peers' w'
    → IsCredited peers' (insert w.tid w' transfers)
store-IsCredited peers peers' transfers w w' sound found tid roles moved wired = record {
  balanced = λ n peer' e.
      let m = moved n peer' e in
      let b = sound.balanced n m.0 m.1 in
      let sums : (f : Pending → ℕ)
          → total f (insert w.tid w' transfers) + f w ≡ total f transfers + f w' =
        λ f. total-insert_old f w.tid w' w transfers found in
      record {
        blocks = omega (arith, m.2.0, b.blocks, sums (blocks_due n));
        slots = omega (arith, m.2.1, b.slots, sums (slots_due n));
        compute = omega (arith, m.2.2, b.compute, sums (compute_due n));
      };
  wired =
      All-insert_keyed (IsKept peers') w.tid w' transfers (tid, wired)
        (All-mono transfers (λ e h. (h.0, Wired-roles peers peers' roles h.1)) sound.wired);
}

abbrev pub SameDues : Pending → Pending → Type 0
SameDues w w' =
    (n : String)
    → (blocks_due n w' ≡ blocks_due n w)
      × (slots_due n w' ≡ slots_due n w)
      × (compute_due n w' ≡ compute_due n w)

-- A change that moves no credits.
pub keep-IsCredited :
    (peers : Dict Peer) (transfers : Dict Pending) (w w' : Pending)
    → IsCredited peers transfers
    → lookup w.tid transfers ≡ some w
    → w'.tid ≡ w.tid
    → SameDues w w'
    → IsWired peers w'
    → IsCredited peers (insert w.tid w' transfers)
keep-IsCredited peers transfers w w' sound found tid same wired =
    store-IsCredited peers peers transfers w w' sound found tid (λ n. refl)
      (λ n peer e. (
        peer,
        e,
        (omega (arith, (same n).0), omega (arith, (same n).1), omega (arith, (same n).2)),
      ))
      wired

pub role_of-insert :
    (n k : String) (peer peer' : Peer) (peers : Dict Peer)
    → lookup n peers ≡ some peer
    → peer'.role ≡ peer.role
    → role_of k (insert n peer' peers) ≡ role_of k peers
role_of-insert n k peer peer' peers found role =
    ground (arith, lookup-insert n k peer' peers, str_eq_iff n k)

-- A change that moves credits on one worker.
pub move-IsCredited :
    (n : String) (peer peer' : Peer) (peers : Dict Peer) (transfers : Dict Pending) (w w' : Pending)
    → IsCredited peers transfers
    → lookup w.tid transfers ≡ some w
    → lookup n peers ≡ some peer
    → w'.tid ≡ w.tid
    → peer'.role ≡ peer.role
    → Moved n w w' peer peer'
    → ((k : String) → str_eq n k ≡ false → (q : Peer) → Moved k w w' q q)
    → IsWired peers w'
    → IsCredited (insert n peer' peers) (insert w.tid w' transfers)
move-IsCredited n peer peer' peers transfers w w' sound found here tid role moved apart wired =
    let roles : (k : String) → role_of k (insert n peer' peers) ≡ role_of k peers =
      λ k. role_of-insert n k peer peer' peers here role in
    store-IsCredited peers (insert n peer' peers) transfers w w' sound found tid roles
      (λ k q e. elim (Bool-cases (str_eq n k)) [
        | inl same ↦
            let at : n ≡ k = (str_eq_iff n k).0 same in
            let is : peer' ≡ q = ground (arith, lookup-insert n k peer' peers) in
            (
              peer,
              subst (λ i. lookup i peers ≡ some peer) at here,
              subst (λ i. Moved i w w' peer q) at (subst (Moved n w w' peer) is moved),
            )
        | inr other ↦ (q, ground (arith, lookup-insert n k peer' peers), apart k other q)
      ])
      (Wired-roles peers (insert n peer' peers) roles wired)

-- A transfer that holds nothing can be removed.
pub remove-IsCredited :
    (peers : Dict Peer) (transfers : Dict Pending) (tid : String) (w : Pending)
    → IsCredited peers transfers
    → lookup tid transfers ≡ some w
    → ((n : String) → (blocks_due n w ≡ 0) × (slots_due n w ≡ 0) × (compute_due n w ≡ 0))
    → IsCredited peers (remove tid transfers)
remove-IsCredited peers transfers tid w sound found none_due = record {
  balanced = λ n peer e.
      let b = sound.balanced n peer e in
      let sums : (f : Pending → ℕ) → total f (remove tid transfers) + f w ≡ total f transfers =
        λ f. total-remove f tid w transfers found in
      record {
        blocks = omega (arith, (none_due n).0, b.blocks, sums (blocks_due n));
        slots = omega (arith, (none_due n).1, b.slots, sums (slots_due n));
        compute = omega (arith, (none_due n).2, b.compute, sums (compute_due n));
      };
  wired = All-remove_keyed (IsKept peers) tid transfers sound.wired;
}

pub new-IsCredited :
    (peers : Dict Peer) (transfers : Dict Pending) (w : Pending)
    → IsCredited peers transfers
    → lookup w.tid transfers ≡ none
    → ((n : String) → (blocks_due n w ≡ 0) × (slots_due n w ≡ 0) × (compute_due n w ≡ 0))
    → IsWired peers w
    → IsCredited peers (insert w.tid w transfers)
new-IsCredited peers transfers w sound fresh none_due wired = record {
  balanced = λ n peer e.
      let b = sound.balanced n peer e in
      let sums : (f : Pending → ℕ) → total f (insert w.tid w transfers) ≡ total f transfers + f w =
        λ f. total-insert_new f w.tid w transfers fresh in
      record {
        blocks = omega (arith, (none_due n).0, b.blocks, sums (blocks_due n));
        slots = omega (arith, (none_due n).1, b.slots, sums (slots_due n));
        compute = omega (arith, (none_due n).2, b.compute, sums (compute_due n));
      };
  wired = All-insert_keyed (IsKept peers) w.tid w transfers (refl, wired) sound.wired;
}

-- What a worker's counters hold of one transfer.
pub due-le :
    (peers : Dict Peer) (transfers : Dict Pending) (tid n : String) (w : Pending) (peer : Peer)
    → IsCredited peers transfers
    → lookup tid transfers ≡ some w
    → lookup n peers ≡ some peer
    → (blocks_due n w ≤ peer.blocks)
      × (slots_due n w ≤ peer.slots)
      × (compute_due n w ≤ peer.compute_slots)
due-le peers transfers tid n w peer sound found here =
    let b = sound.balanced n peer here in
    (
      omega (arith, b.blocks, le-total_of_lookup (blocks_due n) tid w transfers found),
      omega (arith, b.slots, le-total_of_lookup (slots_due n) tid w transfers found),
      omega (arith, b.compute, le-total_of_lookup (compute_due n) tid w transfers found),
    )

-- What is sent changes neither the workers nor the transfers.
pub send-Ensures {ℓ} :
    (P : Dict Peer → Dict Pending → Type ℓ) (to : Option String) (command : Command)
    (c : Coordinator)
    → P c.peers c.transfers
    → Ensures (λ c'. P c'.peers c'.transfers) (send to command c)
unfolding send
send-Ensures P none command c h = tt
send-Ensures P (some name) command c h = elim (Option-cases (lookup name c.peers)) [
  | inl e ↦ rw (e, send) tt
  | inr e ↦ rw (e.1, send) h
]

-- A command to a worker that is known is sent.
pub send-Returns :
    (P : Dict Peer → Dict Pending → Type 0) (name : String) (peer : Peer) (command : Command)
    (c : Coordinator)
    → lookup name c.peers ≡ some peer
    → P c.peers c.transfers
    → Returns (λ c'. P c'.peers c'.transfers) (send (some name) command c)
unfolding send
send-Returns P name peer command c here h = rw (here, send) h
