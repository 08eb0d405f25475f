-- ===== src/Transfer/Polled.antt =====
-- `poll` of vllm_rlt/pd/transport.py: which writes leave the connector, and what it counts.
use vllm_rlt.Common.{
  ◌+◌, ◌-◌, ◌≤◌, ◌≡◌, refl, ap, ◌∙◌, ◌⊎◌, inl, inr, Bool, true, false, ◌||◌, List, [], ◌∷◌, ◌++◌,
  Result, ok, err, ◌>>=◌, any, length, if◌then◌else◌, arith,
}
use vllm_rlt.Transfer.Inflight.{
  Transfer, Connector, Status, poll_pending, poll, pending_bytes, pending_bytes-append, no_bytes,
  IsAccounted,
}

abbrev pub runs : Status → Bool
runs Status.running = true
runs Status.done = false
runs Status.failed = false
runs Status.timed_out = false

abbrev pub has_finished : Status → Bool
has_finished Status.running = false
has_finished Status.done = true
has_finished Status.failed = false
has_finished Status.timed_out = false

abbrev pub is_broken : Status → Bool
is_broken Status.running = false
is_broken Status.done = false
is_broken Status.failed = true
is_broken Status.timed_out = true

-- The tickets that pass a test, in their order.
abbrev pub chosen : (Transfer → Bool) → List Transfer → List Transfer
chosen test [] = []
chosen test (t ∷ tickets) = let rest = chosen test tickets in if test t then t ∷ rest else rest

Status-cases :
    (s : Status)
    → ((s ≡ Status.failed) ⊎ (s ≡ Status.timed_out)) ⊎ ((s ≡ Status.running) ⊎ (s ≡ Status.done))
Status-cases Status.running = inr (inl refl)
Status-cases Status.done = inr (inr refl)
Status-cases Status.failed = inl (inl refl)
Status-cases Status.timed_out = inl (inr refl)

append_step :
    (xs : List Transfer) (t : Transfer) (ys : List Transfer) → (xs ++ t ∷ []) ++ ys ≡ xs ++ (t ∷ ys)
append_step [] t ys = refl
append_step (x ∷ xs) t ys = ap (λ l. x ∷ l) (append_step xs t ys)

append_nil : (xs : List Transfer) → xs ≡ xs ++ []
append_nil [] = refl
append_nil (x ∷ xs) = ap (λ l. x ∷ l) (append_nil xs)

-- What the loop over `tickets` returns from a connector `c`.
abbrev pub Polled :
    (Transfer → Status) → List Transfer → Connector → Result (List Transfer × Connector) → Type 0
Polled status tickets c (err raised) = any (λ t. is_broken (status t)) tickets ≡ true
Polled status tickets c (ok (finished, c')) =
    (any (λ t. is_broken (status t)) tickets ≡ false)
    × (finished ≡ chosen (λ t. has_finished (status t)) tickets)
    × (c'.pending ≡ c.pending ++ chosen (λ t. runs (status t)) tickets)
    × IsAccounted c'
    × (c'.inflight_bytes + pending_bytes finished ≡ c.inflight_bytes)
    × (c'.bytes_sent ≡ c.bytes_sent + pending_bytes finished)
    × (c'.transfers ≡ c.transfers + length finished)

abbrev kept : Transfer → Connector → Connector
kept t c = record c { pending = c.pending ++ t ∷ [] }

abbrev retired : Transfer → Connector → Connector
retired t c = record c {
  inflight_bytes = c.inflight_bytes - t.size;
  bytes_sent = c.bytes_sent + t.size;
  transfers = c.transfers + 1;
}

running-Polled :
    (status : Transfer → Status) (t : Transfer) (tickets : List Transfer) (c : Connector)
    (r : Result (List Transfer × Connector))
    → status t ≡ Status.running
    → Polled status tickets (kept t c) r
    → Polled status (t ∷ tickets) c r
running-Polled status t tickets c (err raised) e h = rw e h
running-Polled status t tickets c (ok (finished, c')) e
      (none_broken, done, pending, a, flight, sent, count) =
    rw e (none_broken, done, pending ∙ append_step c.pending t _, a, flight, sent, count)

done-Polled :
    (status : Transfer → Status) (t : Transfer) (tickets : List Transfer) (c : Connector)
    (r : Result (List Transfer × Connector))
    → status t ≡ Status.done
    → t.size ≤ c.inflight_bytes
    → Polled status tickets (retired t c) r
    → Polled status (t ∷ tickets) c (r >>= (λ v. ok (t ∷ v.0, v.1)))
unfolding pending_bytes
done-Polled status t tickets c (err raised) e le h = rw e h
done-Polled status t tickets c (ok (finished, c')) e le
      (none_broken, done, pending, a, flight, sent, count) =
    rw e (
      none_broken,
      ap (λ l. t ∷ l) done,
      pending,
      a,
      omega (arith, flight, le),
      omega (arith, sent),
      omega (arith, count),
    )

poll_pending-Polled :
    (status : Transfer → Status) (tickets : List Transfer) (c : Connector)
    → c.inflight_bytes ≡ pending_bytes c.pending + pending_bytes tickets
    → c.inflight_bytes ≤ c.max_inflight_bytes
    → Polled status tickets c (poll_pending status tickets c)
unfolding poll_pending pending_bytes
poll_pending-Polled status [] c e within = (
  refl,
  refl,
  append_nil c.pending,
  record { counted = omega (arith, e); within = within },
  omega arith,
  omega arith,
  omega arith,
)
poll_pending-Polled status (t ∷ tickets) c e within = elim (Status-cases (status t)) [
  | inl (inl f) ↦
      rw (f, poll_pending) (ap (λ s. is_broken s || any (λ x. is_broken (status x)) tickets) f)
  | inl (inr f) ↦
      rw (f, poll_pending) (ap (λ s. is_broken s || any (λ x. is_broken (status x)) tickets) f)
  | inr (inl r) ↦
      let later =
        poll_pending-Polled status tickets (kept t c)
          (omega (arith, e, pending_bytes-append c.pending t)) within in
      let turn =
        running-Polled status t tickets c (poll_pending status tickets (kept t c)) r later in
      rw (r, poll_pending) turn
  | inr (inr d) ↦
      let later =
        poll_pending-Polled status tickets (retired t c) (omega (arith, e))
          (omega (arith, within)) in
      let turn =
        done-Polled status t tickets c (poll_pending status tickets (retired t c)) d
          (omega (arith, e)) later in
      rw (d, poll_pending) turn
]

-- A poll raises exactly where a pending write has failed or timed out. Otherwise the finished writes
-- leave in their order, those that still run stay in theirs, the bytes in flight are those of the
-- writes that stay, and the counters have the bytes and the number of the finished ones.
pub poll-Polled :
    (status : Transfer → Status) (c : Connector)
    → IsAccounted c
    → Polled status c.pending (record c { pending = [] }) (poll status c)
unfolding poll
poll-Polled status c a =
    poll_pending-Polled status c.pending (record c { pending = [] })
      (omega (arith, a.counted, no_bytes)) a.within
