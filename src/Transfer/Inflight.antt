-- ===== src/Transfer/Inflight.antt =====
-- The writes in flight of `NixlConnector` in vllm_rlt/pd/transport.py: `submit`, `poll`, `busy` and
-- `close`. The agent's answers are arguments; a ticket's `handle` stands for the agent's object.
use vllm_rlt.Common.{
  ℕ, ◌+◌, ◌-◌, ◌≤◌, ◌<◌, ◌≡◌, refl, ◌⊎◌, inl, inr, Bool, true, false, not, List, [], ◌∷◌, ◌++◌,
  String, Result, ok, err, value_error, runtime_error, timeout_error, ◌>>=◌, raise_if, ltb, str_eq,
  str_eq_refl, any, if◌then◌else◌, arith, Bool-cases,
}
use vllm_rlt.KvCache.State.{is_empty}

pub record Transfer : Type 0 where
  pub handle : ℕ
  pub transfer_id : String
  pub sequence : ℕ
  pub size : ℕ

-- `limit` and `chunk` are `max_inflight_bytes` and `transfer_chunk_bytes` of the configuration.
pub record Connector : Type 0 where
  pub transfer_chunk_bytes : ℕ
  pub max_inflight_bytes : ℕ
  pub pending : List Transfer
  pub inflight_bytes : ℕ
  pub bytes_sent : ℕ
  pub transfers : ℕ

-- The answers of `check_xfer_state`; `timed_out` is the test on the clock.
pub data Status : Type 0 where
  running done failed timed_out : Status

pub data Submitted : Type 0 where
  full queued : Submitted

-- `submit`; `accepts` is whether the agent takes the write. Where it does not, a RuntimeError is
-- raised with the ticket kept: the Boolean of the result.
unfoldable pub submit :
    String → ℕ → ℕ → ℕ → Bool → Connector → Result (Submitted × Bool × Connector)
submit transfer_id sequence size handle accepts c =
    if ltb c.transfer_chunk_bytes size
    then err value_error
    else if ltb c.max_inflight_bytes (c.inflight_bytes + size)
    then ok (full, false, c)
    else (let ticket : Transfer = record {
      handle = handle;
      transfer_id = transfer_id;
      sequence = sequence;
      size = size;
    } in
        ok (
          queued,
          not accepts,
          record c { pending = c.pending ++ ticket ∷ []; inflight_bytes = c.inflight_bytes + size },
        ))

-- The loop of `poll` over the pending tickets: those that remain, those finished, and the counters.
unfoldable pub poll_pending :
    (Transfer → Status) → List Transfer → Connector → Result (List Transfer × Connector)
poll_pending status [] c = ok ([], c)
poll_pending status (t ∷ tickets) c = elim (status t) [
  | failed ↦ err runtime_error
  | timed_out ↦ err timeout_error
  | running ↦ poll_pending status tickets (record c { pending = c.pending ++ t ∷ [] })
  | done ↦ do
    (finished, c') ← poll_pending status tickets (record c {
      inflight_bytes = c.inflight_bytes - t.size;
      bytes_sent = c.bytes_sent + t.size;
      transfers = c.transfers + 1;
    })
    ok (t ∷ finished, c')
]

unfoldable pub poll : (Transfer → Status) → Connector → Result (List Transfer × Connector)
unfolding poll_pending
poll status c = poll_pending status c.pending (record c { pending = [] })

unfoldable pub busy : String → Connector → Bool
busy transfer_id c = any (λ t. str_eq t.transfer_id transfer_id) c.pending

unfoldable pub close : Connector → Result (Unit {0})
close c = raise_if (not (is_empty c.pending)) runtime_error

unfoldable pub pending_bytes : List Transfer → ℕ
pending_bytes [] = 0
pending_bytes (t ∷ tickets) = t.size + pending_bytes tickets

pub no_bytes : pending_bytes [] ≡ 0
unfolding pending_bytes
no_bytes = refl

pub pending_bytes-append :
    (ts : List Transfer) (t : Transfer) → pending_bytes (ts ++ t ∷ []) ≡ pending_bytes ts + t.size
unfolding pending_bytes
pending_bytes-append [] t = omega arith
pending_bytes-append (x ∷ ts) t = omega (arith, pending_bytes-append ts t)

-- The counter is the size of the writes in flight, and within the limit.
pub record IsAccounted (c : Connector) : Type 0 where
  pub counted : c.inflight_bytes ≡ pending_bytes c.pending
  pub within : c.inflight_bytes ≤ c.max_inflight_bytes

any_append :
    (transfer_id : String) (ts : List Transfer) (t : Transfer)
    → str_eq t.transfer_id transfer_id ≡ true
    → any (λ x. str_eq x.transfer_id transfer_id) (ts ++ t ∷ []) ≡ true
any_append transfer_id [] t e = ground arith
any_append transfer_id (x ∷ ts) t e = ground (arith, any_append transfer_id ts t e)

-- A write that is too large is refused with a ValueError, and one that would pass the limit in
-- flight changes nothing. Otherwise the write is within both limits, its ticket is kept, even where
-- the agent fails, and the writes in flight stay counted and within the limit.
pub submit-IsAccounted :
    (transfer_id : String) (sequence size handle : ℕ) (accepts : Bool) (c : Connector)
    → IsAccounted c
    → ((submit transfer_id sequence size handle accepts c ≡ err value_error)
        × (c.transfer_chunk_bytes < size))
      ⊎ (((submit transfer_id sequence size handle accepts c ≡ ok (full, false, c))
            × (c.max_inflight_bytes < c.inflight_bytes + size))
          ⊎ ((c' : Connector) × (submit transfer_id sequence size handle accepts c
                ≡ ok (queued, not accepts, c'))
              × (size ≤ c.transfer_chunk_bytes)
              × (c.inflight_bytes + size ≤ c.max_inflight_bytes)
              × IsAccounted c'
              × (pending_bytes c'.pending ≡ pending_bytes c.pending + size)
              × (busy transfer_id c' ≡ true)))
unfolding submit busy
submit-IsAccounted transfer_id sequence size handle accepts c a =
    elim (Bool-cases (ltb c.transfer_chunk_bytes size)) [
      | inl large ↦ inl (rw large refl, ground arith)
      | inr fits ↦ elim (Bool-cases (ltb c.max_inflight_bytes (c.inflight_bytes + size))) [
        | inl over ↦ inr (inl (rw (fits, over) refl, ground arith))
        | inr room ↦
            let ticket : Transfer = record {
              handle = handle;
              transfer_id = transfer_id;
              sequence = sequence;
              size = size;
            } in
            let more = pending_bytes-append c.pending ticket in
            inr (
              inr (
                record c {
                  pending = c.pending ++ ticket ∷ [];
                  inflight_bytes = c.inflight_bytes + size;
                },
                rw (fits, room) refl,
                ground arith,
                ground arith,
                record { counted = omega (arith, more, a.counted); within = ground arith },
                more,
                any_append transfer_id c.pending ticket (str_eq_refl transfer_id),
              ))
      ]
    ]
