-- ===== src/Coordinator/Admission.antt =====
-- `_admit` of `PDEngine` in vllm_rlt/pd/engine.py: waiting transfers get credits on one worker of each
-- role.
use vllm_rlt.Common.{
  ℕ, ◌+◌, ◌*◌, ◌-◌, Bool, true, false, not, ◌&&◌, ◌||◌, List, [], ◌∷◌, Option, none, some, String,
  Dict, lookup, map, Result, ok, ◌>>=◌, ltb, leb, ◌==◌, take, if◌then◌else◌,
}
use vllm_rlt.Scheduler.State.{le_int, is_priority}
use vllm_rlt.Coordinator.State.{
  Role, same_role, Peer, Phase, is_waiting, Pending, Command, Coordinator, blocks_for, send,
}
use vllm_rlt.Coordinator.Messages.{timed, store, store_peer}
use vllm_rlt.Coordinator.Requests.{role_tokens}

abbrev is_prefill : Role → Bool
is_prefill Role.prefill = true
is_prefill Role.decode = false

-- The watermark is kept free where the worker serves a request already.
abbrev pub kept_free : Peer → ℕ
kept_free peer = if peer.slots == 0 then 0 else peer.info.watermark_blocks

-- The condition of `eligible`; the watermark is added on the left, where the source subtracts it.
unfoldable pub is_eligible : Role → ℕ → Peer → Bool
unfolding blocks_for
is_eligible role tokens peer =
    same_role peer.role role
    && (ltb peer.slots peer.info.max_seqs
        && ((not (is_prefill role) || ltb peer.compute_slots peer.info.active_limit)
            && leb (peer.blocks + blocks_for peer tokens + kept_free peer) peer.info.num_blocks))

-- `<` on the key of `min`: the shares of the blocks and of the slots in use, multiplied out.
abbrev pub lighter : Peer → Peer → Bool
lighter a b =
    let left = a.blocks * b.info.num_blocks in
    let right = b.blocks * a.info.num_blocks in
    ltb left right
    || ((left == right) && ltb (a.slots * b.info.max_seqs) (b.slots * a.info.max_seqs))

abbrev pub replaces : Peer → Option (String × Peer) → Bool
replaces peer none = true
replaces peer (some best) = lighter peer best.1

-- `min` of the eligible workers among `names`: the first of the least; `best` is the least so far.
unfoldable pub lightest :
    Role → ℕ → Dict Peer → List String → Option (String × Peer) → Option (String × Peer)
unfolding is_eligible
lightest role tokens peers [] best = best
lightest role tokens peers (name ∷ names) best = elim (lookup name peers) [
  | none ↦ lightest role tokens peers names best
  | some peer ↦
      lightest role tokens peers names
        (if is_eligible role tokens peer && replaces peer best then some (name, peer) else best)
]

abbrev pub keys {ℓ} : {V : Type ℓ} → Dict V → List String
keys m = map (λ e. e.0) m

unfoldable pub choose : Role → Pending → Coordinator → Option (String × Peer)
unfolding lightest
choose role w c =
    lightest role (role_tokens role w.request.prompt_token_ids w.request.sampling_params) c.peers
      (keys c.peers) none

-- The blocks that a worker of the role would hold.
unfoldable pub needed : Role → Pending → Peer → ℕ
unfolding blocks_for
needed role w peer =
    blocks_for peer (role_tokens role w.request.prompt_token_ids w.request.sampling_params)

-- The credits of both workers.
unfoldable pub book : ℕ → Pending → String × Peer → String × Peer → Coordinator → Coordinator
unfolding needed timed store store_peer
book clock w p d c =
    let p_blocks = needed Role.prefill w p.1 in
    let d_blocks = needed Role.decode w d.1 in
    let p' = record (p.1) {
      blocks = p.1.blocks + p_blocks;
      slots = p.1.slots + 1;
      compute_slots = p.1.compute_slots + 1;
    } in
    let d' = record (d.1) { blocks = d.1.blocks + d_blocks; slots = d.1.slots + 1 } in
    let w' = timed "admitted" (clock - w.created) (record w {
      p = some p.0;
      d = some d.0;
      p_blocks = p_blocks;
      d_blocks = d_blocks;
      phase = Phase.reserving;
    }) in
    store w' (store_peer d.0 d' (store_peer p.0 p' c))

-- The credits, and the reservation.
unfoldable pub assign :
    ℕ → Pending → String × Peer → String × Peer → Coordinator → Result Coordinator
unfolding book send
assign clock w p d c =
    send (some d.0)
      (Command.reserve w.tid w.request.prompt_token_ids w.request.sampling_params w.trace_id
        p.1.info.agent)
      (book clock w p d c)

-- Whether the scan goes on with the next transfer, and the state.
unfoldable pub offer_credits :
    ℕ
    → Pending
    → Option (String × Peer)
    → Option (String × Peer)
    → Coordinator
    → Result (Bool × Coordinator)
unfolding assign
offer_credits clock w none d c = ok (not (ltb c.request_timeout (2 * (clock - w.created))), c)
offer_credits clock w (some p) none c =
    ok (not (ltb c.request_timeout (2 * (clock - w.created))), c)
offer_credits clock w (some p) (some d) c = do c' ← assign clock w p d c; ok (true, c')

-- The body of the loop for one transfer.
unfoldable pub admit_one : ℕ → Pending → Coordinator → Result (Bool × Coordinator)
unfolding choose offer_credits
admit_one clock w c =
    if w.cancelled || not (is_waiting w.phase)
    then ok (true, c)
    else offer_credits clock w (choose Role.prefill w c) (choose Role.decode w c) c

unfoldable pub admit_each : ℕ → List String → Coordinator → Result Coordinator
unfolding admit_one
admit_each clock [] c = ok c
admit_each clock (tid ∷ tids) c = elim (lookup tid c.transfers) [
  | none ↦ admit_each clock tids c
  | some w ↦ do
    step ← admit_one clock w c
    let rest = admit_each clock tids step.1
    if step.0 then rest else ok step.1
]

-- The key of the priority order: the priority, and then the time of creation.
abbrev pub goes_before : Pending → Pending → Bool
goes_before a b =
    let x = a.request.sampling_params.priority in
    let y = b.request.sampling_params.priority in
    not (le_int y x) || (le_int x y && ltb a.created b.created)

-- `sort` is stable: a transfer goes behind those that it does not have to precede.
unfoldable pub place_ordered : Pending → List Pending → List Pending
place_ordered w [] = w ∷ []
place_ordered w (v ∷ waiting) =
    let rest = place_ordered w waiting in if goes_before w v then w ∷ v ∷ waiting else v ∷ rest

unfoldable pub sort_waiting : List Pending → List Pending → List Pending
unfolding place_ordered
sort_waiting [] done = done
sort_waiting (w ∷ waiting) done = sort_waiting waiting (place_ordered w done)

unfoldable pub scanned : Coordinator → List String
unfolding sort_waiting
scanned c =
    let waiting = map (λ e. e.1) (take c.max_pending_requests c.transfers) in
    map (λ w. w.tid) (if is_priority c.scheduling_policy then sort_waiting waiting [] else waiting)

unfoldable pub admit_waiting : ℕ → Coordinator → Result Coordinator
unfolding scanned admit_each
admit_waiting clock c = admit_each clock (scanned c) c
