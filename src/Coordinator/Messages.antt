-- ===== src/Coordinator/Messages.antt =====
-- `_message` of `PDEngine` in vllm_rlt/pd/engine.py, and `_poll`, which calls it. `now` is the age of
-- the transfer; a handler that raises has changed nothing before.
use vllm_rlt.Common.{
  ℕ, ◌-◌, Bool, true, false, not, ◌&&◌, ◌||◌, List, [], ◌∷◌, ◌++◌, Option, none, some, String, Dict,
  lookup, insert, remove, Result, ok, err, runtime_error, ◌>>=◌, str_eq, ltb, length, drop,
  if◌then◌else◌,
}
use vllm_rlt.Scheduler.State.{RequestOutput}
use vllm_rlt.Coordinator.State.{
  Role, same_role, Peer, Phase, Pending, Command, Event, Message, Metric, Coordinator, get_peer,
  send, count_blocks,
}

-- `peer.name in (w.p, w.d)`.
abbrev pub names : Option String → String → Bool
names none name = false
names (some held) name = str_eq held name

-- `w.timings[key] = now`.
unfoldable pub timed : String → ℕ → Pending → Pending
timed key now w = record w { timings = insert key now w.timings }

-- The fields of `w` and of the peer are changed in place.
unfoldable pub store : Pending → Coordinator → Coordinator
store w c = record c { transfers = insert w.tid w c.transfers }

unfoldable pub store_peer : String → Peer → Coordinator → Coordinator
store_peer name peer c = record c { peers = insert name peer c.peers }

-- `peer.compute_slots -= 1` and `w.p_compute_released = True`, where this was not done before.
unfoldable pub release_compute : Pending → Peer → Peer
release_compute w peer =
    if w.p_compute_released then peer else record peer { compute_slots = peer.compute_slots - 1 }

unfoldable pub on_reserved : List (List ℕ) → ℕ → ℕ → ℕ → Pending → Coordinator → Result Coordinator
unfolding timed store send get_peer
on_reserved tables slot cached now w c =
    let w' = timed "d_reserved" now w in
    if w.cancelled then send w.d (Command.cancel_safe w.tid) (store w' c) else (do
      d ← get_peer w.d c
      send w.p
          (Command.prefill_request w.tid w.request.prompt_token_ids w.request.sampling_params
            w.trace_id d.info.agent tables slot cached)
          (store (record w' { phase = Phase.prefill }) c))

unfoldable pub on_prefill_complete : ℕ → String → Peer → Pending → Coordinator → Coordinator
unfolding timed store store_peer release_compute
on_prefill_complete now name peer w c =
    store (timed "prefill_compute_completed" now (record w { p_compute_released = true }))
      (store_peer name (release_compute w peer) c)

unfoldable pub on_committed : ℕ → ℕ → Pending → Coordinator → Result Coordinator
unfolding timed store send
on_committed count now w c =
    let c' = store (timed "prefill_submitted" now w) c in
    if w.cancelled then ok c' else send w.d (Command.commit w.tid count) c'

unfoldable pub on_activated : ℕ → Pending → Coordinator → Result Coordinator
unfolding timed store send
on_activated now w c =
    send w.p (Command.ack w.tid)
      (store (timed "d_activated" now (record w { phase = Phase.decode })) c)

-- `timings.setdefault(key, now)`.
unfoldable pub set_default : String → ℕ → Dict ℕ → Dict ℕ
set_default key now timings = elim (lookup key timings) [
  | none ↦ insert key now timings
  | some before ↦ timings
]

-- The request object takes the new tokens; a finished one leaves `requests`.
unfoldable pub on_output : RequestOutput → ℕ → Pending → Coordinator → Coordinator
unfolding timed store set_default
on_output delivered now w c =
    if w.cancelled
    then c
    else (let o = record delivered { request_id = w.request.request_id } in
        let w' = record w {
          request = record (w.request) {
            generated_token_ids = o.token_ids;
            exit_depths = o.exit_depths;
          };
          timings = set_default "first_token" now w.timings;
        } in
        let c' = record c { outputs = c.outputs ++ o ∷ [] } in
        if o.finished
        then store (timed "finished" now (record w' { finished = true }))
            (record c' { requests = remove w.request.request_id c'.requests })
        else store w' c')

unfoldable pub on_released : String → Peer → Pending → Coordinator → Result Coordinator
unfolding store store_peer release_compute send
on_released name peer w c =
    if same_role peer.role Role.prefill && not w.p_released
    then (let held = release_compute w peer in
        let peer' = record held { slots = held.slots - 1; blocks = held.blocks - w.p_blocks } in
        let c' =
          store (record w { p_released = true; p_compute_released = true })
            (store_peer name peer' c) in
        if w.cancelled && not w.d_released then send w.d (Command.cancel_safe w.tid) c' else ok c')
    else if same_role peer.role Role.decode && not w.d_released
    then ok (
        store (record w { d_released = true })
          (store_peer name
            (record peer { slots = peer.slots - 1; blocks = peer.blocks - w.d_blocks }) c))
    else ok c

-- The branch of the message's kind.
unfoldable pub on_event : ℕ → String → Peer → Pending → Event → Coordinator → Result Coordinator
unfolding timed store on_reserved on_prefill_complete on_committed on_activated on_output
    on_released
on_event now name peer w (Event.reserved tables slot cached) c =
    on_reserved tables slot cached now w c
on_event now name peer w Event.prefill_started c = ok (store (timed "prefill_started" now w) c)
on_event now name peer w Event.prefill_complete c = ok (on_prefill_complete now name peer w c)
on_event now name peer w (Event.committed count) c = on_committed count now w c
on_event now name peer w Event.activated c = on_activated now w c
on_event now name peer w (Event.output delivered) c = ok (on_output delivered now w c)
on_event now name peer w Event.released c = on_released name peer w c
on_event now name peer w Event.rejected c = err runtime_error
on_event now name peer w Event.unknown c = err runtime_error

-- `deque(maxlen=1024)`: the oldest metric leaves.
unfoldable pub append_metric : Metric → List Metric → List Metric
append_metric m metrics =
    let all = metrics ++ m ∷ [] in if ltb 1024 (length all) then drop 1 all else all

-- What follows a branch: a transfer that both sides have released is retired.
unfoldable pub retire : String → Coordinator → Coordinator
unfolding append_metric
retire tid c = elim (lookup tid c.transfers) [
  | none ↦ c
  | some w ↦
      if w.p_released && w.d_released
      then record c {
        metrics =
            append_metric
              (record {
                request_id = w.request.request_id;
                transfer_id = w.tid;
                cancelled = w.cancelled;
                timings = w.timings;
              })
              c.metrics;
        transfers = remove tid c.transfers;
      }
      else c
]

-- A reservation that was cancelled meanwhile is only answered.
abbrev pub returns_early : Event → Pending → Bool
returns_early (Event.reserved tables slot cached) w = w.cancelled
returns_early e w = false

unfoldable pub after_event : Bool → String → Coordinator → Coordinator
unfolding retire count_blocks
after_event true tid c = c
after_event false tid c = count_blocks (retire tid c)

-- `_message` from where the transfer is looked up.
unfoldable pub on_transfer : ℕ → String → Peer → String → Event → Coordinator → Result Coordinator
unfolding on_event after_event
on_transfer clock name peer tid e c = elim (lookup tid c.transfers) [
  | none ↦ ok c
  | some w ↦
      if names w.p name || names w.d name
      then (do
        c' ← on_event (clock - w.created) name peer w e c
        ok (after_event (returns_early e w) tid c'))
      else err runtime_error
]

unfoldable pub on_profile_reply :
    String → String → String → Option String → Coordinator → Coordinator
on_profile_reply name control session reply c = elim (lookup control c.profile_replies) [
  | none ↦ c
  | some pending ↦
      if names c.profile_session session
      then record c {
        profile_replies = insert control (insert name reply pending) c.profile_replies;
      }
      else c
]

unfoldable pub message : ℕ → String → Peer → Message → Coordinator → Result Coordinator
unfolding on_transfer on_profile_reply store_peer
message clock name peer (Message.profile_reply control session reply) c =
    ok (on_profile_reply name control session reply c)
message clock name peer Message.fatal c = err runtime_error
message clock name peer (Message.ready info) c =
    ok (store_peer name (record peer { info = info; ready = true }) c)
message clock name peer Message.connected c =
    ok (store_peer name (record peer { connected = true }) c)
message clock name peer Message.stopped c = ok (store_peer name (record peer { stopped = true }) c)
message clock name peer (Message.transfer tid e) c = on_transfer clock name peer tid e c
