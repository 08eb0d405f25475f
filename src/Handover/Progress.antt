-- ===== src/Handover/Progress.antt =====
-- `progress` of `PDWorker` in vllm_rlt/pd/worker.py. The transport's notifications and answers are
-- arguments.
use vllm_rlt.Common.{
  ℕ, ◌+◌, ◌==◌, ◌%◌, Bool, true, false, not, ◌&&◌, ◌||◌, List, [], ◌∷◌, ◌++◌, Option, none, some,
  String, Dict, lookup, map, Result, ok, err, runtime_error, ◌>>=◌, ◌>>◌, raise_if, str_eq, ltb,
  leb, length, any, contains, take, drop, total, if◌then◌else◌,
}
use vllm_rlt.KvCache.State.{is_empty}
use vllm_rlt.KvCache.Pages.{unpin_transfer}
use vllm_rlt.KvCache.Prefix.{poll_prefixes, publish_prefix}
use vllm_rlt.KvCache.Marks.{mark_imported_prefix}
use vllm_rlt.Scheduler.State.{Stage, same_stage, Request, is_priority, le_int}
use vllm_rlt.Scheduler.Queues.{enqueue}
use vllm_rlt.Transfer.Inflight.{Transfer, Status, Submitted, submit, busy, poll}
use vllm_rlt.Engine.State.{Runner}
use vllm_rlt.Coordinator.State.{Role, same_role, Event}
use vllm_rlt.Handover.State.{
  QueuedChunk, Work, Worker, send_event, store_work, set_cache, set_scheduler,
}
use vllm_rlt.Handover.Commands.{remove_work, change_request}

-- A notification of the transport: the sender, the transfer and the sequence number of the write.
pub record Notification : Type 0 where
  pub peer : String
  pub tid : String
  pub sequence : ℕ

-- `received.add(sequence)`.
abbrev pub add_sequence : ℕ → List ℕ → List ℕ
add_sequence sequence received =
    if contains sequence received then received else sequence ∷ received

unfoldable pub note_received : Notification → Work → Worker → Result Worker
unfolding store_work
note_received n work w = if work.cancelled then ok w else (do
  raise_if (not (same_role w.role Role.decode) || not (str_eq n.peer work.peer)) runtime_error
  raise_if (work.active && not (contains n.sequence work.received)) runtime_error
  ok (store_work n.tid (record work { received = add_sequence n.sequence work.received }) w))

-- The loop over the notifications; one about an unknown transfer is passed over.
unfoldable pub note_all : List Notification → Worker → Result Worker
unfolding note_received
note_all [] w = ok w
note_all (n ∷ notes) w = elim (lookup n.tid w.work) [
  | none ↦ note_all notes w
  | some work ↦ do w' ← note_received n work w; note_all notes w'
]

-- `event.query()`, where there is an event; a work whose computation is done has one.
abbrev pub has_passed : Runner → Option ℕ → Bool
has_passed runner none = false
has_passed runner (some event) = runner.ready event

-- The end of a prefill computation is told once.
unfoldable pub tell_complete : Runner → String → Work → Worker → Work × Worker
unfolding store_work send_event
tell_complete runner tid work w =
    if work.compute_done && (not work.compute_released && has_passed runner work.last_event)
    then (let work' = record work { compute_released = true } in
        (work', send_event tid Event.prefill_complete (store_work tid work' w)))
    else (work, w)

-- A posted chunk leaves the queue.
unfoldable pub posted_chunk : String → List QueuedChunk → Submitted → Work → Worker → Work × Worker
unfolding store_work
posted_chunk tid chunks Submitted.full work w = (work, w)
posted_chunk tid chunks Submitted.queued work w =
    let work' = record work { chunks = chunks } in (work', store_work tid work' w)

-- The first chunk is posted when its computation is done and the transport has room. `accepts` is
-- whether the agent takes the write.
unfoldable pub post_chunk :
    Runner → (String → ℕ → Bool) → String → Work → Worker → Result (Work × Worker)
unfolding submit posted_chunk
post_chunk runner accepts tid work w = elim work.chunks [
  | [] ↦ ok (work, w)
  | chunk ∷ chunks ↦
      if runner.ready chunk.event
      then (do
        (answer, refused, connector) ←
            submit tid chunk.sequence chunk.chunk.size chunk.sequence (accepts tid chunk.sequence)
              w.connector
        raise_if refused runtime_error
        ok (posted_chunk tid chunks answer work (record w { connector = connector })))
      else ok (work, w)
]

-- The number of chunks is told once, when all are posted.
unfoldable pub tell_committed : String → Work → Worker → Work × Worker
unfolding store_work send_event
tell_committed tid work w =
    if work.compute_done && (is_empty work.chunks && not work.committed)
    then (let work' = record work { committed = true } in
        (work', send_event tid (Event.committed work.next_sequence) (store_work tid work' w)))
    else (work, w)

-- A transfer that the decode side has acknowledged is over when its writes are.
unfoldable pub leave_acknowledged : String → Work → Worker → Result Worker
unfolding busy remove_work
leave_acknowledged tid work w =
    if work.acknowledged && not (busy tid w.connector) then remove_work tid work w else ok w

unfoldable pub progress_prefill :
    Runner → (String → ℕ → Bool) → String → Work → Worker → Result Worker
unfolding busy remove_work tell_complete post_chunk tell_committed leave_acknowledged
progress_prefill runner accepts tid work w =
    if work.cancelled then (if busy tid w.connector then ok w else remove_work tid work w) else (do
      let told = tell_complete runner tid work w
      posted ← post_chunk runner accepts tid told.0 told.1
      let done = tell_committed tid posted.0 posted.1
      leave_acknowledged tid done.0 done.1)

-- `x.request.stage != Stage.WAITING`; the request of a work is registered while it is active.
abbrev is_running : Worker → Work → Bool
is_running w work = elim (lookup work.tid w.engine.world.scheduler.requests) [
  | none ↦ true
  | some r ↦ not (same_stage r.stage Stage.waiting)
]

unfoldable pub active_works : Worker → ℕ
active_works w = total (λ x. if x.active && is_running w x then 1 else 0) w.work

-- Every chunk of an expected number has arrived, and none beyond.
unfoldable pub has_arrived : ℕ → List ℕ → Result Bool
has_arrived expected received = do
  raise_if (any (λ sequence. leb expected sequence) received) runtime_error
  ok (length received == expected)

-- The imported tokens are marked and published, and the request may run its coda.
unfoldable pub activate : Runner → String → Work → Request → Worker → Result Worker
unfolding mark_imported_prefix publish_prefix unpin_transfer set_cache change_request store_work
    enqueue set_scheduler send_event
activate runner tid work r w = do
  let prompt = length r.prompt_token_ids
  cache ← mark_imported_prefix tid prompt work.cached_tokens w.engine.world.cache
  cache' ← publish_prefix runner.sha256 tid r.prompt_token_ids prompt none cache
  cache'' ← unpin_transfer tid tid cache'
  let w₁ =
      change_request tid
        (λ q. record q {
          num_prefilled_tokens = prompt;
          loops_done = w.engine.config.total_ut_steps;
        })
        (set_cache cache'' w)
  let s = w₁.engine.world.scheduler
  let w₂ =
      store_work tid (record work { active = true }) (set_scheduler (enqueue tid Stage.coda s) w₁)
  ok (send_event tid Event.activated w₂)

-- The activation of a work that is due.
unfoldable pub activate_due : Runner → String → Work → Bool → Worker → Result Worker
unfolding activate
activate_due runner tid work false w = ok w
activate_due runner tid work true w = elim (lookup tid w.engine.world.scheduler.requests) [
  | none ↦ err runtime_error
  | some r ↦ activate runner tid work r w
]

unfoldable pub progress_decode : Runner → String → Work → Worker → Result Worker
unfolding has_arrived active_works activate_due
progress_decode runner tid work w =
    if work.cancelled || work.active then ok w else elim work.expected [
      | none ↦ ok w
      | some expected ↦ do
        arrived ← has_arrived expected work.received
        activate_due runner tid work (arrived && ltb (active_works w) w.active_limit) w
    ]

-- `work[start:] + work[:start]`, with `start` the cursor modulo the length.
unfoldable pub rotate : ℕ → Dict Work → Dict Work
rotate cursor [] = []
rotate cursor (x ∷ works) =
    let start = cursor % (length works + 1) in drop start (x ∷ works) ++ take start (x ∷ works)

-- The key of the priority order: the priority, and then the start.
abbrev pub starts_before : Worker → String × Work → String × Work → Bool
starts_before w a b = elim (lookup a.0 w.engine.world.scheduler.requests) [
  | none ↦ false
  | some x ↦ elim (lookup b.0 w.engine.world.scheduler.requests) [
    | none ↦ false
    | some y ↦
        let p = x.sampling_params.priority in
        let q = y.sampling_params.priority in
        not (le_int q p) || (le_int p q && ltb a.1.started b.1.started)
  ]
]

-- `sort` is stable: a work goes behind those that it does not have to precede.
unfoldable pub place_turn : Worker → String × Work → Dict Work → Dict Work
place_turn w x [] = x ∷ []
place_turn w x (y ∷ works) =
    let rest = place_turn w x works in if starts_before w x y then x ∷ y ∷ works else y ∷ rest

unfoldable pub sort_turns : Worker → Dict Work → Dict Work → Dict Work
unfolding place_turn
sort_turns w [] done = done
sort_turns w (x ∷ works) done = sort_turns w works (place_turn w x done)

-- The order of the works: each tick starts at another one, or by priority.
unfoldable pub turns : Worker → List String
unfolding rotate sort_turns
turns w =
    let rotated = rotate w.transfer_cursor w.work in
    map (λ x. x.0)
      (if same_role w.role Role.decode && is_priority w.engine.world.scheduler.config.policy
        then sort_turns w rotated []
        else rotated)

-- A turn of each work, in the given order.
unfoldable pub progress_each : Runner → (String → ℕ → Bool) → List String → Worker → Result Worker
unfolding progress_prefill progress_decode
progress_each runner accepts [] w = ok w
progress_each runner accepts (tid ∷ tids) w = elim (lookup tid w.work) [
  | none ↦ progress_each runner accepts tids w
  | some work ↦ do
    w' ←
        (if same_role w.role Role.prefill
          then progress_prefill runner accepts tid work w
          else progress_decode runner tid work w)
    progress_each runner accepts tids w'
]

unfoldable pub progress :
    Runner → (Transfer → Status) → (String → ℕ → Bool) → List Notification → Worker → Result Worker
unfolding poll_prefixes poll set_cache note_all turns progress_each
progress runner status accepts notes w = do
  cache ← poll_prefixes runner.sha256 runner.ready w.engine.world.cache
  (finished, connector) ← poll status w.connector
  w' ← note_all notes (record (set_cache cache w) { connector = connector })
  let cursor = if is_empty w'.work then w'.transfer_cursor else w'.transfer_cursor + 1
  progress_each runner accepts (turns w') (record w' { transfer_cursor = cursor })
