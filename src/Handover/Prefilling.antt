-- ===== src/Handover/Prefilling.antt =====
-- `prefill_step` of `PDWorker` in vllm_rlt/pd/worker.py. What the model runner does to the pages and the
-- events that it records are arguments; the count of the prefilled tokens is left out.
use vllm_rlt.Common.{
  ℕ, ◌+◌, ◌==◌, Bool, true, false, ◌&&◌, ◌||◌, List, [], ◌∷◌, ◌++◌, Option, none, some, String,
  lookup, Result, ok, err, key_error, attribute_error, ◌>>=◌, leb, length, any, if◌then◌else◌,
}
use vllm_rlt.KvCache.State.{Cache, is_empty}
use vllm_rlt.KvCache.Pages.{has_text}
use vllm_rlt.KvCache.Prefix.{publish_prefix}
use vllm_rlt.Scheduler.State.{Stage, Request, set_queue}
use vllm_rlt.Scheduler.Queues.{enqueue}
use vllm_rlt.Scheduler.Admission.{Callbacks}
use vllm_rlt.Scheduler.Batches.{ScheduledItem, SchedulerOutput, take_batch}
use vllm_rlt.Engine.State.{Runner}
use vllm_rlt.Handover.State.{Work, Worker, store_work, set_cache, set_scheduler}
use vllm_rlt.Handover.Commands.{change_request, queue_chunk}

-- `w.chunks and w.chunks[0][0].query()`.
abbrev pub waits_for_room : Runner → Work → Bool
waits_for_room runner work = elim work.chunks [
  | [] ↦ false
  | chunk ∷ chunks ↦ runner.ready chunk.event
]

-- `w.last_event is None or w.last_event.query()`.
abbrev pub is_settled : Runner → Option ℕ → Bool
is_settled runner none = true
is_settled runner (some event) = runner.ready event

-- The queued requests that have no unfinished chunk.
unfoldable pub eligible : Runner → List String → Worker → Result (List String)
eligible runner [] w = ok []
eligible runner (tid ∷ queue) w = elim (lookup tid w.work) [
  | none ↦ err key_error
  | some work ↦ do
    rest ← eligible runner queue w
    ok (if is_empty work.chunks && is_settled runner work.last_event then tid ∷ rest else rest)
]

-- `tid for tid in original if tid not in selected`.
abbrev pub unselected : List String → List String → List String
unselected selected [] = []
unselected selected (tid ∷ queue) =
    let rest = unselected selected queue in if has_text tid selected then rest else tid ∷ rest

-- A batch of the eligible requests; those that it leaves go behind the others of the queue.
unfoldable pub take_eligible :
    Callbacks → List String → Worker → Result (Option SchedulerOutput × Worker)
unfolding take_batch set_queue
take_eligible callbacks tids w = do
  let world = w.engine.world
  let original = world.scheduler.queues Stage.prefill
  (batch, world') ←
      take_batch callbacks Stage.prefill
        (record world { scheduler = set_queue Stage.prefill tids world.scheduler })
  let unused = world'.scheduler.queues Stage.prefill
  let queue = unselected tids original ++ unused
  ok (
    batch,
    record w {
      engine = record (w.engine) {
        world = record world' { scheduler = set_queue Stage.prefill queue world'.scheduler };
      };
    },
  )

-- An item after its computation: its chunk is queued and its pages are published, and either the
-- computation of the prompt is done or the request waits for its next turn.
unfoldable pub finish_computed : Bool → String → Work → Worker → Worker
unfolding store_work set_scheduler enqueue
finish_computed true tid work w = store_work tid (record work { compute_done = true }) w
finish_computed false tid work w =
    set_scheduler (enqueue tid Stage.prefill w.engine.world.scheduler) w

unfoldable pub computed : Runner → ℕ → ScheduledItem → Work → Request → Worker → Result Worker
unfolding queue_chunk store_work change_request publish_prefix set_cache finish_computed
computed runner event item work r w = do
  let tid = item.request.request_id
  let extent = r.num_prefilled_tokens + item.token_count
  let final = extent == length r.prompt_token_ids
  queued ←
      queue_chunk (record work { last_event = some event }) item.token_start extent event final w
  let w' =
      change_request tid (λ q. record q { num_prefilled_tokens = extent }) (store_work tid queued w)
  cache ←
      publish_prefix runner.sha256 tid r.prompt_token_ids extent (some event) w'.engine.world.cache
  ok (finish_computed final tid queued (set_cache cache w'))

-- The loop over the items of the batch. `events` is the event recorded for a request.
unfoldable pub computed_each : Runner → (String → ℕ) → List ScheduledItem → Worker → Result Worker
unfolding computed
computed_each runner events [] w = ok w
computed_each runner events (item ∷ items) w = elim (lookup item.request.request_id w.work) [
  | none ↦ err key_error
  | some work ↦ elim (lookup item.request.request_id w.engine.world.scheduler.requests) [
    | none ↦ err key_error
    | some r ↦ do
      w' ← computed runner (events item.request.request_id) item work r w
      computed_each runner events items w'
  ]
]

-- `submit` of the runner, which fails where there is no batch, and the loop.
unfoldable pub compute_batch :
    Runner
    → (SchedulerOutput → Cache → Result Cache)
    → (String → ℕ)
    → Option SchedulerOutput
    → Worker
    → Result Worker
unfolding computed_each set_cache
compute_batch runner submit events none w = err attribute_error
compute_batch runner submit events (some batch) w = do
  cache ← submit batch w.engine.world.cache
  computed_each runner events batch.items (set_cache cache w)

-- Whether a batch was submitted, and the worker.
unfoldable pub prefill_step :
    Runner
    → Callbacks
    → (SchedulerOutput → Cache → Result Cache)
    → (String → ℕ)
    → Worker
    → Result (Bool × Worker)
unfolding eligible take_eligible compute_batch
prefill_step runner callbacks submit events w =
    if any (λ x. waits_for_room runner x.1) w.work then ok (false, w) else (do
      tids ← eligible runner (w.engine.world.scheduler.queues Stage.prefill) w
      if is_empty tids || leb w.connector.max_inflight_bytes w.connector.inflight_bytes
          then ok (false, w)
          else (do
            (batch, w') ← take_eligible callbacks tids w
            w'' ← compute_batch runner submit events batch w'
            ok (true, w'')))
