-- ===== src/Handover/Commands.antt =====
-- `remove`, `accept`, `queue_chunk` and `command` of `PDWorker` in vllm_rlt/pd/worker.py, without the
-- commands of the profiler and `connect`.
use vllm_rlt.Common.{
  ℕ, ◌+◌, ◌-◌, ◌*◌, ◌==◌, Bool, true, false, not, ◌||◌, List, [], ◌∷◌, ◌++◌, Option, none, some,
  String, lookup, remove, Result, ok, err, key_error, runtime_error, value_error, ◌>>=◌, ◌>>◌,
  raise_if, ltb, length, max, if◌then◌else◌,
}
use vllm_rlt.KvCache.State.{is_some, is_empty, has_allocation, plane_block_tables}
use vllm_rlt.KvCache.Pages.{allocate, free, pin_transfer, unpin_transfer, has_text}
use vllm_rlt.KvCache.Prefix.{lookup_prefix}
use vllm_rlt.Scheduler.State.{Stage, SamplingParams, Request, set_queue}
use vllm_rlt.Scheduler.Queues
use vllm_rlt.Scheduler.Queues.{modify, remove_all, enqueue}
use vllm_rlt.Transfer.Segments.{Segment, Chunk, kv_segments, partition_segments}
use vllm_rlt.Engine.State.{Runner}
use vllm_rlt.Engine.Requests
use vllm_rlt.Coordinator.State.{Role, Command, Event}
use vllm_rlt.Handover.State.{
  Endpoint, Work, Worker, send_event, store_work, set_cache, set_scheduler,
}

-- `if w.tid in self.engine.scheduler.requests: self.engine.scheduler.abort(w.tid)`.
unfoldable pub abort_registered : String → Worker → Result Worker
unfolding Queues.abort
abort_registered tid w =
    if is_some (lookup tid w.engine.world.scheduler.requests)
    then (do
      (r, world) ← Queues.abort tid w.engine.world
      ok (record w { engine = record (w.engine) { world = world } }))
    else ok w

-- `if self.cache.has_allocation(w.tid): ...`.
unfoldable pub release_pages : String → Worker → Result Worker
unfolding has_allocation free unpin_transfer set_cache
release_pages tid w =
    if has_allocation tid w.engine.world.cache
    then (do
      cache ← free tid w.engine.world.cache
      cache' ← unpin_transfer tid tid cache
      ok (set_cache cache' w))
    else ok w

-- The slot of a work is free again.
unfoldable pub free_slot : String → Work → Worker → Worker
unfolding send_event
free_slot tid work w =
    send_event tid Event.released
      (record w { free_slots = work.slot ∷ w.free_slots; work = remove tid w.work })

-- `remove`, without the device state that the runner releases.
unfoldable pub remove_work : String → Work → Worker → Result Worker
unfolding abort_registered release_pages free_slot
remove_work tid work w = do
  w' ← abort_registered tid w
  w'' ← release_pages tid w'
  ok (free_slot tid work w'')

-- The segments of the tokens from `start` to `end_`, none where there is no token.
abbrev segments : Endpoint → List (List ℕ) → ℕ → ℕ → Result (List Segment)
segments endpoint tables start end_ =
    if ltb start end_ then kv_segments endpoint.pool tables start end_ else ok []

-- The hidden state of a slot.
abbrev hidden_segment : Endpoint → ℕ → ℕ → Segment
hidden_segment endpoint slot size = record {
  address = endpoint.hidden_ptr + slot * size;
  amount = size;
  device = endpoint.pool.device;
}

-- The chunks get the next sequence numbers.
unfoldable pub number_chunks : ℕ → List Chunk → Work → Work
number_chunks event [] work = work
number_chunks event (chunk ∷ chunks) work = number_chunks event chunks (record work {
  chunks =
      work.chunks ++ record { event = event; sequence = work.next_sequence; chunk = chunk } ∷ [];
  next_sequence = work.next_sequence + 1;
})

-- The chunks of the tokens from `first` to `end_`, and of the hidden state behind the last.
unfoldable pub plan_chunks : Work → ℕ → ℕ → Bool → Worker → Result (List Chunk)
unfolding plane_block_tables kv_segments partition_segments
plan_chunks work first end_ final w = elim (lookup work.peer w.peers) [
  | none ↦ err key_error
  | some peer ↦ do
    tables ← plane_block_tables work.tid w.engine.world.cache
    let start = max first work.target_cached_tokens
    let size = w.info.hidden_bytes
    source ← segments w.info tables start end_
    target ← segments peer work.target_tables start end_
    let source' = if final then source ++ hidden_segment w.info work.slot size ∷ [] else source
    let target' = if final then target ++ hidden_segment peer work.target_slot size ∷ [] else target
    partition_segments source' target' w.connector.transfer_chunk_bytes w.max_transfer_descriptors
]

unfoldable pub queue_chunk : Work → ℕ → ℕ → ℕ → Bool → Worker → Result Work
unfolding plan_chunks number_chunks
queue_chunk work first end_ event final w = do
  chunks ← plan_chunks work first end_ final w
  ok (number_chunks event chunks work)

abbrev pub new_work : String → ℕ → String → Option String → ℕ → ℕ → Work
new_work tid slot peer trace_id cached started = record {
  tid = tid;
  slot = slot;
  peer = peer;
  trace_id = trace_id;
  target_tables = [];
  target_slot = 0;
  cached_tokens = cached;
  target_cached_tokens = 0;
  chunks = [];
  received = [];
  next_sequence = 0;
  expected = none;
  committed = false;
  cancelled = false;
  active = false;
  compute_done = false;
  compute_released = false;
  last_event = none;
  acknowledged = false;
  started = started;
}

-- A prefill worker only computes the prompt: `replace(params, max_tokens=1)`.
abbrev pub role_params : Role → SamplingParams → SamplingParams
role_params Role.prefill params = record params { max_tokens = 1 }
role_params Role.decode params = params

-- The request is registered and out of the waiting queue; a text stands there once.
unfoldable pub register : String → List ℕ → SamplingParams → Option String → Worker → Result Worker
unfolding Requests.add_request set_queue set_scheduler remove_all
register tid tokens params trace_id w = do
  e ← Requests.add_request tid tokens params trace_id w.engine
  let s = e.world.scheduler
  raise_if (not (has_text tid (s.queues Stage.waiting))) value_error
  ok (
      set_scheduler (set_queue Stage.waiting (remove_all tid (s.queues Stage.waiting)) s)
        (record w { engine = e }))

-- Pages that are granted are pinned for the transfer.
unfoldable pub pin_pages : String → ℕ → Bool → Worker → Result (Option ℕ × Worker)
unfolding pin_transfer set_cache
pin_pages tid hit false w = ok (none, w)
pin_pages tid hit true w = do
  cache ← pin_transfer tid tid w.engine.world.cache
  ok (some hit, set_cache cache w)

-- The pages of a request, with the tokens of the prefix hit; none where they are refused.
unfoldable pub take_pages :
    Runner → String → List ℕ → SamplingParams → Worker → Result (Option ℕ × Worker)
unfolding lookup_prefix allocate pin_pages set_cache
take_pages runner tid tokens params w = do
  let capacity = length tokens + params.max_tokens - 1
  (prefix, cache) ← lookup_prefix runner.sha256 runner.ready tokens w.engine.world.cache
  let initial = if cache.incremental_allocation then length tokens else capacity
  (granted, cache') ← allocate tid capacity (some initial) prefix cache
  pin_pages tid (length prefix * cache'.block_size) granted (set_cache cache' w)

-- The registered request is changed in place.
unfoldable pub change_request : String → (Request → Request) → Worker → Worker
unfolding modify set_scheduler
change_request tid change w =
    let s = w.engine.world.scheduler in
    set_scheduler (record s { requests = modify tid change s.requests }) w

-- What is left to do when a work is accepted: the answer of a decode worker, or the first chunk and the
-- queue of a prefill worker. `event` is the event recorded for the cached tokens.
unfoldable pub start_work : ℕ → Command → String → Work → ℕ → Worker → Result Worker
unfolding plane_block_tables change_request store_work send_event queue_chunk enqueue set_scheduler
start_work event (Command.reserve t tokens params trace peer) tid work hit w = do
  tables ← plane_block_tables tid w.engine.world.cache
  ok (
      send_event tid (Event.reserved tables work.slot hit)
        (change_request tid (λ r. record r { stage = Stage.receiving }) (store_work tid work w)))
start_work event (Command.prefill_request t tokens params trace peer tables slot cached) tid work
      hit w =
    do
      let work' = record work {
        target_tables = tables;
        target_slot = slot;
        target_cached_tokens = cached;
      }
      let w' =
          change_request tid (λ r. record r { num_prefilled_tokens = hit }) (store_work tid work' w)
      queued ← (if ltb cached hit then queue_chunk work' cached hit event false w' else ok work')
      let s = w'.engine.world.scheduler
      ok (
          send_event tid Event.prefill_started
            (set_scheduler (enqueue tid Stage.prefill s) (store_work tid queued w')))
start_work event (Command.commit t count) tid work hit w = ok w
start_work event (Command.ack t) tid work hit w = ok w
start_work event (Command.cancel t) tid work hit w = ok w
start_work event (Command.cancel_safe t) tid work hit w = ok w
start_work event Command.stop tid work hit w = ok w

-- The slot is taken where the pages were granted; the request is dropped where they were refused.
unfoldable pub start_taken :
    ℕ
    → ℕ
    → String
    → String
    → Option String
    → Command
    → ℕ
    → List ℕ
    → Option ℕ
    → Worker
    → Result Worker
unfolding abort_registered send_event start_work
start_taken clock event tid peer trace_id c slot slots none w = do
  w' ← abort_registered tid w
  ok (send_event tid Event.rejected w')
start_taken clock event tid peer trace_id c slot slots (some hit) w =
    start_work event c tid (new_work tid slot peer trace_id hit clock) hit
      (record w { free_slots = slots })

-- `accept`: `c` is the command, and the arguments before it are its fields.
unfoldable pub accept :
    Runner
    → ℕ
    → ℕ
    → String
    → List ℕ
    → SamplingParams
    → Option String
    → String
    → Command
    → Worker
    → Result Worker
unfolding send_event register take_pages start_taken
accept runner clock event tid tokens given trace_id peer c w =
    if is_some (lookup tid w.work) then err runtime_error else elim w.free_slots [
      | [] ↦ ok (send_event tid Event.rejected w)
      | slot ∷ slots ↦ do
        let params = role_params w.role given
        w₁ ← register tid tokens params trace_id w
        (hit, w₂) ← take_pages runner tid tokens params w₁
        start_taken clock event tid peer trace_id c slot slots hit w₂
    ]

-- `cancel`: a decode worker that is active stops at once; another waits for `cancel_safe`.
unfoldable pub cancel_work : String → Work → Worker → Result Worker
unfolding store_work set_queue set_scheduler remove_all remove_work
cancel_work tid work w = elim w.role [
  | Role.prefill ↦
      let s = w.engine.world.scheduler in
      ok (
        set_scheduler (set_queue Stage.prefill (remove_all tid (s.queues Stage.prefill)) s)
          (store_work tid (record work { cancelled = true; chunks = [] }) w))
  | Role.decode ↦
      let work' = record work { cancelled = true } in
      if work.active
      then remove_work tid work' (store_work tid work' w)
      else ok (store_work tid work' w)
]

-- `w.expected is not None and w.expected != count`.
abbrev pub conflicts : Option ℕ → ℕ → Bool
conflicts none count = false
conflicts (some expected) count = not (expected == count)

unfoldable pub commit_work : String → ℕ → Work → Worker → Result Worker
unfolding store_work
commit_work tid count work w = if work.cancelled then ok w else (do
  raise_if (conflicts work.expected count) runtime_error
  raise_if (count == 0) runtime_error
  ok (store_work tid (record work { expected = some count }) w))

-- `command`; a command about an unknown transfer is passed over, and a cancellation of it answered.
unfoldable pub command : Runner → ℕ → ℕ → Command → Worker → Result Worker
unfolding accept cancel_work remove_work commit_work store_work send_event
command runner clock event (Command.reserve tid tokens params trace peer) w =
    accept runner clock event tid tokens params trace peer
      (Command.reserve tid tokens params trace peer) w
command runner clock event (Command.prefill_request tid tokens params trace peer tables slot cached)
      w =
    accept runner clock event tid tokens params trace peer
      (Command.prefill_request tid tokens params trace peer tables slot cached) w
command runner clock event (Command.cancel tid) w = elim (lookup tid w.work) [
  | none ↦ ok (send_event tid Event.released w)
  | some work ↦ cancel_work tid work w
]
command runner clock event (Command.cancel_safe tid) w = elim (lookup tid w.work) [
  | none ↦ ok w
  | some work ↦ if work.cancelled then remove_work tid work w else err runtime_error
]
command runner clock event (Command.commit tid count) w = elim (lookup tid w.work) [
  | none ↦ ok w
  | some work ↦ commit_work tid count work w
]
command runner clock event (Command.ack tid) w = elim (lookup tid w.work) [
  | none ↦ ok w
  | some work ↦ ok (store_work tid (record work { acknowledged = true }) w)
]
command runner clock event Command.stop w =
    if not (is_empty w.work) || not (is_empty w.connector.pending)
    then err runtime_error
    else ok (record w { running = false })
