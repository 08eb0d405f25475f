-- ===== src/Scheduler/Batches.antt =====
-- Batches in vllm_rlt/core/scheduler.py: `_make_scheduled_item`, `_ensure_execution_capacity` and
-- `_take`.
pub mod Bounds
use vllm_rlt.Common.{
  ℕ, zero, suc, ◌+◌, ◌-◌, ◌==◌, Bool, true, false, not, ◌&&◌, ◌||◌, List, [], ◌∷◌, ◌++◌, Option,
  none, some, String, Result, ok, err, index_error, attribute_error, ◌>>=◌, ltb, leb, length, min,
  if◌then◌else◌,
}
use vllm_rlt.KvCache.State.{Cache, is_empty}
use vllm_rlt.KvCache.Pages.{ensure_capacity}
use vllm_rlt.Scheduler.State.{
  Stage, same_stage, Request, SchedulerConfig, Scheduler, World, num_scheduled_outputs, position,
  set_queue,
}
use vllm_rlt.Scheduler.Admission.{Callbacks, get_request}

pub record ScheduledItem : Type 0 where
  pub request : Request
  pub token_start : ℕ
  pub token_count : ℕ

pub record SchedulerOutput : Type 0 where
  pub stage : Stage
  pub items : List ScheduledItem

unfoldable pub num_tokens : List ScheduledItem → ℕ
num_tokens [] = 0
num_tokens (i ∷ items) = i.token_count + num_tokens items

-- `self.speculative_config.num_speculative_tokens`.
abbrev pub draft_tokens : Option ℕ → Result ℕ
draft_tokens none = err attribute_error
draft_tokens (some n) = ok n

unfoldable pub make_scheduled_item : Request → Stage → ℕ → Scheduler → Result ScheduledItem
unfolding position num_scheduled_outputs
make_scheduled_item r stage budget s =
    if same_stage stage Stage.prefill
    then (let start = r.num_prefilled_tokens in
        ok (record {
          request = r;
          token_start = start;
          token_count =
              min budget (min s.config.prefill_chunk_size (length r.prompt_token_ids - start));
        }))
    else if same_stage stage Stage.speculative
    then (do
      let remaining = r.sampling_params.max_tokens - num_scheduled_outputs r
      drafts ← draft_tokens s.num_speculative_tokens
      ok (record {
        request = r;
        token_start = position r;
        token_count = min (drafts + 1) (min remaining budget);
      }))
    else ok (record { request = r; token_start = 0; token_count = 1 })

unfoldable pub grow_again : String → ℕ → Bool → World → Result (Bool × World)
grow_again rid frontier false w = ok (false, w)
grow_again rid frontier true w = do
  (enough, c) ← ensure_capacity rid frontier w.cache
  ok (enough, record w { cache = c })

-- What follows the first attempt to grow: one preemption, if there is a callback, and a second one.
unfoldable pub make_room :
    Option (String → Bool → List String → World → Result (Bool × World))
    → String
    → ℕ
    → List String
    → Bool
    → World
    → Result (Bool × World)
unfolding grow_again
make_room preempt rid frontier selected true w = ok (true, w)
make_room none rid frontier selected false w = ok (false, w)
make_room (some preempt) rid frontier selected false w = do
  (done, w') ← preempt rid false selected w
  grow_again rid frontier done w'

unfoldable pub ensure_execution_capacity :
    Callbacks → String → ℕ → List String → World → Result (Bool × World)
unfolding make_room
ensure_execution_capacity callbacks rid frontier selected w = do
  (enough, c) ← ensure_capacity rid frontier w.cache
  make_room callbacks.preempt rid frontier selected enough (record w { cache = c })

-- The batch so far; `selected` are the requests in it.
pub record Batch : Type 0 where
  pub budget : ℕ
  pub items : List ScheduledItem
  pub selected : List String
  pub world : World

abbrev pub grows : Stage → Bool
grows stage =
    same_stage stage Stage.prefill
    || (same_stage stage Stage.prelude
        || (same_stage stage Stage.recurrent || same_stage stage Stage.speculative))

abbrev pub spans : Stage → Bool
spans stage = same_stage stage Stage.prefill || same_stage stage Stage.speculative

abbrev pub rests : Stage → Request → Bool
rests stage r =
    same_stage stage Stage.speculative
    && (leb 2 r.num_speculative_rounds
        || leb r.sampling_params.max_tokens (num_scheduled_outputs r))

unfoldable pub requeue : Stage → String → World → World
unfolding set_queue
requeue stage rid w = record w {
  scheduler = set_queue stage (w.scheduler.queues stage ++ rid ∷ []) w.scheduler;
}

unfoldable pub select : ScheduledItem → Batch → Batch
select item b = record b {
  budget = b.budget - item.token_count;
  items = b.items ++ item ∷ [];
  selected = item.request.request_id ∷ b.selected;
}

unfoldable pub accept : Bool → Stage → ScheduledItem → Batch → Batch
unfolding select requeue
accept true stage item b = select item b
accept false stage item b = record b { world = requeue stage item.request.request_id b.world }

-- A round of the loop of `_take`, for a request that was taken off the queue.
unfoldable pub offer : Callbacks → Stage → Request → Batch → Result Batch
unfolding make_scheduled_item ensure_execution_capacity accept
offer callbacks stage r b =
    if rests stage r then ok (record b { world = requeue stage r.request_id b.world }) else (do
      item ← make_scheduled_item r stage b.budget b.world.scheduler
      let frontier = if spans stage then item.token_start + item.token_count else position r + 1
      if grows stage
          then (do
            (enough, w) ←
                ensure_execution_capacity callbacks r.request_id frontier b.selected b.world
            ok (accept enough stage item (record b { world = w })))
          else ok (select item b))

abbrev pub full : Batch → Bool
full b = b.budget == 0 || leb b.world.scheduler.config.max_num_seqs (length b.items)

-- `self.requests[queue.popleft()]` and the rest of the round.
unfoldable pub take_next : Callbacks → Stage → Batch → Result Batch
unfolding offer get_request set_queue
take_next callbacks stage b = elim (b.world.scheduler.queues stage) [
  | [] ↦ err index_error
  | rid ∷ queue ↦ do
    r ← get_request rid b.world.scheduler
    let s = set_queue stage queue b.world.scheduler
    offer callbacks stage r (record b { world = record b.world { scheduler = s } })
]

unfoldable pub take_rounds : ℕ → Callbacks → Stage → Batch → Result Batch
unfolding take_next
take_rounds zero callbacks stage b = ok b
take_rounds (suc remaining) callbacks stage b =
    let rest = take_next callbacks stage b >>= take_rounds remaining callbacks stage in
    if full b || is_empty (b.world.scheduler.queues stage) then ok b else rest

-- `SchedulingPolicy.record_batch`.
unfoldable pub record_batch : Stage → Scheduler → Scheduler
record_batch Stage.prefill s = record s {
  prefill_batches_since_recurrent = s.prefill_batches_since_recurrent + 1;
}
record_batch Stage.recurrent s = record s { prefill_batches_since_recurrent = 0 }
record_batch Stage.speculative s = record s { prefill_batches_since_recurrent = 0 }
record_batch stage s = s

unfoldable pub take_batch : Callbacks → Stage → World → Result (Option SchedulerOutput × World)
unfolding take_rounds record_batch
take_batch callbacks stage w = do
  let start : Batch = record {
    budget = w.scheduler.config.max_num_batched_tokens;
    items = [];
    selected = [];
    world = w;
  }
  b ← take_rounds (length (w.scheduler.queues stage)) callbacks stage start
  ok (
      if is_empty b.items then (none, b.world) else (
        some (record { stage = stage; items = b.items }),
        record b.world { scheduler = record_batch stage b.world.scheduler },
      ))
