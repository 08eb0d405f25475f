-- ===== src/Scheduler/Queues.antt =====
-- Requests enter and leave the scheduler (vllm_rlt/core/scheduler.py): `add_request`, `enqueue`,
-- `finish`, `abort` and `_order_waiting_requests`.
pub mod Sorted
pub mod Finished
use vllm_rlt.Common.{
  ℕ, ◌+◌, Bool, true, false, not, List, [], ◌∷◌, ◌++◌, Option, none, some, String, Dict, lookup,
  insert, remove, Result, ok, err, value_error, key_error, ◌>>=◌, ◌>>◌, raise_if, str_eq, map,
  if◌then◌else◌,
}
use vllm_rlt.KvCache.State.{Cache, is_empty, is_some}
use vllm_rlt.KvCache.Pages.{free}
use vllm_rlt.Scheduler.State.{
  Stage, FinishReason, ℤ, le_int, Request, Order, is_priority, Scheduler, World, set_queue,
}

unfoldable pub add_request : Request → Scheduler → Result Scheduler
unfolding set_queue
add_request r s = do
  raise_if (is_some (lookup r.request_id s.requests)) value_error
  ok (
      set_queue Stage.waiting (s.queues Stage.waiting ++ r.request_id ∷ [])
        (record s { requests = insert r.request_id r s.requests }))

-- An attribute assignment of the request that the dictionary holds.
unfoldable pub modify : String → (Request → Request) → Dict Request → Dict Request
modify rid change requests = elim (lookup rid requests) [
  | none ↦ requests
  | some r ↦ insert rid (change r) requests
]

unfoldable pub enqueue : String → Stage → Scheduler → Scheduler
unfolding modify set_queue
enqueue rid stage s =
    set_queue stage (s.queues stage ++ rid ∷ [])
      (record s { requests = modify rid (λ r. record r { stage = stage }) s.requests })

-- `while request_id in queue: queue.remove(request_id)`.
unfoldable pub remove_all : String → List String → List String
remove_all rid [] = []
remove_all rid (q ∷ queue) =
    let rest = remove_all rid queue in if str_eq q rid then rest else q ∷ rest

unfoldable pub finish_request : FinishReason → Request → Request
finish_request reason r = record r {
  stage = Stage.finished;
  finish_reason = some reason;
  num_output_placeholders = 0;
  num_speculative_rounds = 0;
}

unfoldable pub finish : Request → FinishReason → World → Result (Request × World)
unfolding remove_all finish_request
finish r reason w = do
  let s = w.scheduler
  let queues : Stage → List String = λ t. remove_all r.request_id (s.queues t)
  c ← free r.request_id w.cache
  raise_if (not (is_some (lookup r.request_id s.requests))) key_error
  ok (
    finish_request reason r,
    record {
      scheduler = record s { queues = queues; requests = remove r.request_id s.requests };
      cache = c;
    },
  )

unfoldable pub abort : String → World → Result (Request × World)
unfolding finish
abort rid w = elim (lookup rid w.scheduler.requests) [
  | none ↦ err key_error
  | some r ↦ finish r FinishReason.abort w
]

-- The keys of `sorted`; a missing request raises.
unfoldable pub with_priority : Dict Request → List String → Result (List (ℤ × String))
with_priority requests [] = ok []
with_priority requests (rid ∷ waiting) = elim (lookup rid requests) [
  | none ↦ err key_error
  | some r ↦ do rest ← with_priority requests waiting; ok ((r.sampling_params.priority, rid) ∷ rest)
]

-- A stable sort, as `sorted` is: an element stays before those of an equal key.
unfoldable pub place : ℤ × String → List (ℤ × String) → List (ℤ × String)
place x [] = x ∷ []
place x (y ∷ ys) = let rest = place x ys in if le_int x.0 y.0 then x ∷ y ∷ ys else y ∷ rest

unfoldable pub sorted : List (ℤ × String) → List (ℤ × String)
unfolding place
sorted [] = []
sorted (x ∷ xs) = place x (sorted xs)

unfoldable pub order_waiting_requests : Scheduler → Result Scheduler
unfolding with_priority sorted set_queue
order_waiting_requests s =
    if is_priority s.config.policy
    then (do
      keyed ← with_priority s.requests (s.queues Stage.waiting)
      ok (set_queue Stage.waiting (map (λ e. e.1) (sorted keyed)) s))
    else ok s
