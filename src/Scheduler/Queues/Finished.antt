-- ===== src/Scheduler/Queues/Finished.antt =====
-- What `finish` of vllm_rlt/core/scheduler.py leaves of a request.
use vllm_rlt.Common.{
  ◌≡◌, refl, Bool, true, not, ◌&&◌, List, [], ◌∷◌, none, some, String, Dict, lookup, remove, ok,
  arith, str_eq, str_eq_iff, if◌then◌else◌,
}
use vllm_rlt.KvCache.State.{is_some}
use vllm_rlt.KvCache.Pages.{has_text}
use vllm_rlt.KvCache.Sound.{IsSound}
use vllm_rlt.KvCache.Sound.Release.{Freed, free-IsSound}
use vllm_rlt.Scheduler.State.{Stage, FinishReason, Request, World}
use vllm_rlt.Scheduler.Queues.{remove_all, finish_request, finish}

-- No key stands twice, as in every Python dictionary.
unfoldable pub unique : Dict Request → Bool
unique [] = true
unique ((k, r) ∷ m) = not (is_some (lookup k m)) && unique m

lookup-remove :
    (k j : String) (m : Dict Request)
    → unique m ≡ true
    → lookup j (remove k m) ≡ (if str_eq k j then none else lookup j m)
unfolding unique lookup remove
lookup-remove k j [] u = ground arith
lookup-remove k j ((i, r) ∷ m) u =
    ground (arith, str_eq_iff k j, str_eq_iff i k, str_eq_iff i j, lookup-remove k j m)

has_text-remove_all :
    (k j : String) (queue : List String)
    → has_text j (remove_all k queue) ≡ (not (str_eq k j) && has_text j queue)
unfolding remove_all
has_text-remove_all k j [] = ground arith
has_text-remove_all k j (q ∷ queue) =
    ground (arith, str_eq_iff k j, str_eq_iff q k, str_eq_iff q j, has_text-remove_all k j queue)

-- Finishing a registered request, with a sound cache, always succeeds. The request is in no queue
-- and not registered afterwards, all other requests stay as they were, each where it was queued, the
-- cache is sound and has given up the request's pages, or marked them where a transfer leases them.
pub finish_lem :
    (r : Request) (reason : FinishReason) (w : World) (found : Request)
    → IsSound w.cache
    → unique w.scheduler.requests ≡ true
    → lookup r.request_id w.scheduler.requests ≡ some found
    → (w' : World) × (finish r reason w ≡ ok (finish_request reason r, w'))
      × IsSound w'.cache
      × Freed r.request_id w.cache w'.cache
      × ((j : String)
          → lookup j w'.scheduler.requests
            ≡ (if str_eq r.request_id j then none else lookup j w.scheduler.requests))
      × ((stage : Stage) (j : String)
          → has_text j (w'.scheduler.queues stage)
            ≡ (not (str_eq r.request_id j) && has_text j (w.scheduler.queues stage)))
unfolding finish
finish_lem r reason w found s u here =
    let (c, freed, s', how) = free-IsSound r.request_id w.cache s in
    let queues : Stage → List String = λ t. remove_all r.request_id (w.scheduler.queues t) in
    (
      record {
        scheduler = record w.scheduler {
          queues = queues;
          requests = remove r.request_id w.scheduler.requests;
        };
        cache = c;
      },
      rw (freed, here) refl,
      s',
      how,
      λ j. lookup-remove r.request_id j w.scheduler.requests u,
      λ stage j. has_text-remove_all r.request_id j (w.scheduler.queues stage),
    )
