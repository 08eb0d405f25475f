-- ===== src/Handover/Slots/Prefilled.antt =====
-- A batch of a prefill worker (`prefill_step` in vllm_rlt/pd/worker.py) keeps its slots in order.
use vllm_rlt.Common.{
  ℕ, ◌+◌, ◌==◌, ◌≡◌, refl, inl, inr, Bool, true, false, ◌||◌, List, [], ◌∷◌, Option, none, some,
  String, lookup, Result, leb, length, any, Option-cases, if-cases, Ensures, bind-Ensures,
  Ensures-ok,
}
use vllm_rlt.KvCache.State.{Cache, is_empty}
use vllm_rlt.KvCache.Prefix.{publish_prefix}
use vllm_rlt.Scheduler.State.{Stage, Request, set_queue}
use vllm_rlt.Scheduler.Admission.{Callbacks}
use vllm_rlt.Scheduler.Batches.{ScheduledItem, SchedulerOutput, take_batch}
use vllm_rlt.Engine.State.{Runner}
use vllm_rlt.Handover.State.{Work, Worker, store_work, set_cache, set_scheduler}
use vllm_rlt.Handover.Commands.{change_request, queue_chunk}
use vllm_rlt.Handover.Prefilling.{
  waits_for_room, eligible, take_eligible, finish_computed, computed, computed_each, compute_batch,
  prefill_step,
}
use vllm_rlt.Handover.Slots.{IsSlotted, At, store-At}
use vllm_rlt.Handover.Slots.Accepted.{queue_chunk-slot}

finish_computed-IsSlotted :
    (final : Bool) (tid : String) (work : Work) (w : Worker)
    → At tid work w
    → IsSlotted (finish_computed final tid work w)
unfolding finish_computed set_scheduler
finish_computed-IsSlotted true tid work w at =
    (store-At tid work (record work { compute_done = true }) w at refl).0
finish_computed-IsSlotted false tid work w at = at.0

computed-IsSlotted :
    (runner : Runner) (event : ℕ) (item : ScheduledItem) (work : Work) (r : Request) (w : Worker)
    → At item.request.request_id work w
    → Ensures IsSlotted (computed runner event item work r w)
unfolding computed set_cache change_request set_scheduler
computed-IsSlotted runner event item work r w at =
    let tid = item.request.request_id in
    let extent = r.num_prefilled_tokens + item.token_count in
    let final = extent == length r.prompt_token_ids in
    let started = record work { last_event = some event } in
    let chunked = queue_chunk started item.token_start extent event final w in
    bind-Ensures IsSlotted chunked _ (λ queued h.
      let same =
        Ensures-ok (λ q. q.slot ≡ work.slot) chunked h
          (queue_chunk-slot started item.token_start extent event final w) in
      let w' =
        change_request tid (λ q. record q { num_prefilled_tokens = extent })
          (store_work tid queued w) in
      bind-Ensures IsSlotted
        (publish_prefix runner.sha256 tid r.prompt_token_ids extent (some event)
          w'.engine.world.cache)
        _
        (λ cache h'.
          finish_computed-IsSlotted final tid queued (set_cache cache w')
            (store-At tid work queued w at same)))

computed_each-IsSlotted :
    (runner : Runner) (events : String → ℕ) (items : List ScheduledItem) (w : Worker)
    → IsSlotted w
    → Ensures IsSlotted (computed_each runner events items w)
unfolding computed_each
computed_each-IsSlotted runner events [] w sound = sound
computed_each-IsSlotted runner events (item ∷ items) w sound =
    let tid = item.request.request_id in
    elim (Option-cases (lookup tid w.work)) [
      | inl e ↦ rw (e, computed_each) tt
      | inr e ↦ elim (Option-cases (lookup tid w.engine.world.scheduler.requests)) [
        | inl none_there ↦ rw (e.1, none_there, computed_each) tt
        | inr r ↦
            let done = computed runner (events tid) item e.0 r.0 w in
            rw (e.1, r.1, computed_each)
              (bind-Ensures IsSlotted done _ (λ w' h.
                computed_each-IsSlotted runner events items w' (
                  Ensures-ok IsSlotted done h (
                    computed-IsSlotted runner (events tid) item e.0 r.0 w
                      (sound, e.0, e.1, refl)))))
      ]
    ]

compute_batch-IsSlotted :
    (runner : Runner) (submit : SchedulerOutput → Cache → Result Cache) (events : String → ℕ)
    (batch : Option SchedulerOutput) (w : Worker)
    → IsSlotted w
    → Ensures IsSlotted (compute_batch runner submit events batch w)
unfolding compute_batch set_cache
compute_batch-IsSlotted runner submit events none w sound = tt
compute_batch-IsSlotted runner submit events (some batch) w sound =
    bind-Ensures IsSlotted (submit batch w.engine.world.cache) _
      (λ cache h. computed_each-IsSlotted runner events batch.items (set_cache cache w) sound)

abbrev pub SlottedAfter : Bool × Worker → Type 0
SlottedAfter (submitted, w) = IsSlotted w

abbrev SlottedBatch : Option SchedulerOutput × Worker → Type 0
SlottedBatch (batch, w) = IsSlotted w

take_eligible-IsSlotted :
    (callbacks : Callbacks) (tids : List String) (w : Worker)
    → IsSlotted w
    → Ensures SlottedBatch (take_eligible callbacks tids w)
unfolding take_eligible
take_eligible-IsSlotted callbacks tids w sound =
    let world = w.engine.world in
    bind-Ensures SlottedBatch
      (take_batch callbacks Stage.prefill
        (record world { scheduler = set_queue Stage.prefill tids world.scheduler }))
      _ (λ taken h. sound)

-- A batch of a prefill worker, whatever the model runner does to the pages, leaves every slot below the
-- limit free or held by one work, and no other slot.
pub prefill_step-IsSlotted :
    (runner : Runner) (callbacks : Callbacks) (submit : SchedulerOutput → Cache → Result Cache)
    (events : String → ℕ) (w : Worker)
    → IsSlotted w
    → Ensures SlottedAfter (prefill_step runner callbacks submit events w)
unfolding prefill_step
prefill_step-IsSlotted runner callbacks submit events w sound =
    if-cases (Ensures SlottedAfter) (any (λ x. waits_for_room runner x.1) w.work) (λ t. sound)
      (λ f.
        bind-Ensures SlottedAfter
          (eligible runner (w.engine.world.scheduler.queues Stage.prefill) w) _
          (λ tids h.
            if-cases (Ensures SlottedAfter)
              (is_empty tids || leb w.connector.max_inflight_bytes w.connector.inflight_bytes)
              (λ t. sound)
              (λ g. bind-Ensures SlottedAfter (take_eligible callbacks tids w) _ (λ taken h'.
                let kept =
                  Ensures-ok SlottedBatch (take_eligible callbacks tids w) h'
                    (take_eligible-IsSlotted callbacks tids w sound) in
                let done = compute_batch runner submit events taken.0 taken.1 in
                bind-Ensures SlottedAfter done _ (λ w'' k.
                  Ensures-ok IsSlotted done k
                    (compute_batch-IsSlotted runner submit events taken.0 taken.1 kept))))))
