-- ===== src/Handover/Slots/Turns.antt =====
-- A tick of a worker (`progress` in vllm_rlt/pd/worker.py) keeps its slots in order.
use vllm_rlt.Common.{
  ℕ, ◌+◌, refl, inl, inr, Bool, true, false, not, ◌&&◌, ◌||◌, List, [], ◌∷◌, none, String, lookup,
  raise_if, runtime_error, str_eq, ltb, length, contains, if◌then◌else◌, Option-cases, List-cases,
  if-cases, Ensures, bind-Ensures, Ensures-ok,
}
use vllm_rlt.KvCache.State.{is_empty}
use vllm_rlt.KvCache.Pages.{unpin_transfer}
use vllm_rlt.KvCache.Prefix.{poll_prefixes, publish_prefix}
use vllm_rlt.KvCache.Marks.{mark_imported_prefix}
use vllm_rlt.Scheduler.State.{Request}
use vllm_rlt.Transfer.Inflight.{Transfer, Status, Submitted, submit, busy, poll}
use vllm_rlt.Engine.State.{Runner}
use vllm_rlt.Coordinator.State.{Role, same_role}
use vllm_rlt.Handover.State.{QueuedChunk, Work, Worker, send_event, set_cache, set_scheduler}
use vllm_rlt.Handover.Commands.{change_request}
use vllm_rlt.Handover.Progress.{
  Notification, add_sequence, note_received, note_all, has_passed, tell_complete, post_chunk,
  posted_chunk, tell_committed, leave_acknowledged, progress_prefill, active_works, has_arrived,
  activate, activate_due, progress_decode, turns, progress_each, progress,
}
use vllm_rlt.Handover.Slots.{IsSlotted, At, store-At, remove_work-IsSlotted}

abbrev AtPair : String → Work × Worker → Type 0
AtPair tid (work, w) = At tid work w

note_received-IsSlotted :
    (n : Notification) (work : Work) (w : Worker)
    → At n.tid work w
    → Ensures IsSlotted (note_received n work w)
unfolding note_received
note_received-IsSlotted n work w at =
    if-cases (Ensures IsSlotted) work.cancelled (λ t. at.0)
      (λ f.
        bind-Ensures IsSlotted
          (raise_if (not (same_role w.role Role.decode) || not (str_eq n.peer work.peer))
            runtime_error)
          _
          (λ a h.
            bind-Ensures IsSlotted
              (raise_if (work.active && not (contains n.sequence work.received)) runtime_error) _
              (λ b h'.
                (store-At n.tid work
                  (record work { received = add_sequence n.sequence work.received }) w at refl).0)))

note_all-IsSlotted :
    (notes : List Notification) (w : Worker) → IsSlotted w → Ensures IsSlotted (note_all notes w)
unfolding note_all
note_all-IsSlotted [] w sound = sound
note_all-IsSlotted (n ∷ notes) w sound = elim (Option-cases (lookup n.tid w.work)) [
  | inl e ↦ rw (e, note_all) (note_all-IsSlotted notes w sound)
  | inr e ↦
      rw (e.1, note_all)
        (bind-Ensures IsSlotted (note_received n e.0 w) _ (λ w' h. note_all-IsSlotted notes w' (
          Ensures-ok IsSlotted (note_received n e.0 w) h
            (note_received-IsSlotted n e.0 w (sound, e.0, e.1, refl)))))
]

tell_complete-At :
    (runner : Runner) (tid : String) (work : Work) (w : Worker)
    → At tid work w
    → AtPair tid (tell_complete runner tid work w)
unfolding tell_complete send_event
tell_complete-At runner tid work w at =
    if-cases (AtPair tid)
      (work.compute_done && (not work.compute_released && has_passed runner work.last_event))
      (λ t. store-At tid work (record work { compute_released = true }) w at refl) (λ f. at)

tell_committed-At :
    (tid : String) (work : Work) (w : Worker)
    → At tid work w
    → AtPair tid (tell_committed tid work w)
unfolding tell_committed send_event
tell_committed-At tid work w at =
    if-cases (AtPair tid) (work.compute_done && (is_empty work.chunks && not work.committed))
      (λ t. store-At tid work (record work { committed = true }) w at refl) (λ f. at)

posted_chunk-At :
    (tid : String) (chunks : List QueuedChunk) (answer : Submitted) (work : Work) (w : Worker)
    → At tid work w
    → AtPair tid (posted_chunk tid chunks answer work w)
unfolding posted_chunk
posted_chunk-At tid chunks Submitted.full work w at = at
posted_chunk-At tid chunks Submitted.queued work w at =
    store-At tid work (record work { chunks = chunks }) w at refl

post_chunk-At :
    (runner : Runner) (accepts : String → ℕ → Bool) (tid : String) (work : Work) (w : Worker)
    → At tid work w
    → Ensures (AtPair tid) (post_chunk runner accepts tid work w)
unfolding post_chunk
post_chunk-At runner accepts tid work w at = elim (List-cases work.chunks) [
  | inl e ↦ rw (e, post_chunk) at
  | inr e ↦
      let chunk = e.0 in
      rw (e.2, post_chunk)
        (if-cases (Ensures (AtPair tid)) (runner.ready chunk.event)
          (λ t.
            bind-Ensures (AtPair tid)
              (submit tid chunk.sequence chunk.chunk.size chunk.sequence
                (accepts tid chunk.sequence) w.connector)
              _
              (λ answer h. bind-Ensures (AtPair tid) (raise_if answer.1 runtime_error) _ (λ u h'.
                posted_chunk-At tid e.1 answer.0 work (record w { connector = answer.2 }) at)))
          (λ f. at))
]

leave_acknowledged-IsSlotted :
    (tid : String) (work : Work) (w : Worker)
    → At tid work w
    → Ensures IsSlotted (leave_acknowledged tid work w)
unfolding leave_acknowledged
leave_acknowledged-IsSlotted tid work w at =
    if-cases (Ensures IsSlotted) (work.acknowledged && not (busy tid w.connector))
      (λ t. remove_work-IsSlotted tid work w at) (λ f. at.0)

progress_prefill-IsSlotted :
    (runner : Runner) (accepts : String → ℕ → Bool) (tid : String) (work : Work) (w : Worker)
    → At tid work w
    → Ensures IsSlotted (progress_prefill runner accepts tid work w)
unfolding progress_prefill
progress_prefill-IsSlotted runner accepts tid work w at =
    if-cases (Ensures IsSlotted) work.cancelled
      (λ t.
        if-cases (Ensures IsSlotted) (busy tid w.connector) (λ b. at.0)
          (λ f. remove_work-IsSlotted tid work w at))
      (λ f.
        let told = tell_complete runner tid work w in
        let at' = tell_complete-At runner tid work w at in
        bind-Ensures IsSlotted (post_chunk runner accepts tid told.0 told.1) _ (λ posted h.
          let at'' =
            Ensures-ok (AtPair tid) (post_chunk runner accepts tid told.0 told.1) h
              (post_chunk-At runner accepts tid told.0 told.1 at') in
          let done = tell_committed tid posted.0 posted.1 in
          leave_acknowledged-IsSlotted tid done.0 done.1
            (tell_committed-At tid posted.0 posted.1 at'')))

activate-IsSlotted :
    (runner : Runner) (tid : String) (work : Work) (r : Request) (w : Worker)
    → At tid work w
    → Ensures IsSlotted (activate runner tid work r w)
unfolding activate set_cache change_request set_scheduler send_event
activate-IsSlotted runner tid work r w at =
    let prompt = length r.prompt_token_ids in
    bind-Ensures IsSlotted (mark_imported_prefix tid prompt work.cached_tokens w.engine.world.cache)
      _
      (λ c h.
        bind-Ensures IsSlotted (publish_prefix runner.sha256 tid r.prompt_token_ids prompt none c) _
          (λ c' h'.
            bind-Ensures IsSlotted (unpin_transfer tid tid c') _
              (λ c'' h''. (store-At tid work (record work { active = true }) w at refl).0)))

activate_due-IsSlotted :
    (runner : Runner) (tid : String) (work : Work) (due : Bool) (w : Worker)
    → At tid work w
    → Ensures IsSlotted (activate_due runner tid work due w)
unfolding activate_due
activate_due-IsSlotted runner tid work false w at = at.0
activate_due-IsSlotted runner tid work true w at =
    elim (Option-cases (lookup tid w.engine.world.scheduler.requests)) [
      | inl e ↦ rw (e, activate_due) tt
      | inr e ↦ rw (e.1, activate_due) (activate-IsSlotted runner tid work e.0 w at)
    ]

progress_decode-IsSlotted :
    (runner : Runner) (tid : String) (work : Work) (w : Worker)
    → At tid work w
    → Ensures IsSlotted (progress_decode runner tid work w)
unfolding progress_decode
progress_decode-IsSlotted runner tid work w at =
    if-cases (Ensures IsSlotted) (work.cancelled || work.active) (λ t. at.0)
      (λ f. elim (Option-cases work.expected) [
        | inl e ↦ rw (e, progress_decode) (at.0)
        | inr e ↦
            rw (e.1, progress_decode)
              (bind-Ensures IsSlotted (has_arrived e.0 work.received) _ (λ arrived h.
                activate_due-IsSlotted runner tid work
                  (arrived && ltb (active_works w) w.active_limit) w at))
      ])

progress_each-IsSlotted :
    (runner : Runner) (accepts : String → ℕ → Bool) (tids : List String) (w : Worker)
    → IsSlotted w
    → Ensures IsSlotted (progress_each runner accepts tids w)
unfolding progress_each
progress_each-IsSlotted runner accepts [] w sound = sound
progress_each-IsSlotted runner accepts (tid ∷ tids) w sound =
    elim (Option-cases (lookup tid w.work)) [
      | inl e ↦ rw (e, progress_each) (progress_each-IsSlotted runner accepts tids w sound)
      | inr e ↦
          let at : At tid e.0 w = (sound, e.0, e.1, refl) in
          let turn =
            if same_role w.role Role.prefill
            then progress_prefill runner accepts tid e.0 w
            else progress_decode runner tid e.0 w in
          let kept : Ensures IsSlotted turn =
            if-cases (Ensures IsSlotted) (same_role w.role Role.prefill)
              (λ t. progress_prefill-IsSlotted runner accepts tid e.0 w at)
              (λ f. progress_decode-IsSlotted runner tid e.0 w at) in
          rw (e.1, progress_each)
            (bind-Ensures IsSlotted turn _ (λ w' h.
              progress_each-IsSlotted runner accepts tids w' (Ensures-ok IsSlotted turn h kept)))
    ]

-- A tick of a worker, whatever the transport reports, leaves every slot below the limit free or held
-- by one work, and no other slot.
pub progress-IsSlotted :
    (runner : Runner) (status : Transfer → Status) (accepts : String → ℕ → Bool)
    (notes : List Notification) (w : Worker)
    → IsSlotted w
    → Ensures IsSlotted (progress runner status accepts notes w)
unfolding progress set_cache
progress-IsSlotted runner status accepts notes w sound =
    bind-Ensures IsSlotted (poll_prefixes runner.sha256 runner.ready w.engine.world.cache) _
      (λ cache h. bind-Ensures IsSlotted (poll status w.connector) _ (λ polled g.
        let before = record (set_cache cache w) { connector = polled.1 } in
        bind-Ensures IsSlotted (note_all notes before) _ (λ w' h'.
          let kept =
            Ensures-ok IsSlotted (note_all notes before) h'
              (note_all-IsSlotted notes before sound) in
          let cursor = if is_empty w'.work then w'.transfer_cursor else w'.transfer_cursor + 1 in
          progress_each-IsSlotted runner accepts (turns w') (record w' { transfer_cursor = cursor })
            kept)))
