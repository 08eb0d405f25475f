-- ===== src/Handover/Slots/Accepted.antt =====
-- A command of the coordinator (`accept` and `command` in vllm_rlt/pd/worker.py) keeps the slots of a
-- worker in order.
use vllm_rlt.Common.{
  ℕ, ◌+◌, ◌-◌, ◌≡◌, refl, ◌∙◌, inl, inr, Bool, true, false, not, ◌||◌, List, [], ◌∷◌, Option, none,
  some, String, lookup, total, total-insert_new, lookup-insert, str_eq_refl, Result, ok, err,
  raise_if, runtime_error, value_error, ltb, ◌==◌, count, if◌then◌else◌, arith, Option-cases,
  List-cases, if-cases, Ensures, bind-Ensures, Ensures-ok, length,
}
use vllm_rlt.KvCache.State.{is_some, is_empty, plane_block_tables}
use vllm_rlt.KvCache.Pages.{allocate, free, pin_transfer, has_text}
use vllm_rlt.KvCache.Prefix.{lookup_prefix}
use vllm_rlt.Scheduler.State.{Stage, SamplingParams}
use vllm_rlt.Scheduler.Queues
use vllm_rlt.Transfer.Segments.{Chunk}
use vllm_rlt.Engine.State.{Runner}
use vllm_rlt.Engine.Requests
use vllm_rlt.Coordinator.State.{Command, Event}
use vllm_rlt.Handover.State.{Work, Worker, send_event, store_work, set_cache, set_scheduler}
use vllm_rlt.Handover.Commands.{
  abort_registered, remove_work, number_chunks, plan_chunks, queue_chunk, pin_pages, new_work,
  role_params, register, start_taken, take_pages, change_request, start_work, accept, cancel_work,
  commit_work, command,
}
use vllm_rlt.Handover.Slots.{
  holds_slot, IsSlotted, At, store-At, remove_work-IsSlotted, cancel_work-IsSlotted,
  commit_work-IsSlotted,
}

-- A slot is taken from the free ones, and no work has the id yet.
abbrev Taken : String → ℕ → Worker → Type 0
Taken tid slot w =
    ((s : ℕ)
      → (if slot == s then 1 else 0) + (count s w.free_slots + total (holds_slot s) w.work)
        ≡ (if ltb s w.limit then 1 else 0))
    × (lookup tid w.work ≡ none)

new-At :
    (tid : String) (work : Work) (w : Worker)
    → Taken tid work.slot w
    → At tid work (store_work tid work w)
unfolding store_work
new-At tid work w taken = (
  λ s.
      let h = taken.0 s in
      let sum = total-insert_new (holds_slot s) tid work w.work taken.1 in omega (arith, h, sum),
  work,
  (let l = lookup-insert tid tid work w.work in rw (str_eq_refl tid) at l),
  refl,
)

number_chunks-slot :
    (event : ℕ) (chunks : List Chunk) (work : Work)
    → (number_chunks event chunks work).slot ≡ work.slot
unfolding number_chunks
number_chunks-slot event [] work = refl
number_chunks-slot event (chunk ∷ chunks) work = number_chunks-slot event chunks _

pub queue_chunk-slot :
    (work : Work) (first end_ event : ℕ) (final : Bool) (w : Worker)
    → Ensures (λ queued. queued.slot ≡ work.slot) (queue_chunk work first end_ event final w)
unfolding queue_chunk
queue_chunk-slot work first end_ event final w =
    bind-Ensures (λ queued. queued.slot ≡ work.slot) (plan_chunks work first end_ final w) _
      (λ chunks h. number_chunks-slot event chunks work)

reserve-IsSlotted :
    (event : ℕ) (tid : String) (tokens : List ℕ) (params : SamplingParams) (trace : Option String)
    (peer : String) (work : Work) (hit : ℕ) (w : Worker)
    → Taken tid work.slot w
    → Ensures IsSlotted
        (start_work event (Command.reserve tid tokens params trace peer) tid work hit w)
unfolding start_work change_request set_scheduler send_event
reserve-IsSlotted event tid tokens params trace peer work hit w taken =
    bind-Ensures IsSlotted (plane_block_tables tid w.engine.world.cache) _
      (λ tables h. (new-At tid work w taken).0)

prefill-IsSlotted :
    (event : ℕ) (tid : String) (tokens : List ℕ) (params : SamplingParams) (trace : Option String)
    (peer : String) (tables : List (List ℕ)) (slot cached : ℕ) (work : Work) (hit : ℕ) (w : Worker)
    → Taken tid work.slot w
    → Ensures IsSlotted (
        start_work event
          (Command.prefill_request tid tokens params trace peer tables slot cached)
          tid
          work
          hit
          w)
unfolding start_work change_request set_scheduler send_event
prefill-IsSlotted event tid tokens params trace peer tables slot cached work hit w taken =
    let work' = record work {
      target_tables = tables;
      target_slot = slot;
      target_cached_tokens = cached;
    } in
    let w' =
      change_request tid (λ r. record r { num_prefilled_tokens = hit }) (store_work tid work' w) in
    let at : At tid work' w' = new-At tid work' w taken in
    let chunked =
      if ltb cached hit then queue_chunk work' cached hit event false w' else ok work' in
    let same : Ensures (λ queued. queued.slot ≡ work'.slot) chunked =
      if-cases (Ensures (λ queued. queued.slot ≡ work'.slot)) (ltb cached hit)
        (λ t. queue_chunk-slot work' cached hit event false w') (λ f. refl) in
    bind-Ensures IsSlotted chunked _ (λ queued h.
      (store-At tid work' queued w' at (Ensures-ok (λ q. q.slot ≡ work'.slot) chunked h same)).0)

-- Neither the slots nor the works change where a request is registered or gets its pages.
abbrev Unchanged : Worker → Worker → Type 0
Unchanged w w' =
    (w'.limit ≡ w.limit) × (w'.free_slots ≡ w.free_slots) × (w'.work ≡ w.work) × (w'.role ≡ w.role)

register-Unchanged :
    (tid : String) (tokens : List ℕ) (params : SamplingParams) (trace : Option String) (w : Worker)
    → Ensures (Unchanged w) (register tid tokens params trace w)
unfolding register set_scheduler
register-Unchanged tid tokens params trace w =
    bind-Ensures (Unchanged w) (Requests.add_request tid tokens params trace w.engine) _ (λ e h.
      bind-Ensures (Unchanged w)
        (raise_if (not (has_text tid (e.world.scheduler.queues Stage.waiting))) value_error) _
        (λ u h'. let same : Unchanged w w = (refl, refl, refl, refl) in same))

abbrev UnchangedPages : Worker → Option ℕ × Worker → Type 0
UnchangedPages w (hit, w') = Unchanged w w'

pin_pages-Unchanged :
    (tid : String) (hit : ℕ) (granted : Bool) (w w' : Worker)
    → Unchanged w w'
    → Ensures (UnchangedPages w) (pin_pages tid hit granted w')
unfolding pin_pages set_cache
pin_pages-Unchanged tid hit false w w' same = same
pin_pages-Unchanged tid hit true w w' same =
    bind-Ensures (UnchangedPages w) (pin_transfer tid tid w'.engine.world.cache) _ (λ cache h. same)

take_pages-Unchanged :
    (runner : Runner) (tid : String) (tokens : List ℕ) (params : SamplingParams) (w : Worker)
    → Ensures (UnchangedPages w) (take_pages runner tid tokens params w)
unfolding take_pages set_cache
take_pages-Unchanged runner tid tokens params w =
    let capacity = length tokens + params.max_tokens - 1 in
    bind-Ensures (UnchangedPages w)
      (lookup_prefix runner.sha256 runner.ready tokens w.engine.world.cache) _
      (λ found h.
        let initial = if found.1.incremental_allocation then length tokens else capacity in
        bind-Ensures (UnchangedPages w) (allocate tid capacity (some initial) found.0 found.1) _
          (λ got h'.
            pin_pages-Unchanged tid _ got.0 w (set_cache got.1 w) (refl, refl, refl, refl)))

-- A work that is started takes the first free slot.
Started : ℕ → Command → String → Type 0
Started event c tid =
    (work : Work) (hit : ℕ) (w : Worker)
    → Taken tid work.slot w
    → Ensures IsSlotted (start_work event c tid work hit w)

Unchanged-trans : (w w' w'' : Worker) → Unchanged w w' → Unchanged w' w'' → Unchanged w w''
Unchanged-trans w w' w'' u v = (v.0 ∙ u.0, v.1 ∙ u.1, v.2 ∙ u.2, v.3 ∙ u.3)

unchanged_slots : (w w' : Worker) → Unchanged w w' → IsSlotted w → IsSlotted w'
unchanged_slots w w' u sound s = let h = sound s in rw (u.0, u.1, u.2) h

abort_registered-Unchanged :
    (tid : String) (w : Worker) → Ensures (Unchanged w) (abort_registered tid w)
unfolding abort_registered
abort_registered-Unchanged tid w =
    let same : Unchanged w w = (refl, refl, refl, refl) in
    if-cases (Ensures (Unchanged w)) (is_some (lookup tid w.engine.world.scheduler.requests))
      (λ t. bind-Ensures (Unchanged w) (Queues.abort tid w.engine.world) _ (λ done h. same))
      (λ f. same)

start_hit :
    (runner : Runner) (clock event : ℕ) (tid peer : String) (trace : Option String) (c : Command)
    (slot : ℕ) (slots : List ℕ) (hit : Option ℕ) (w w' : Worker)
    → Started event c tid
    → IsSlotted w
    → lookup tid w.work ≡ none
    → w.free_slots ≡ slot ∷ slots
    → Unchanged w w'
    → Ensures IsSlotted (start_taken clock event tid peer trace c slot slots hit w')
unfolding start_taken send_event Started
start_hit runner clock event tid peer trace c slot slots none w w' started sound fresh free u =
    bind-Ensures IsSlotted (abort_registered tid w') _ (λ w₃ h.
      unchanged_slots w' w₃
        (Ensures-ok (Unchanged w') (abort_registered tid w') h (abort_registered-Unchanged tid w'))
        (unchanged_slots w w' u sound))
start_hit runner clock event tid peer trace c slot slots (some tokens) w w' started sound fresh free
      u =
    started (new_work tid slot peer trace tokens clock) tokens (record w' { free_slots = slots })
      (
        (λ s.
            let h : count s (slot ∷ slots) + total (holds_slot s) w.work
                ≡ (if ltb s w.limit then 1 else 0) =
              rw free at (sound s) in
            rw (u.0, u.2) (omega (arith, h))),
        rw (u.2) fresh,
      )

accept-IsSlotted :
    (runner : Runner) (clock event : ℕ) (tid : String) (tokens : List ℕ) (given : SamplingParams)
    (trace : Option String) (peer : String) (c : Command) (w : Worker)
    → Started event c tid
    → IsSlotted w
    → Ensures IsSlotted (accept runner clock event tid tokens given trace peer c w)
unfolding accept send_event Started
accept-IsSlotted runner clock event tid tokens given trace peer c w started sound =
    elim (Option-cases (lookup tid w.work)) [
      | inr e ↦ rw (e.1, accept) tt
      | inl fresh ↦ elim (List-cases w.free_slots) [
        | inl e ↦ rw (fresh, accept, e) sound
        | inr e ↦
            rw (fresh, accept, e.2)
              (let params = role_params w.role given in
                bind-Ensures IsSlotted (register tid tokens params trace w) _ (λ w₁ h.
                  let u =
                    Ensures-ok (Unchanged w) (register tid tokens params trace w) h
                      (register-Unchanged tid tokens params trace w) in
                  bind-Ensures IsSlotted (take_pages runner tid tokens params w₁) _ (λ got h'.
                    let v =
                      Ensures-ok (UnchangedPages w₁) (take_pages runner tid tokens params w₁) h'
                        (take_pages-Unchanged runner tid tokens params w₁) in
                    let both = Unchanged-trans w w₁ got.1 u v in
                    start_hit runner clock event tid peer trace c e.0 e.1 got.0 w got.1 started
                      sound fresh e.2 both)))
      ]
    ]

answer :
    (tid : String) (w : Worker) (next : Work → Result Worker) (other : Result Worker)
    → IsSlotted w
    → Ensures IsSlotted other
    → ((work : Work) → At tid work w → Ensures IsSlotted (next work))
    → Ensures IsSlotted (elim (lookup tid w.work) [ none ↦ other | some work ↦ next work ])
answer tid w next other sound h k = elim (Option-cases (lookup tid w.work)) [
  | inl e ↦ rw e h
  | inr e ↦ rw (e.1) (k e.0 (sound, e.0, e.1, refl))
]

-- A command of the coordinator leaves every slot below the worker's limit free or held by one work,
-- and no other slot: none is lost, taken twice or freed twice.
pub command-IsSlotted :
    (runner : Runner) (clock event : ℕ) (c : Command) (w : Worker)
    → IsSlotted w
    → Ensures IsSlotted (command runner clock event c w)
unfolding command send_event Started
command-IsSlotted runner clock event (Command.reserve tid tokens params trace peer) w sound =
    accept-IsSlotted runner clock event tid tokens params trace peer
      (Command.reserve tid tokens params trace peer) w
      (λ work hit v taken. reserve-IsSlotted event tid tokens params trace peer work hit v taken)
      sound
command-IsSlotted runner clock event
      (Command.prefill_request tid tokens params trace peer tables slot cached) w sound =
    accept-IsSlotted runner clock event tid tokens params trace peer
      (Command.prefill_request tid tokens params trace peer tables slot cached) w
      (λ work hit v taken.
        prefill-IsSlotted event tid tokens params trace peer tables slot cached work hit v taken)
      sound
command-IsSlotted runner clock event (Command.cancel tid) w sound =
    answer tid w (λ work. cancel_work tid work w) (ok (send_event tid Event.released w)) sound sound
      (λ work at. cancel_work-IsSlotted w.role tid work w refl at)
command-IsSlotted runner clock event (Command.cancel_safe tid) w sound =
    answer tid w (λ work. if work.cancelled then remove_work tid work w else err runtime_error)
      (ok w) sound sound
      (λ work at.
        if-cases (Ensures IsSlotted) work.cancelled (λ t. remove_work-IsSlotted tid work w at)
          (λ f. tt))
command-IsSlotted runner clock event (Command.commit tid count) w sound =
    answer tid w (λ work. commit_work tid count work w) (ok w) sound sound
      (λ work at. commit_work-IsSlotted tid count work w at)
command-IsSlotted runner clock event (Command.ack tid) w sound =
    answer tid w (λ work. ok (store_work tid (record work { acknowledged = true }) w)) (ok w) sound
      sound (λ work at. (store-At tid work (record work { acknowledged = true }) w at refl).0)
command-IsSlotted runner clock event Command.stop w sound =
    if-cases (Ensures IsSlotted) (not (is_empty w.work) || not (is_empty w.connector.pending))
      (λ t. tt) (λ f. sound)
