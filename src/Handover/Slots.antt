-- ===== src/Handover/Slots.antt =====
-- The slots of a worker (vllm_rlt/pd/worker.py): each is free, or held by one work.
pub mod Accepted
pub mod Turns
pub mod Prefilled
pub mod Runs
use vllm_rlt.Common.{
  ℕ, ◌+◌, ◌-◌, ◌≡◌, refl, sym, ap, subst, ◌∙◌, ◌⊎◌, inl, inr, Bool, true, false, not, ◌&&◌, ◌||◌,
  List, [], ◌∷◌, ◌++◌, Option, none, some, String, Dict, lookup, insert, remove, total,
  total-insert_new, total-insert_old, total-remove, lookup-insert, str_eq, str_eq_refl, Result, ok,
  err, ◌>>=◌, raise_if, runtime_error, value_error, ltb, ◌==◌, count, if◌then◌else◌, arith,
  Bool-cases, Option-cases, List-cases, if-cases, Ensures, bind-Ensures, Ensures-ok, length,
}
use vllm_rlt.KvCache.State.{is_some, has_allocation, is_empty, plane_block_tables}
use vllm_rlt.KvCache.Pages.{allocate, free, pin_transfer, unpin_transfer, has_text}
use vllm_rlt.KvCache.Prefix.{lookup_prefix}
use vllm_rlt.Scheduler.State.{Stage, SamplingParams, set_queue}
use vllm_rlt.Scheduler.Queues
use vllm_rlt.Transfer.Segments.{Chunk}
use vllm_rlt.Engine.State.{Engine, Runner}
use vllm_rlt.Engine.Requests
use vllm_rlt.Coordinator.State.{Role, Command, Event}
use vllm_rlt.Handover.State.{Work, Worker, send_event, store_work, set_cache, set_scheduler}
use vllm_rlt.Handover.Commands.{
  abort_registered, release_pages, free_slot, remove_work, number_chunks, plan_chunks, queue_chunk,
  pin_pages, new_work, role_params, register, start_taken, take_pages, change_request, start_work,
  accept, cancel_work, conflicts, commit_work, command,
}

-- Whether a work holds a slot.
abbrev pub holds_slot : ℕ → Work → ℕ
holds_slot s x = if x.slot == s then 1 else 0

-- Each slot below the limit is free or held, once; no other slot is.
abbrev pub Slots : ℕ → List ℕ → Dict Work → Type 0
Slots limit free_slots work =
    (s : ℕ) → count s free_slots + total (holds_slot s) work ≡ (if ltb s limit then 1 else 0)

abbrev pub IsSlotted : Worker → Type 0
IsSlotted w = Slots w.limit w.free_slots w.work

-- A worker's work under an id has the slot of `work`.
abbrev pub At : String → Work → Worker → Type 0
At tid work w = IsSlotted w × (x : Work) × (lookup tid w.work ≡ some x) × (x.slot ≡ work.slot)

pub store-At :
    (tid : String) (work work' : Work) (w : Worker)
    → At tid work w
    → work'.slot ≡ work.slot
    → At tid work' (store_work tid work' w)
unfolding store_work
store-At tid work work' w at same = (
  λ s.
      let h = at.0 s in
      let old = total-insert_old (holds_slot s) tid work' at.1 w.work at.2 in
      let same_slot : at.1.slot ≡ work'.slot = at.3 ∙ sym same in
      let due : holds_slot s at.1 ≡ holds_slot s work' =
        ap (λ k. if k == s then 1 else 0) same_slot in
      omega (arith, h, old, due),
  work',
  (let l = lookup-insert tid tid work' w.work in rw (str_eq_refl tid) at l),
  refl,
)

pub free_slot-IsSlotted :
    (tid : String) (work : Work) (w : Worker) → At tid work w → IsSlotted (free_slot tid work w)
unfolding free_slot send_event
free_slot-IsSlotted tid work w at s =
    let h = at.0 s in
    let old = total-remove (holds_slot s) tid at.1 w.work at.2 in
    let due : holds_slot s at.1 ≡ holds_slot s work = ap (λ k. if k == s then 1 else 0) at.3 in
    omega (arith, h, old, due)

pub abort_registered-At :
    (tid : String) (work : Work) (w : Worker)
    → At tid work w
    → Ensures (At tid work) (abort_registered tid w)
unfolding abort_registered
abort_registered-At tid work w at =
    if-cases (Ensures (At tid work)) (is_some (lookup tid w.engine.world.scheduler.requests))
      (λ t. bind-Ensures (At tid work) (Queues.abort tid w.engine.world) _ (λ done h. at)) (λ f. at)

release_pages-At :
    (tid : String) (work : Work) (w : Worker)
    → At tid work w
    → Ensures (At tid work) (release_pages tid w)
unfolding release_pages set_cache
release_pages-At tid work w at =
    if-cases (Ensures (At tid work)) (has_allocation tid w.engine.world.cache)
      (λ t.
        bind-Ensures (At tid work) (free tid w.engine.world.cache) _
          (λ c h. bind-Ensures (At tid work) (unpin_transfer tid tid c) _ (λ c' h'. at)))
      (λ f. at)

pub remove_work-IsSlotted :
    (tid : String) (work : Work) (w : Worker)
    → At tid work w
    → Ensures IsSlotted (remove_work tid work w)
unfolding remove_work
remove_work-IsSlotted tid work w at = bind-Ensures IsSlotted (abort_registered tid w) _ (λ w' h.
    let at' =
      Ensures-ok (At tid work) (abort_registered tid w) h (abort_registered-At tid work w at) in
    bind-Ensures IsSlotted (release_pages tid w') _ (λ w'' h'.
      free_slot-IsSlotted tid work w''
        (Ensures-ok (At tid work) (release_pages tid w') h' (release_pages-At tid work w' at'))))

pub cancel_work-IsSlotted :
    (role : Role) (tid : String) (work : Work) (w : Worker)
    → w.role ≡ role
    → At tid work w
    → Ensures IsSlotted (cancel_work tid work w)
unfolding cancel_work set_scheduler
cancel_work-IsSlotted Role.prefill tid work w e at =
    rw (e, cancel_work)
      ((store-At tid work (record work { cancelled = true; chunks = [] }) w at refl).0)
cancel_work-IsSlotted Role.decode tid work w e at =
    let work' = record work { cancelled = true } in
    let at' = store-At tid work work' w at refl in
    rw (e, cancel_work)
      (if-cases (Ensures IsSlotted) work.active
        (λ t. remove_work-IsSlotted tid work' (store_work tid work' w) at') (λ f. at'.0))

pub commit_work-IsSlotted :
    (tid : String) (count : ℕ) (work : Work) (w : Worker)
    → At tid work w
    → Ensures IsSlotted (commit_work tid count work w)
unfolding commit_work
commit_work-IsSlotted tid count work w at =
    if-cases (Ensures IsSlotted) work.cancelled (λ t. at.0)
      (λ f.
        bind-Ensures IsSlotted (raise_if (conflicts work.expected count) runtime_error) _ (λ a h.
          bind-Ensures IsSlotted (raise_if (count == 0) runtime_error) _
            (λ b h'. (store-At tid work (record work { expected = some count }) w at refl).0)))
