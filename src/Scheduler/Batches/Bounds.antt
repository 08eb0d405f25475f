-- ===== src/Scheduler/Batches/Bounds.antt =====
-- What a batch of `_take` (vllm_rlt/core/scheduler.py) may hold.
use vllm_rlt.Common.{
  ℕ, zero, suc, ◌+◌, ◌≤◌, ◌<◌, ◌≡◌, refl, sym, ◌∙◌, inl, inr, Bool, true, false, ◌||◌, List, [],
  ◌∷◌, ◌++◌, Option, none, some, String, Result, arith, if-cases, All, All-append, length,
  if◌then◌else◌, Ensures, bind-Ensures, Ensures-ok, Ensures-mono, length-append, List-cases,
}
use vllm_rlt.KvCache.State.{is_empty}
use vllm_rlt.KvCache.Pages.{ensure_capacity}
use vllm_rlt.Scheduler.State.{
  Stage, same_stage, Request, SchedulerConfig, Scheduler, World, position, set_queue,
}
use vllm_rlt.Scheduler.Admission.{Callbacks, get_request}
use vllm_rlt.Scheduler.Batches.{
  ScheduledItem, SchedulerOutput, num_tokens, draft_tokens, make_scheduled_item,
  ensure_execution_capacity, Batch, grow_again, make_room, requeue, select, offer, accept, grows,
  spans, rests, full, take_next, take_rounds, take_batch,
}

abbrev pub SameConfig : World → Bool × World → Type 0
SameConfig w r = r.1.scheduler.config ≡ w.scheduler.config

-- The callback may do anything but replace the configuration.
abbrev pub Keeping : Option (String → Bool → List String → World → Result (Bool × World)) → Type 0
Keeping none = Unit
Keeping (some preempt) =
    (rid : String) (only : Bool) (excluded : List String) (w : World)
    → Ensures (SameConfig w) (preempt rid only excluded w)

num_tokens-nil : num_tokens [] ≡ 0
unfolding num_tokens
num_tokens-nil = refl

num_tokens-append :
    (xs : List ScheduledItem) (i : ScheduledItem)
    → num_tokens (xs ++ i ∷ []) ≡ num_tokens xs + i.token_count
unfolding num_tokens
num_tokens-append [] i = omega arith
num_tokens-append (x ∷ xs) i = omega (arith, num_tokens-append xs i)

-- The span of a prefill item lies in the prompt.
abbrev pub InPrompt : Stage → ScheduledItem → Type 0
InPrompt stage i =
    same_stage stage Stage.prefill ≡ true
    → i.token_start ≤ length i.request.prompt_token_ids
    → i.token_start + i.token_count ≤ length i.request.prompt_token_ids

-- An item takes no more than the budget that is left, and in prefill no more than the prompt.
abbrev IsSmall : Stage → ℕ → ScheduledItem → Type 0
IsSmall stage budget i = (i.token_count ≤ budget) × InPrompt stage i

make_scheduled_item-IsSmall :
    (r : Request) (stage : Stage) (budget : ℕ) (s : Scheduler)
    → 0 < budget
    → Ensures (IsSmall stage budget) (make_scheduled_item r stage budget s)
unfolding make_scheduled_item
make_scheduled_item-IsSmall r stage budget s some_left =
    if-cases (Ensures (IsSmall stage budget)) (same_stage stage Stage.prefill)
      (λ t. (omega arith, λ h le. omega arith))
      (λ f.
        if-cases (Ensures (IsSmall stage budget)) (same_stage stage Stage.speculative)
          (λ t.
            bind-Ensures (IsSmall stage budget) (draft_tokens s.num_speculative_tokens) _
              (λ drafts e. (omega arith, λ h le. absurd (let clash = sym f ∙ h in ground arith))))
          (λ g. (omega arith, λ h le. absurd (let clash = sym f ∙ h in ground arith))))

-- The invariant of the loop of `_take`.
record Fits (config : SchedulerConfig) (stage : Stage) (b : Batch) : Type 0 where
  same : b.world.scheduler.config ≡ config
  spent : b.budget + num_tokens b.items ≡ config.max_num_batched_tokens
  few : length b.items ≤ config.max_num_seqs
  inside : All (InPrompt stage) b.items

grow_again-config :
    (rid : String) (frontier : ℕ) (done : Bool) (w : World)
    → Ensures (SameConfig w) (grow_again rid frontier done w)
unfolding grow_again
grow_again-config rid frontier false w = refl
grow_again-config rid frontier true w =
    bind-Ensures (SameConfig w) (ensure_capacity rid frontier w.cache) _ (λ v e. refl)

make_room-config :
    (preempt : Option (String → Bool → List String → World → Result (Bool × World)))
    → Keeping preempt
    → (rid : String) (frontier : ℕ) (selected : List String) (enough : Bool) (w : World)
    → Ensures (SameConfig w) (make_room preempt rid frontier selected enough w)
unfolding make_room
make_room-config preempt keeps rid frontier selected true w = refl
make_room-config none keeps rid frontier selected false w = refl
make_room-config (some preempt) keeps rid frontier selected false w =
    bind-Ensures (SameConfig w) (preempt rid false selected w) _ (λ v e.
      let same : v.1.scheduler.config ≡ w.scheduler.config =
        Ensures-ok (SameConfig w) _ e (keeps rid false selected w) in
      Ensures-mono (SameConfig v.1) (SameConfig w) (grow_again rid frontier v.0 v.1)
        (λ r h. h ∙ same) (grow_again-config rid frontier v.0 v.1))

ensure_execution_capacity-config :
    (callbacks : Callbacks) (rid : String) (frontier : ℕ) (selected : List String) (w : World)
    → Keeping callbacks.preempt
    → Ensures (SameConfig w) (ensure_execution_capacity callbacks rid frontier selected w)
unfolding ensure_execution_capacity
ensure_execution_capacity-config callbacks rid frontier selected w keeps =
    bind-Ensures (SameConfig w) (ensure_capacity rid frontier w.cache) _ (λ v e.
      make_room-config callbacks.preempt keeps rid frontier selected v.0 (record w { cache = v.1 }))

abbrev HasRoom : SchedulerConfig → Batch → Type 0
HasRoom config b = (0 < b.budget) × (length b.items < config.max_num_seqs)

select-Fits :
    (config : SchedulerConfig) (stage : Stage) (item : ScheduledItem) (b b₁ : Batch)
    → Fits config stage b
    → HasRoom config b
    → b₁.budget ≡ b.budget
    → b₁.items ≡ b.items
    → b₁.world.scheduler.config ≡ config
    → IsSmall stage b.budget item
    → Fits config stage (select item b₁)
unfolding select
select-Fits config stage item b b₁ f (some_left, room) e₁ e₂ e₃ (le, inside) = record {
  same = e₃;
  spent = rw (e₁, e₂) (omega (arith, num_tokens-append b.items item, f.spent));
  few = rw e₂ (omega (arith, length-append b.items (item ∷ [])));
  inside = rw e₂ (All-append (InPrompt stage) b.items (item ∷ []) f.inside (inside, tt));
}

requeue-config :
    (stage : Stage) (rid : String) (w : World)
    → (requeue stage rid w).scheduler.config ≡ w.scheduler.config
unfolding requeue set_queue
requeue-config stage rid w = refl

keep_batch :
    (config : SchedulerConfig) (stage : Stage) (b : Batch) (w : World)
    → Fits config stage b
    → w.scheduler.config ≡ b.world.scheduler.config
    → Fits config stage (record b { world = w })
keep_batch config stage b w f same = record {
  same = same ∙ f.same;
  spent = f.spent;
  few = f.few;
  inside = f.inside;
}

accept-Fits :
    (config : SchedulerConfig) (stage : Stage) (item : ScheduledItem) (b : Batch) (enough : Bool)
    (w : World)
    → Fits config stage b
    → HasRoom config b
    → w.scheduler.config ≡ config
    → IsSmall stage b.budget item
    → Fits config stage (accept enough stage item (record b { world = w }))
unfolding accept
accept-Fits config stage item b true w f room same small =
    select-Fits config stage item b (record b { world = w }) f room refl refl same small
accept-Fits config stage item b false w f room same small =
    keep_batch config stage b _ f
      (requeue-config stage item.request.request_id w ∙ (same ∙ sym f.same))

offer-Fits :
    (config : SchedulerConfig) (callbacks : Callbacks) (stage : Stage) (r : Request) (b : Batch)
    → Keeping callbacks.preempt
    → Fits config stage b
    → HasRoom config b
    → Ensures (Fits config stage) (offer callbacks stage r b)
unfolding offer
offer-Fits config callbacks stage r b keeps f room =
    let made = make_scheduled_item r stage b.budget b.world.scheduler in
    let Good : Result Batch → Type 0 = Ensures (Fits config stage) in
    if-cases Good (rests stage r)
      (λ resting. keep_batch config stage b _ f (requeue-config stage r.request_id b.world))
      (λ resting. bind-Ensures (Fits config stage) made _ (λ item got.
        let frontier =
          if spans stage then item.token_start + item.token_count else position r + 1 in
        let small =
          Ensures-ok (IsSmall stage b.budget) made got
            (make_scheduled_item-IsSmall r stage b.budget b.world.scheduler room.0) in
        if-cases Good (grows stage)
          (λ growing.
            bind-Ensures (Fits config stage)
              (ensure_execution_capacity callbacks r.request_id frontier b.selected b.world) _
              (λ v e.
                let same : v.1.scheduler.config ≡ b.world.scheduler.config =
                  Ensures-ok (SameConfig b.world) _ e (
                    ensure_execution_capacity-config callbacks r.request_id frontier b.selected
                      b.world keeps) in
                accept-Fits config stage item b v.0 v.1 f room (same ∙ f.same) small))
          (λ growing. select-Fits config stage item b b f room refl refl f.same small)))

room_left :
    (config : SchedulerConfig) (stage : Stage) (b : Batch)
    → Fits config stage b
    → full b ≡ false
    → HasRoom config b
room_left config stage b f more = (ground arith, ground (arith, f.same))

take_next-Fits :
    (config : SchedulerConfig) (callbacks : Callbacks) (stage : Stage) (b : Batch)
    → Keeping callbacks.preempt
    → Fits config stage b
    → full b ≡ false
    → Ensures (Fits config stage) (take_next callbacks stage b)
unfolding take_next set_queue
take_next-Fits config callbacks stage b keeps f more =
    elim (List-cases (b.world.scheduler.queues stage)) [
      | inl none_left ↦ rw (none_left, take_next) tt
      | inr (rid, queue, e) ↦
          let s = set_queue stage queue b.world.scheduler in
          let b' : Batch = record b { world = record b.world { scheduler = s } } in
          let f' : Fits config stage b' = keep_batch config stage b b'.world f refl in
          rw (e, take_next)
            (bind-Ensures (Fits config stage) (get_request rid b.world.scheduler) _ (λ r h.
              offer-Fits config callbacks stage r b' keeps f' (room_left config stage b f more)))
    ]

take_rounds-Fits :
    (config : SchedulerConfig) (callbacks : Callbacks) (stage : Stage) (remaining : ℕ) (b : Batch)
    → Keeping callbacks.preempt
    → Fits config stage b
    → Ensures (Fits config stage) (take_rounds remaining callbacks stage b)
unfolding take_rounds
take_rounds-Fits config callbacks stage zero b keeps f = f
take_rounds-Fits config callbacks stage (suc remaining) b keeps f =
    if-cases (Ensures (Fits config stage)) (full b || is_empty (b.world.scheduler.queues stage))
      (λ done. f)
      (λ more. bind-Ensures (Fits config stage) (take_next callbacks stage b) _ (λ next e.
        take_rounds-Fits config callbacks stage remaining next keeps (
          Ensures-ok (Fits config stage) _ e
            (take_next-Fits config callbacks stage b keeps f (ground arith)))))

-- A batch of the stage asked for that is not empty and keeps within the limits.
abbrev pub Bounded : SchedulerConfig → Stage → Option SchedulerOutput → Type 0
Bounded config stage none = Unit
Bounded config stage (some out) =
    (out.stage ≡ stage)
    × (is_empty out.items ≡ false)
    × (length out.items ≤ config.max_num_seqs)
    × (num_tokens out.items ≤ config.max_num_batched_tokens)
    × All (InPrompt stage) out.items

-- A batch that `_take` returns is of the stage asked for and is not empty. It has no more requests
-- than `max_num_seqs` and no more tokens than `max_num_batched_tokens`, and each prefill span that
-- starts in its prompt ends in it. The preemption callback must leave the configuration as it is.
pub take_batch-Bounded :
    (callbacks : Callbacks) (stage : Stage) (w : World)
    → Keeping callbacks.preempt
    → Ensures (λ r. Bounded w.scheduler.config stage r.0) (take_batch callbacks stage w)
unfolding take_batch
take_batch-Bounded callbacks stage w keeps =
    let config = w.scheduler.config in
    let start : Batch = record {
      budget = config.max_num_batched_tokens;
      items = [];
      selected = [];
      world = w;
    } in
    let started : Fits config stage start = record {
      same = refl;
      spent = omega (arith, num_tokens-nil);
      few = omega arith;
      inside = tt;
    } in
    let rounds = length (w.scheduler.queues stage) in
    bind-Ensures (λ r. Bounded config stage r.0) (take_rounds rounds callbacks stage start) _
      (λ b e.
        let f : Fits config stage b =
          Ensures-ok (Fits config stage) _ e
            (take_rounds-Fits config callbacks stage rounds start keeps started) in
        if-cases (λ (r : Option SchedulerOutput × World). Bounded config stage r.0)
          (is_empty b.items) (λ h. tt) (λ h. (refl, h, f.few, omega (arith, f.spent), f.inside)))
