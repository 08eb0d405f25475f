-- ===== src/Scheduler/Queues/Sorted.antt =====
-- The admission order of vllm_rlt/core/scheduler.py is a stable sort by priority.
use vllm_rlt.Common.{
  ◌≡◌, refl, ◌∙◌, Bool, true, false, ◌&&◌, List, [], ◌∷◌, String, ok, arith, if-cases, All,
  All-mono, map, if◌then◌else◌,
}
use vllm_rlt.Scheduler.State.{
  ℤ, pos, negsuc, le_int, Stage, is_priority, same_stage, Scheduler, set_queue,
}
use vllm_rlt.Scheduler.Queues.{with_priority, place, sorted, order_waiting_requests}

pub le_int_trans : (a b c : ℤ) → le_int a b ≡ true → le_int b c ≡ true → le_int a c ≡ true
le_int_trans (pos a) (pos b) (pos c) h k = ground arith
le_int_trans (pos a) (pos b) (negsuc c) h k = k
le_int_trans (pos a) (negsuc b) c h k = absurd (cc)
le_int_trans (negsuc a) b (pos c) h k = refl
le_int_trans (negsuc a) (pos b) (negsuc c) h k = absurd (cc)
le_int_trans (negsuc a) (negsuc b) (negsuc c) h k = ground arith

le_int_total : (a b : ℤ) → le_int a b ≡ false → le_int b a ≡ true
le_int_total (pos a) (pos b) h = ground arith
le_int_total (pos a) (negsuc b) h = refl
le_int_total (negsuc a) (pos b) h = absurd (cc)
le_int_total (negsuc a) (negsuc b) h = ground arith

abbrev pub same_int : ℤ → ℤ → Bool
same_int a b = le_int a b && le_int b a

-- The entries of one priority, in their order.
unfoldable pub of_priority : ℤ → List (ℤ × String) → List (ℤ × String)
of_priority k [] = []
of_priority k (x ∷ xs) = let rest = of_priority k xs in if same_int x.0 k then x ∷ rest else rest

abbrev pub Ascending : List (ℤ × String) → Type 0
Ascending [] = Unit
Ascending (x ∷ xs) = All (λ y. le_int x.0 y.0 ≡ true) xs × Ascending xs

of_priority-place :
    (k : ℤ) (x : ℤ × String) (ys : List (ℤ × String))
    → of_priority k (place x ys) ≡ of_priority k (x ∷ ys)
unfolding of_priority place
of_priority-place k x [] = refl
of_priority-place k x (y ∷ ys) = ground (arith, of_priority-place k x ys, le_int_trans x.0 k y.0)

All-place :
    (P : ℤ × String → Type 0) (x : ℤ × String) (ys : List (ℤ × String))
    → P x
    → All P ys
    → All P (place x ys)
unfolding place
All-place P x [] px h = (px, tt)
All-place P x (y ∷ ys) px h =
    if-cases (All P) (le_int x.0 y.0) (λ le. (px, h)) (λ gt. (h.0, All-place P x ys px h.1))

place-Ascending : (x : ℤ × String) (ys : List (ℤ × String)) → Ascending ys → Ascending (place x ys)
unfolding place
place-Ascending x [] h = (tt, tt)
place-Ascending x (y ∷ ys) (above, h) =
    if-cases Ascending (le_int x.0 y.0)
      (λ le. ((le, All-mono ys (λ z k. le_int_trans x.0 y.0 z.0 le k) above), (above, h)))
      (λ gt. (
        All-place (λ z. le_int y.0 z.0 ≡ true) x ys (le_int_total x.0 y.0 gt) above,
        place-Ascending x ys h,
      ))

-- The sort puts lower priorities first, and keeps the entries of each priority in their order. So
-- it loses none and adds none.
sorted-Ascending :
    (xs : List (ℤ × String))
    → Ascending (sorted xs) × ((k : ℤ) → of_priority k (sorted xs) ≡ of_priority k xs)
unfolding sorted of_priority
sorted-Ascending [] = (tt, λ k. refl)
sorted-Ascending (x ∷ xs) =
    let (up, same) = sorted-Ascending xs in
    (
      place-Ascending x (sorted xs) up,
      λ k. of_priority-place k x (sorted xs) ∙ rw (same k, of_priority) refl,
    )

-- Under the priority policy, with every waiting request registered (`keyed` are their priorities),
-- the waiting queue is put in the order of the priorities, lower values first. Requests of one
-- priority keep their order, none is lost or added, and the queues of other stages stay.
pub order_waiting_requests-Ascending :
    (s : Scheduler) (keyed : List (ℤ × String))
    → is_priority s.config.policy ≡ true
    → with_priority s.requests (s.queues Stage.waiting) ≡ ok keyed
    → (s' : Scheduler) × (ranked : List (ℤ × String)) × (order_waiting_requests s ≡ ok s')
      × (s'.queues Stage.waiting ≡ map (λ e. e.1) ranked)
      × Ascending ranked
      × ((k : ℤ) → of_priority k ranked ≡ of_priority k keyed)
      × ((t : Stage) → same_stage t Stage.waiting ≡ false → s'.queues t ≡ s.queues t)
unfolding order_waiting_requests set_queue
order_waiting_requests-Ascending s keyed ranks found =
    let (up, same) = sorted-Ascending keyed in
    (
      set_queue Stage.waiting (map (λ e. e.1) (sorted keyed)) s,
      sorted keyed,
      rw (ranks, found) refl,
      refl,
      up,
      same,
      λ t other. rw other refl,
    )
