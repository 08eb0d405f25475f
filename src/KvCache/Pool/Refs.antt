-- ===== src/KvCache/Pool/Refs.antt =====
-- Reference counts agree with the references held, and the free list holds each unreferenced block
-- once.
use vllm_rlt.Common.{
  ℕ, zero, suc, ◌+◌, ◌≤◌, ◌<◌, ◌≡◌, refl, ◌&&◌, List, [], ◌∷◌, ◌++◌, some, Result, ok, ltb, ◌==◌,
  if◌then◌else◌, length, get_elem?, get_or, set, count, arith, ◌∙◌, All, All-mono, count-append,
  replicate, length-replicate, count-range_from, get_or-set, get_elem?-get_or, get_or_outside,
  length-set, Bool-cases, inl, inr,
}
use vllm_rlt.KvCache.Pool.{Pool, drop_ref, drop_refs, add_refs, exclusive, empty_pool}

get_or-zeros : (n b : ℕ) → get_or (replicate {A = ℕ} n 0) b 0 ≡ 0
get_or-zeros zero b = refl
get_or-zeros (suc n) zero = refl
get_or-zeros (suc n) (suc b) = get_or-zeros n b

-- `held b` is the number of references to block `b` that tables and prefix entries hold.
pub record Balanced (held : ℕ → ℕ) (p : Pool) : Type 0 where
  pub counted : (b : ℕ) → get_or p.refs b 0 ≡ held b
  pub free_once :
      (b : ℕ) → count b p.free_blocks ≡ (if ltb b (length p.refs) && (held b == 0) then 1 else 0)

pub Balanced-ext : (f g : ℕ → ℕ) (p : Pool) → ((b : ℕ) → f b ≡ g b) → Balanced f p → Balanced g p
Balanced-ext f g p same v = record {
  counted = λ b. ground (arith, same b, v.counted b);
  free_once = λ b. ground (arith, same b, v.free_once b);
}

-- A referenced block lies in the pool.
pub held_inside :
    (held : ℕ → ℕ) (p : Pool) (b : ℕ) → Balanced held p → 0 < held b → b < length p.refs
held_inside held p b v h = elim (Bool-cases (ltb b (length p.refs))) [
  | inl inside ↦ ground arith
  | inr outside ↦ absurd (ground (arith, v.counted b, get_or_outside p.refs b 0 (ground arith)))
]

-- Blocks that a change of one count leaves exclusive, if the changed block is not counted among
-- them.
exclusive-set-le :
    (refs : List ℕ) (b v : ℕ) (os : List ℕ)
    → (get_or refs b 0 ≡ 1 → count b os ≡ 0)
    → exclusive refs os ≤ exclusive (set refs b v) os
unfolding exclusive
exclusive-set-le refs b v [] absent = omega arith
exclusive-set-le refs b v (x ∷ os) absent =
    ground
      (arith, get_or-set refs b x v 0, exclusive-set-le refs b v os (λ e. ground (arith, absent e)))

-- What dropping the blocks `bs` does, where `held` counts the references that stay.
pub record Dropped (bs : List ℕ) (held : ℕ → ℕ) (p : Pool) (r : Result Pool) : Type 0 where
  pub after : Pool
  pub returns : r ≡ ok after
  pub balanced : Balanced held after
  pub same_size : length after.refs ≡ length p.refs
  pub frees :
      (os : List ℕ)
      → ((a : ℕ) → count a os ≤ held a)
      → length p.free_blocks + exclusive p.refs (bs ++ os)
        ≤ length after.free_blocks + exclusive after.refs os

-- Dropping a reference that is held.
drop_ref-Dropped :
    (b : ℕ) (held : ℕ → ℕ) (p : Pool)
    → Balanced (λ a. (if b == a then 1 else 0) + held a) p
    → Dropped (b ∷ []) held p (drop_ref b p)
unfolding drop_ref exclusive
drop_ref-Dropped b held p v =
    let inside : b < length p.refs = held_inside _ p b v (ground arith) in
    let found : get_elem? p.refs b ≡ some (suc (held b)) =
      ground (arith, get_elem?-get_or p.refs b 0 inside, v.counted b) in
    record {
      after = record {
        refs = set p.refs b (held b);
        free_blocks = if held b == 0 then b ∷ p.free_blocks else p.free_blocks;
      };
      returns = rw (found, drop_ref);
      balanced = record {
        counted = λ a. ground (arith, get_or-set p.refs b a (held b) 0, v.counted a);
        free_once = λ a. ground (arith, length-set p.refs b (held b), v.free_once a);
      };
      same_size = length-set p.refs b (held b);
      frees = λ os fits. ground (arith, v.counted b, fits b, exclusive-set-le p.refs b (held b) os);
    }

pub drop_refs-Dropped :
    (bs : List ℕ) (held : ℕ → ℕ) (p : Pool)
    → Balanced (λ a. count a bs + held a) p
    → Dropped bs held p (drop_refs bs p)
unfolding drop_refs
drop_refs-Dropped [] held p v = record {
  after = p;
  returns = refl;
  balanced = Balanced-ext _ held p (λ a. omega arith) v;
  same_size = refl;
  frees = λ os fits. omega arith;
}
drop_refs-Dropped (b ∷ bs) held p v =
    let first =
      drop_ref-Dropped b (λ a. count a bs + held a) p (Balanced-ext _ _ p (λ a. omega arith) v) in
    let rest = drop_refs-Dropped bs held first.after first.balanced in
    record {
      after = rest.after;
      returns = rw first.returns rest.returns;
      balanced = rest.balanced;
      same_size = rest.same_size ∙ first.same_size;
      frees = λ os fits. omega (
        arith,
        first.frees (bs ++ os) (λ a. omega (arith, count-append a bs os, fits a)),
        rest.frees os fits,
      );
    }

-- Another reference to a held block: what was exclusive and is no longer counts once.
exclusive-add_ref :
    (refs : List ℕ) (b : ℕ) (os : List ℕ)
    → 0 < get_or refs b 0
    → (exclusive refs os
        ≤ exclusive (set refs b (suc (get_or refs b 0))) os
          + (if get_or refs b 0 == 1 then count b os else 0))
      × (exclusive (set refs b (suc (get_or refs b 0))) os ≤ exclusive refs os)
unfolding exclusive
exclusive-add_ref refs b [] held = (omega arith, omega arith)
exclusive-add_ref refs b (x ∷ os) held =
    let (low, high) = exclusive-add_ref refs b os held in
    (
      ground (arith, get_or-set refs b x (suc (get_or refs b 0)) 0, low),
      ground (arith, get_or-set refs b x (suc (get_or refs b 0)) 0, high),
    )

-- What taking references to `bs` does, where the references `held` stay.
pub record Added (bs : List ℕ) (held : ℕ → ℕ) (p : Pool) (r : Result Pool) : Type 0 where
  pub after : Pool
  pub returns : r ≡ ok after
  pub balanced : Balanced (λ a. count a bs + held a) after
  pub same_size : length after.refs ≡ length p.refs
  pub same_free : after.free_blocks ≡ p.free_blocks
  pub costs :
      (os : List ℕ)
      → ((a : ℕ) → count a os ≤ held a)
      → exclusive p.refs os ≤ exclusive after.refs os + exclusive p.refs bs

-- Taking references to blocks that are already held, as a prefix hit does.
pub add_refs-Added :
    (bs : List ℕ) (held : ℕ → ℕ) (p : Pool)
    → Balanced held p
    → All (λ b. 0 < held b) bs
    → Added bs held p (add_refs bs p)
unfolding add_refs exclusive
add_refs-Added [] held p v cached = record {
  after = p;
  returns = refl;
  balanced = Balanced-ext held _ p (λ a. omega arith) v;
  same_size = refl;
  same_free = refl;
  costs = λ os fits. omega arith;
}
add_refs-Added (b ∷ bs) held p v (here, cached) =
    let inside : b < length p.refs = held_inside _ p b v here in
    let found : get_elem? p.refs b ≡ some (get_or p.refs b 0) =
      get_elem?-get_or p.refs b 0 inside in
    let next : Pool = record p { refs = set p.refs b (suc (get_or p.refs b 0)) } in
    let held' = λ (a : ℕ). (if b == a then 1 else 0) + held a in
    let v' : Balanced held' next = record {
      counted = λ a.
          ground
            (arith, get_or-set p.refs b a (suc (get_or p.refs b 0)) 0, v.counted a, v.counted b);
      free_once = λ a.
          ground (arith, length-set p.refs b (suc (get_or p.refs b 0)), v.free_once a, v.counted b);
    } in
    let rest = add_refs-Added bs held' next v' (All-mono bs (λ a h. omega arith) cached) in
    record {
      after = rest.after;
      returns = rw (found, add_refs) rest.returns;
      balanced = Balanced-ext _ _ rest.after (λ a. omega arith) rest.balanced;
      same_size = rest.same_size ∙ length-set p.refs b (suc (get_or p.refs b 0));
      same_free = rest.same_free;
      costs = λ os fits.
          let pos : 0 < get_or p.refs b 0 = omega (arith, v.counted b) in
          ground (
            arith,
            rest.costs os (λ a. omega (arith, fits a)),
            (exclusive-add_ref p.refs b os pos).0,
            (exclusive-add_ref p.refs b bs pos).1,
            fits b,
            v.counted b,
          );
    }

pub empty_pool-Balanced : (n : ℕ) → Balanced (λ b. 0) (empty_pool n)
unfolding empty_pool
empty_pool-Balanced n = record {
  counted = get_or-zeros n;
  free_once = λ b. ground (arith, count-range_from b 0 n, length-replicate {A = ℕ} n 0);
}
