-- ===== src/KvCache/Written/Laws.antt =====
-- The bookkeeping of written positions is a finite set in normal form.
use vllm_rlt.Common.{
  ℕ, zero, suc, ◌+◌, ◌≤◌, ◌<◌, ◌≡◌, refl, List, [], ◌∷◌, true, ◌||◌, ◌&&◌, ltb, ◌==◌, contains,
  length, arith, not, Bool-cases, inl, inr, ◌∙◌, ◌↔◌,
}
use vllm_rlt.KvCache.Written.{Written, add_pending, remove_pending, below, absorb, add, holds, cut}

contains-remove_pending :
    (p q : ℕ) (ps : List ℕ) → contains p (remove_pending q ps) ≡ (not (p == q) && contains p ps)
unfolding remove_pending
contains-remove_pending p q [] = ground arith
contains-remove_pending p q (x ∷ ps) = ground (arith, contains-remove_pending p q ps)

length-remove_pending :
    (q : ℕ) (ps : List ℕ) → contains q ps ≡ true → length (remove_pending q ps) < length ps
unfolding remove_pending
length-remove_pending q [] h = ground arith
length-remove_pending q (x ∷ ps) h =
    ground (arith, length-remove_pending q ps, length-remove_pending_le q ps)
  where
    length-remove_pending_le : (q : ℕ) (ps : List ℕ) → length (remove_pending q ps) ≤ length ps
    length-remove_pending_le q [] = omega arith
    length-remove_pending_le q (x ∷ ps) = ground (arith, length-remove_pending_le q ps)

contains-below : (p n : ℕ) (ps : List ℕ) → contains p (below n ps) ≡ (ltb p n && contains p ps)
unfolding below
contains-below p n [] = ground arith
contains-below p n (x ∷ ps) = ground (arith, contains-below p n ps)

-- Every pending position lies beyond the prefix: the prefix is as long as it can be.
abbrev pub IsNormal : Written → Type 0
IsNormal w = (p : ℕ) → contains p w.pending ≡ true → w.prefix < p

-- The loop ends by its test, and keeps the set.
absorb_lem :
    (fuel prefix : ℕ) (ps : List ℕ)
    → length ps ≤ fuel
    → ((p : ℕ) → contains p ps ≡ true → prefix ≤ p)
    → IsNormal (absorb fuel prefix ps)
      × ((p : ℕ) → holds (absorb fuel prefix ps) p ≡ (ltb p prefix || contains p ps))
unfolding absorb holds
absorb_lem zero prefix [] h above = (λ p. ground arith, λ p. refl)
absorb_lem zero prefix (x ∷ ps) h above = absurd (omega arith)
absorb_lem (suc fuel) prefix ps h above = elim (Bool-cases (contains prefix ps)) [
  | inl found ↦
      let less : (p : ℕ) → contains p (remove_pending prefix ps) ≡ true → prefix + 1 ≤ p =
        λ p e. ground (arith, above p, contains-remove_pending p prefix ps) in
      let rest =
        absorb_lem fuel (prefix + 1) (remove_pending prefix ps)
          (omega (arith, length-remove_pending prefix ps found)) less in
      rw (found, absorb)
        (rest.0, λ p. rest.1 p ∙ ground (arith, contains-remove_pending p prefix ps, above p))
  | inr missing ↦ rw (missing, absorb) (λ p e. ground (arith, above p), λ p. refl)
]

contains-add_pending :
    (p q : ℕ) (ps : List ℕ) → contains p (add_pending q ps) ≡ ((q == p) || contains p ps)
unfolding add_pending
contains-add_pending p q ps = ground arith

add_lem :
    (w : Written) (q : ℕ)
    → IsNormal w
    → IsNormal (add w q) × ((p : ℕ) → holds (add w q) p ≡ ((q == p) || holds w p))
unfolding add holds
add_lem w q n = elim (Bool-cases (ltb q w.prefix)) [
  | inl low ↦ rw (low, add) (n, λ p. ground arith)
  | inr ge ↦ elim (Bool-cases (ltb w.prefix q)) [
    | inl high ↦ (
      λ p. ground (arith, n p, contains-add_pending p q w.pending),
      λ p. ground (arith, contains-add_pending p q w.pending),
    )
    | inr le ↦
        let e : q ≡ w.prefix = ground arith in
        let r =
          absorb_lem (length w.pending) (w.prefix + 1) w.pending (omega arith)
            (λ p e. omega (arith, n p e)) in
        (λ p. ground (arith, r.0 p), λ p. ground (arith, r.1 p))
  ]
]

-- `add` keeps the pending positions beyond the prefix; the loop of `add` ends within its fuel.
pub add-IsNormal : (w : Written) (q : ℕ) → IsNormal w → IsNormal (add w q)
add-IsNormal w q n = (add_lem w q n).0

-- On written positions in normal form, `add` makes the position written, forgets none and writes no
-- other.
pub holds-add : (w : Written) (q p : ℕ) → IsNormal w → holds (add w q) p ≡ ((q == p) || holds w p)
holds-add w q p n = (add_lem w q n).1 p

-- What a normal form's prefix means: the positions below `n` are all written exactly if the
-- prefix has reached `n`.
pub prefix_iff :
    (w : Written) (n : ℕ) → IsNormal w → ((p : ℕ) → p < n → holds w p ≡ true) ↔ (n ≤ w.prefix)
unfolding holds
prefix_iff w n normal =
    (λ all. ground (arith, all w.prefix, normal w.prefix), λ le p lt. ground arith)

pub cut-IsNormal : (w : Written) (n : ℕ) → IsNormal w → IsNormal (cut n w)
unfolding cut
cut-IsNormal w n normal = λ p e. ground (arith, normal p, contains-below p n w.pending)

-- Truncation keeps exactly the positions below the frontier.
pub holds-cut : (w : Written) (n p : ℕ) → holds (cut n w) p ≡ (ltb p n && holds w p)
unfolding cut holds
holds-cut w n p = ground (arith, contains-below p n w.pending)
