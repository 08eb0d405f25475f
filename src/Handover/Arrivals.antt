-- ===== src/Handover/Arrivals.antt =====
-- When a decode worker (vllm_rlt/pd/worker.py) takes a hand-over to be complete.
use vllm_rlt.Common.{
  ℕ, zero, suc, ◌≤◌, ◌<◌, ◌≡◌, refl, sym, ap, subst, ◌∙◌, inl, inr, true, false, List, [], ◌∷◌, ok,
  leb, ◌==◌, length, any, contains, All, if◌then◌else◌, arith, Bool-cases, ==_iff,
}
use vllm_rlt.Handover.Progress.{add_sequence, has_arrived}

-- The set of received sequence numbers after notifications, the last of them first.
abbrev pub received_of : List ℕ → List ℕ
received_of [] = []
received_of (n ∷ notes) = add_sequence n (received_of notes)

abbrev IsDistinct : List ℕ → Type 0
IsDistinct [] = Unit
IsDistinct (x ∷ xs) = (contains x xs ≡ false) × IsDistinct xs

abbrev Below : ℕ → List ℕ → Type 0
Below n xs = All (λ x. x < n) xs

-- The list without a number.
abbrev without : ℕ → List ℕ → List ℕ
without k [] = []
without k (x ∷ xs) = if x == k then without k xs else x ∷ without k xs

contains-without :
    (k x : ℕ) (xs : List ℕ) → contains x xs ≡ false → contains x (without k xs) ≡ false
contains-without k x [] h = refl
contains-without k x (y ∷ xs) h = elim (Bool-cases (y == k)) [
  | inl t ↦ rw t (contains-without k x xs (ground arith))
  | inr f ↦ let rest = contains-without k x xs (ground arith) in rw f (ground arith)
]

without-IsDistinct : (k : ℕ) (xs : List ℕ) → IsDistinct xs → IsDistinct (without k xs)
without-IsDistinct k [] h = tt
without-IsDistinct k (x ∷ xs) h = elim (Bool-cases (x == k)) [
  | inl t ↦ rw t (without-IsDistinct k xs h.1)
  | inr f ↦ rw f (contains-without k x xs h.0, without-IsDistinct k xs h.1)
]

without-Below : (k : ℕ) (xs : List ℕ) → Below (suc k) xs → Below k (without k xs)
without-Below k [] h = tt
without-Below k (x ∷ xs) h = elim (Bool-cases (x == k)) [
  | inl t ↦ rw t (without-Below k xs h.1)
  | inr f ↦ let below = h.0 in rw f (ground arith, without-Below k xs h.1)
]

without_absent : (k : ℕ) (xs : List ℕ) → contains k xs ≡ false → length (without k xs) ≡ length xs
without_absent k [] h = refl
without_absent k (x ∷ xs) h =
    let rest = without_absent k xs (ground arith) in
    let other : (x == k) ≡ false = ground arith in rw other (ap suc rest)

length-without : (k : ℕ) (xs : List ℕ) → IsDistinct xs → length xs ≤ suc (length (without k xs))
length-without k [] h = omega arith
length-without k (x ∷ xs) h = elim (Bool-cases (x == k)) [
  | inl t ↦
      let same : x ≡ k = (==_iff x k).0 t in
      let absent : contains k xs ≡ false = subst (λ i. contains i xs ≡ false) same h.0 in
      rw t (omega (arith, without_absent k xs absent))
  | inr f ↦ rw f (omega (arith, length-without k xs h.1))
]

-- Distinct numbers below a bound are at most as many.
distinct_bound : (n : ℕ) (xs : List ℕ) → IsDistinct xs → Below n xs → length xs ≤ n
distinct_bound zero [] d b = omega arith
distinct_bound zero (x ∷ xs) d b = absurd (let h = b.0 in omega arith)
distinct_bound (suc n) xs d b = omega (
  arith,
  length-without n xs d,
  distinct_bound n (without n xs) (without-IsDistinct n xs d) (without-Below n xs b),
)

received_of-IsDistinct : (notes : List ℕ) → IsDistinct (received_of notes)
received_of-IsDistinct [] = tt
received_of-IsDistinct (n ∷ notes) = elim (Bool-cases (contains n (received_of notes))) [
  | inl t ↦ rw t (received_of-IsDistinct notes)
  | inr f ↦ rw f (f, received_of-IsDistinct notes)
]

contains-received_of : (k : ℕ) (notes : List ℕ) → contains k (received_of notes) ≡ contains k notes
contains-received_of k [] = refl
contains-received_of k (n ∷ notes) =
    let rest = contains-received_of k notes in
    elim (Bool-cases (contains n (received_of notes))) [
      | inl t ↦ elim (Bool-cases (n == k)) [
        | inl same ↦
            let e : n ≡ k = (==_iff n k).0 same in
            let h : contains k (received_of notes) ≡ true =
              subst (λ i. contains i (received_of notes) ≡ true) e t in
            rw (t, same) h
        | inr other ↦ rw (t, other) rest
      ]
      | inr f ↦ rw f (ground (arith, rest))
    ]

any-Below : (n : ℕ) (xs : List ℕ) → any (λ s. leb n s) xs ≡ false → Below n xs
any-Below n [] h = tt
any-Below n (x ∷ xs) h = (ground arith, any-Below n xs (ground arith))

Below-contains : (n k : ℕ) (xs : List ℕ) → Below n xs → contains k xs ≡ true → k < n
Below-contains n k [] b h = absurd (ground arith)
Below-contains n k (x ∷ xs) b h = elim (Bool-cases (x == k)) [
  | inl t ↦ let low = b.0 in ground arith
  | inr f ↦ Below-contains n k xs b.1 (rw f at h)
]

-- A hand-over is taken to be complete only when each of the announced chunks has arrived: where the
-- check passes on the sequence numbers noted so far, every number below the announced count has been
-- reported, in whatever order and however often, and no number beyond it.
pub has_arrived_lem :
    (expected : ℕ) (notes : List ℕ)
    → has_arrived expected (received_of notes) ≡ ok true
    → (k : ℕ) → contains k notes ≡ (leb (suc k) expected)
unfolding has_arrived
has_arrived_lem expected notes h k =
    let xs = received_of notes in
    elim (Bool-cases (any (λ s. leb expected s) xs)) [
      | inl bad ↦ absurd (let g = rw (bad, has_arrived) at h in ground arith)
      | inr fine ↦
          let g = rw (fine, has_arrived) at h in
          let full : length xs ≡ expected = ground arith in
          let below = any-Below expected xs fine in
          let same = contains-received_of k notes in
          elim (Bool-cases (contains k xs)) [
            | inl here ↦ let low = Below-contains expected k xs below here in ground arith
            | inr absent ↦ elim (Bool-cases (leb (suc k) expected)) [
              | inl low ↦
                  let b : Below expected (k ∷ xs) = (ground arith, below) in
                  absurd (
                    omega (
                      arith,
                      full,
                      distinct_bound expected (k ∷ xs) (absent, received_of-IsDistinct notes) b,
                    ))
              | inr high ↦ sym same ∙ (absent ∙ sym high)
            ]
          ]
    ]
