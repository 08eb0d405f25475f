-- ===== src/Speculative/Accepted.antt =====
-- Greedy acceptance commits what the target model alone would have chosen.
use vllm_rlt.Common.{
  ℕ, suc, ◌+◌, ◌≤◌, ◌<◌, ◌≡◌, ◌≢◌, refl, ap, ◌⊎◌, inl, inr, List, [], ◌∷◌, take, get_elem?, length,
  length-take, arith, Bool-cases, ◌==◌,
}
use vllm_rlt.Speculative.{count_accepted, greedy_accept}

count_accepted_lem :
    (candidates targets : List ℕ)
    → length candidates < length targets
    → (count_accepted candidates targets ≤ length candidates)
      × (take (count_accepted candidates targets) candidates
          ≡ take (count_accepted candidates targets) targets)
      × ((count_accepted candidates targets ≡ length candidates)
          ⊎ (get_elem? candidates (count_accepted candidates targets)
              ≢ get_elem? targets (count_accepted candidates targets)))
unfolding count_accepted
count_accepted_lem [] [] h = absurd (omega arith)
count_accepted_lem [] (target ∷ targets) h = (omega arith, refl, inl refl)
count_accepted_lem (candidate ∷ candidates) [] h = absurd (omega arith)
count_accepted_lem (candidate ∷ candidates) (target ∷ targets) h =
    elim (Bool-cases (candidate == target)) [
      | inr differ ↦ rw differ (omega arith, refl, inr (λ e. ground arith))
      | inl agree ↦
          let (le, same, stop) = count_accepted_lem candidates targets (omega arith) in
          let equal : candidate ≡ target = ground arith in
          rw agree (
            omega (arith, le),
            rw (equal, same) refl,
            elim stop [ inl all ↦ inl (ap suc all) | inr next ↦ inr next ],
          )
    ]

-- With one target more than candidates, the committed tokens are the first targets, one more than
-- the number of accepted candidates. The accepted candidates agree with their targets, and all are
-- accepted or the next one disagrees with its target.
pub greedy_accept_lem :
    (candidates targets : List ℕ)
    → length candidates + 1 ≡ length targets
    → (tokens : List ℕ) × (accepted : ℕ) × (greedy_accept candidates targets ≡ (tokens, accepted))
      × (length tokens ≡ accepted + 1)
      × (tokens ≡ take (accepted + 1) targets)
      × (accepted ≤ length candidates)
      × (take accepted candidates ≡ take accepted targets)
      × ((accepted ≡ length candidates)
          ⊎ (get_elem? candidates accepted ≢ get_elem? targets accepted))
unfolding greedy_accept
greedy_accept_lem candidates targets h =
    let accepted = count_accepted candidates targets in
    let (le, same, stop) = count_accepted_lem candidates targets (omega arith) in
    (
      take (accepted + 1) targets,
      accepted,
      refl,
      omega (arith, length-take (accepted + 1) targets, le, h),
      refl,
      le,
      same,
      stop,
    )
