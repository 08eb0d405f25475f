-- ===== src/Speculative/Tests.antt =====
-- A run of the greedy acceptance, and an instance of its theorem.
use vllm_rlt.Common.{ℕ, ◌+◌, ◌≤◌, ◌≡◌, ◌≢◌, refl, ◌⊎◌, List, [], ◌∷◌, take, get_elem?, length}
use vllm_rlt.Speculative.{greedy_accept}
use vllm_rlt.Speculative.Accepted.{greedy_accept_lem}

abbrev candidates : List ℕ
candidates = 7 ∷ 8 ∷ 9 ∷ []

abbrev targets : List ℕ
targets = 7 ∷ 8 ∷ 5 ∷ 6 ∷ []

corrected : greedy_accept candidates targets ≡ (7 ∷ 8 ∷ 5 ∷ [], 2)
unfolding greedy_accept
corrected = refl

greedy_accept_lem_example :
    (tokens : List ℕ) × (accepted : ℕ) × (greedy_accept candidates targets ≡ (tokens, accepted))
    × (length tokens ≡ accepted + 1)
    × (tokens ≡ take (accepted + 1) targets)
    × (accepted ≤ length candidates)
    × (take accepted candidates ≡ take accepted targets)
    × ((accepted ≡ length candidates)
        ⊎ (get_elem? candidates accepted ≢ get_elem? targets accepted))
greedy_accept_lem_example = greedy_accept_lem candidates targets refl
