-- ===== src/Speculative.antt =====
-- Acceptance of speculated tokens in vllm_rlt/worker/speculative.py.
pub mod Accepted
mod Tests
use vllm_rlt.Common.{ℕ, suc, ◌+◌, ◌==◌, List, [], ◌∷◌, take, if◌then◌else◌}

-- The loop of `greedy_accept`, over `zip(candidates, targets)`.
unfoldable pub count_accepted : List ℕ → List ℕ → ℕ
count_accepted [] targets = 0
count_accepted (candidate ∷ candidates) [] = 0
count_accepted (candidate ∷ candidates) (target ∷ targets) =
    let rest = count_accepted candidates targets in if candidate == target then suc rest else 0

unfoldable pub greedy_accept : List ℕ → List ℕ → List ℕ × ℕ
unfolding count_accepted
greedy_accept candidates targets =
    let accepted = count_accepted candidates targets in (take (accepted + 1) targets, accepted)
