-- ===== src/Common/Division.antt =====
-- Division is monotone, and rounds up as the source writes it.
use Prim.Native.Nat.{ℕ, zero, suc, ◌+◌, ◌-◌, ◌*◌, ◌/◌, ◌≤◌, ◌<◌}
use native.Mathlib.Nat.{le-div_iff_mul-le, div-mul-le_self}
use native.Mathlib.Decide.{dec_lt}
use native.Mathlib.Omega.{arith}

pub div_mono : (m n k : ℕ) → m ≤ n → m / k ≤ n / k
div_mono m n zero h = omega arith
div_mono m n (suc k) h =
    (le-div_iff_mul-le {k = suc k} (omega arith)).1 (omega (arith, div-mul-le_self m (suc k)))

-- `(n + k - 1) // k` pages of `k` hold `n` items, and one page fewer does not.
pub ceil_covers : (n k : ℕ) → 0 < k → n ≤ (n + k - 1) / k * k
ceil_covers n k h = grind arith

pub ceil_least : (n k pages : ℕ) → 0 < k → n ≤ pages * k → (n + k - 1) / k ≤ pages
ceil_least n k pages h le = elim (dec_lt pages ((n + k - 1) / k)) [
  | yes over ↦ absurd (omega (arith, (le-div_iff_mul-le {k = k} h).0 over))
  | no under ↦ omega arith
]
