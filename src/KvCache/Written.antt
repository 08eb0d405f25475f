-- ===== src/KvCache/Written.antt =====
-- `_WrittenPositions` of vllm_rlt/core/kv_cache_manager.py: the positions of one plane and layer
-- whose keys and values are written, as a contiguous prefix and a set of later positions.
pub mod Laws
use vllm_rlt.Common.{
  ℕ, zero, suc, ◌+◌, ◌≤◌, ◌<◌, ◌≡◌, List, [], ◌∷◌, Bool, true, false, ◌||◌, ltb, ◌==◌,
  if◌then◌else◌, contains, length, min,
}

pub record Written : Type 0 where
  pub prefix : ℕ
  pub pending : List ℕ

-- `set.add`: a set holds a position once.
unfoldable pub add_pending : ℕ → List ℕ → List ℕ
add_pending p ps = if contains p ps then ps else p ∷ ps

-- `set.remove` of a position that is there, and `{p for p in pending if p != position}` at large.
unfoldable pub remove_pending : ℕ → List ℕ → List ℕ
remove_pending p [] = []
remove_pending p (q ∷ ps) = let rest = remove_pending p ps in if q == p then rest else q ∷ rest

-- `{p for p in pending if p < frontier}`.
unfoldable pub below : ℕ → List ℕ → List ℕ
below frontier [] = []
below frontier (p ∷ ps) = let rest = below frontier ps in if ltb p frontier then p ∷ rest else rest

-- `while self.prefix in self.pending`: each round takes a position out of `pending`, so its
-- length is enough fuel.
unfoldable pub absorb : ℕ → ℕ → List ℕ → Written
unfolding remove_pending
absorb zero prefix pending = record { prefix = prefix; pending = pending }
absorb (suc fuel) prefix pending = elim (contains prefix pending) [
  | true ↦ absorb fuel (prefix + 1) (remove_pending prefix pending)
  | false ↦ record { prefix = prefix; pending = pending }
]

unfoldable pub add : Written → ℕ → Written
unfolding add_pending absorb
add w position =
    if ltb position w.prefix
    then w
    else if ltb w.prefix position
    then record w { pending = add_pending position w.pending }
    else absorb (length w.pending) (w.prefix + 1) w.pending

-- `position in written`.
unfoldable pub holds : Written → ℕ → Bool
holds w position = ltb position w.prefix || contains position w.pending

-- `_WrittenPositions(prefix=length)`.
unfoldable pub written_to : ℕ → Written
written_to n = record { prefix = n; pending = [] }

-- The two assignments at the end of `truncate_suffix`.
unfoldable pub cut : ℕ → Written → Written
unfolding below
cut frontier w = record { prefix = min w.prefix frontier; pending = below frontier w.pending }
