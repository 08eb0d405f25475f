-- ===== src/Common/Maps.antt =====
-- Python's dictionaries with text keys, as association lists in insertion order.
use Prim.Native.Nat.{ℕ, ◌+◌, ◌≤◌}
use Prim.Native.String.{String}
use mathlib.Core.Path.{◌≡◌, refl, sym, subst, ap}
use mathlib.Core.Logic.{inl, inr}
use mathlib.Core.List.{List, [], ◌∷◌, ◌++◌}
use mathlib.Core.Option.{Option, none, some}
use native.Mathlib.Omega.{arith}
use vllm_rlt.Common.Lists.{All}
use vllm_rlt.Common.Tests.{if◌then◌else◌, str_eq, str_eq_iff, Bool-cases}

abbrev pub Dict {ℓ} : Type ℓ → Type ℓ
Dict V = List (String × V)

module _ {ℓ} {V : Type ℓ} where
  unfoldable pub lookup : String → Dict V → Option V
  lookup k [] = none
  lookup k ((j, v) ∷ m) = if str_eq j k then some v else lookup k m

  -- `m[k] = v`: a new key goes to the end, an old one keeps its place.
  unfoldable pub insert : String → V → Dict V → Dict V
  insert k v [] = (k, v) ∷ []
  insert k v ((j, w) ∷ m) = if str_eq j k then (j, v) ∷ m else (j, w) ∷ insert k v m

  -- `m.pop(k, None)`.
  unfoldable pub remove : String → Dict V → Dict V
  remove k [] = []
  remove k ((j, w) ∷ m) = if str_eq j k then m else (j, w) ∷ remove k m

  pub lookup-insert :
      (k j : String) (v : V) (m : Dict V)
      → lookup j (insert k v m) ≡ (if str_eq k j then some v else lookup j m)
  unfolding lookup insert
  lookup-insert k j v [] = refl
  lookup-insert k j v ((i, w) ∷ m) =
      ground (arith, str_eq_iff k j, str_eq_iff i k, str_eq_iff i j, lookup-insert k j v m)

  -- A measure of the values, added up.
  unfoldable pub total : (V → ℕ) → Dict V → ℕ
  total f [] = 0
  total f ((j, v) ∷ m) = f v + total f m

  pub total-insert_new :
      (f : V → ℕ) (k : String) (v : V) (m : Dict V)
      → lookup k m ≡ none
      → total f (insert k v m) ≡ total f m + f v
  unfolding lookup insert total
  total-insert_new f k v [] h = omega arith
  total-insert_new f k v ((j, w) ∷ m) h = ground (arith, total-insert_new f k v m)

  pub total-insert_old :
      (f : V → ℕ) (k : String) (v w : V) (m : Dict V)
      → lookup k m ≡ some w
      → total f (insert k v m) + f w ≡ total f m + f v
  unfolding lookup insert total
  total-insert_old f k v w [] h = ground arith
  total-insert_old f k v w ((j, x) ∷ m) h = ground (arith, total-insert_old f k v w m)

  pub total-remove :
      (f : V → ℕ) (k : String) (w : V) (m : Dict V)
      → lookup k m ≡ some w
      → total f (remove k m) + f w ≡ total f m
  unfolding lookup remove total
  total-remove f k w [] h = ground arith
  total-remove f k w ((j, x) ∷ m) h = ground (arith, total-remove f k w m)

  pub All-insert {κ} :
      (P : V → Type κ) (k : String) (v : V) (m : Dict V)
      → P v
      → All (λ e. P e.1) m
      → All (λ e. P e.1) (insert k v m)
  unfolding insert
  All-insert P k v [] h all = (h, tt)
  All-insert P k v ((j, w) ∷ m) h all = elim (Bool-cases (str_eq j k)) [
    | inl same ↦ rw (same, insert) (h, all.1)
    | inr other ↦ rw (other, insert) (all.0, All-insert P k v m h all.1)
  ]

  pub All-remove {κ} :
      (P : V → Type κ) (k : String) (m : Dict V)
      → All (λ e. P e.1) m
      → All (λ e. P e.1) (remove k m)
  unfolding remove
  All-remove P k [] all = tt
  All-remove P k ((j, w) ∷ m) all = elim (Bool-cases (str_eq j k)) [
    | inl same ↦ rw (same, remove) (all.1)
    | inr other ↦ rw (other, remove) (all.0, All-remove P k m all.1)
  ]

  pub All-lookup {κ} :
      (P : V → Type κ) (k : String) (v : V) (m : Dict V)
      → All (λ e. P e.1) m
      → lookup k m ≡ some v
      → P v
  unfolding lookup
  All-lookup P k v [] all h = absurd (ground arith)
  All-lookup P k v ((j, w) ∷ m) all h = elim (Bool-cases (str_eq j k)) [
    | inl same ↦ let e : w ≡ v = ground arith in subst P e all.0
    | inr other ↦ All-lookup P k v m all.1 (rw other at h)
  ]

  pub le-total_of_lookup :
      (f : V → ℕ) (k : String) (v : V) (m : Dict V) → lookup k m ≡ some v → f v ≤ total f m
  unfolding lookup total
  le-total_of_lookup f k v [] h = absurd (ground arith)
  le-total_of_lookup f k v ((j, w) ∷ m) h = elim (Bool-cases (str_eq j k)) [
    | inl same ↦ let e : w ≡ v = ground arith in omega (arith, ap f e)
    | inr other ↦ omega (arith, le-total_of_lookup f k v m (rw other at h))
  ]

  pub total-append : (f : V → ℕ) (m n : Dict V) → total f (m ++ n) ≡ total f m + total f n
  unfolding total
  total-append f [] n = omega arith
  total-append f ((j, w) ∷ m) n = omega (arith, total-append f m n)

  -- The same for a property of the key and the value.
  pub All-insert_keyed {κ} :
      (P : String × V → Type κ) (k : String) (v : V) (m : Dict V)
      → P (k, v)
      → All P m
      → All P (insert k v m)
  unfolding insert
  All-insert_keyed P k v [] h all = (h, tt)
  All-insert_keyed P k v ((j, w) ∷ m) h all = elim (Bool-cases (str_eq j k)) [
    | inl same ↦
        let e : j ≡ k = (str_eq_iff j k).0 same in
        rw (same, insert) (subst (λ i. P (i, v)) (sym e) h, all.1)
    | inr other ↦ rw (other, insert) (all.0, All-insert_keyed P k v m h all.1)
  ]

  pub All-remove_keyed {κ} :
      (P : String × V → Type κ) (k : String) (m : Dict V) → All P m → All P (remove k m)
  unfolding remove
  All-remove_keyed P k [] all = tt
  All-remove_keyed P k ((j, w) ∷ m) all = elim (Bool-cases (str_eq j k)) [
    | inl same ↦ rw (same, remove) (all.1)
    | inr other ↦ rw (other, remove) (all.0, All-remove_keyed P k m all.1)
  ]

  pub All-lookup_keyed {κ} :
      (P : String × V → Type κ) (k : String) (v : V) (m : Dict V)
      → All P m
      → lookup k m ≡ some v
      → P (k, v)
  unfolding lookup
  All-lookup_keyed P k v [] all h = absurd (ground arith)
  All-lookup_keyed P k v ((j, w) ∷ m) all h = elim (Bool-cases (str_eq j k)) [
    | inl same ↦
        let e : w ≡ v = ground arith in
        let i : j ≡ k = (str_eq_iff j k).0 same in
        subst (λ t. P (t, v)) i (subst (λ x. P (j, x)) e all.0)
    | inr other ↦ All-lookup_keyed P k v m all.1 (rw other at h)
  ]
