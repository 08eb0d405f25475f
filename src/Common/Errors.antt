-- ===== src/Common/Errors.antt =====
-- Python's exceptions as values, and the chain of steps that may raise.
use mathlib.Core.Path.{◌≡◌, refl, subst}
use mathlib.Core.Bool.{Bool, true, false}

pub data Error : Type 0 where
  value_error runtime_error key_error index_error assertion_error timeout_error attribute_error :
      Error

pub data Result {ℓ} (V : Type ℓ) : Type ℓ where
  err : (raised : Error) → Result V
  ok : (value : V) → Result V

-- `if bad: raise e`.
abbrev pub raise_if : Bool → Error → Result (Unit {0})
raise_if false e = ok tt
raise_if true e = err e

infixl 5 ◌>>=◌
abbrev pub ◌>>=◌ {ℓ κ} : {V : Type ℓ} {W : Type κ} → Result V → (V → Result W) → Result W
err raised >>= next = err raised
ok value >>= next = next value

-- A bind that returns has its first step return too.
pub >>=-eq-ok {ℓ κ} :
    {V : Type ℓ} {W : Type κ} (m : Result V) (next : V → Result W) {w : W}
    → (m >>= next) ≡ ok w
    → (v : V) × (m ≡ ok v) × (next v ≡ ok w)
>>=-eq-ok (err raised) next h = cc
>>=-eq-ok (ok value) next h = (value, refl, h)

infixl 5 ◌>>◌
abbrev pub ◌>>◌ {ℓ} : {W : Type ℓ} → Result (Unit {0}) → Result W → Result W
check >> rest = check >>= λ done. rest

-- Whatever is returned has the property.
abbrev pub Ensures {ℓ κ} : {V : Type ℓ} → (V → Type κ) → Result V → Type κ
Ensures P (err raised) = Unit
Ensures P (ok value) = P value

pub bind-Ensures {ℓ κ ι} :
    {V : Type ℓ} {W : Type κ} (P : W → Type ι) (m : Result V) (next : V → Result W)
    → ((v : V) → m ≡ ok v → Ensures P (next v))
    → Ensures P (m >>= next)
bind-Ensures P (err raised) next h = tt
bind-Ensures P (ok value) next h = h value refl

pub Ensures-ok {ℓ κ} :
    {V : Type ℓ} (P : V → Type κ) (m : Result V) {v : V} → m ≡ ok v → Ensures P m → P v
Ensures-ok P m e h = subst (Ensures P) e h

pub Ensures-mono {ℓ κ ι} :
    {V : Type ℓ} (P : V → Type κ) (Q : V → Type ι) (m : Result V)
    → ((v : V) → P v → Q v)
    → Ensures P m
    → Ensures Q m
Ensures-mono P Q (err raised) h k = tt
Ensures-mono P Q (ok value) h k = h value k

-- No exception is raised, and what is returned has the property.
abbrev pub Returns {ℓ} : {V : Type ℓ} → (V → Type 0) → Result V → Type 0
Returns P (err raised) = ⊥
Returns P (ok value) = P value

pub bind-Returns {ℓ κ} :
    {V : Type ℓ} {W : Type κ} (Q : V → Type 0) (P : W → Type 0) (m : Result V) (next : V → Result W)
    → Returns Q m
    → ((v : V) → Q v → Returns P (next v))
    → Returns P (m >>= next)
bind-Returns Q P (err raised) next q h = absurd q
bind-Returns Q P (ok value) next q h = h value q
