-- ===== src/Base/Results.antt =====
-- A function that may raise: it returns a value, or it raises an exception with a message.
use Prim.Native.String.{String}
use mathlib.Core.Path.{◌≡◌, refl, subst}
use mathlib.Core.Logic.{◌⊎◌, inl, inr}

pub data Result {ℓ} (A : Type ℓ) : Type ℓ where
  returns : A → Result A
  raises : String → Result A

infixl 5 ◌>>=◌
abbrev pub ◌>>=◌ {ℓ κ} : {A : Type ℓ} {B : Type κ} → Result A → (A → Result B) → Result B
returns a >>= f = f a
raises e >>= f = raises e

abbrev pub Returns {ℓ} : {A : Type ℓ} → Result A → Type 0
Returns (returns a) = Unit
Returns (raises e) = ⊥

pub Result-cases {ℓ} :
    {A : Type ℓ} (r : Result A) → ((a : A) × (r ≡ returns a)) ⊎ ((e : String) × (r ≡ raises e))
Result-cases (returns a) = inl (a, refl)
Result-cases (raises e) = inr (e, refl)

-- What holds of the value, if a value is returned.
abbrev pub Ensures {ℓ κ} : {A : Type ℓ} → (A → Type κ) → Result A → Type κ
Ensures P (returns a) = P a
Ensures P (raises e) = Unit

pub Ensures-bind {ℓ κ μ ν} :
    {A : Type ℓ} {B : Type κ} (P : A → Type μ) (Q : B → Type ν) (r : Result A) (f : A → Result B)
    → Ensures P r
    → ((a : A) → P a → Ensures Q (f a))
    → Ensures Q (r >>= f)
Ensures-bind P Q (returns a) f h k = k a h
Ensures-bind P Q (raises e) f h k = tt

pub of_Ensures {ℓ κ} :
    {A : Type ℓ} (P : A → Type κ) (r : Result A) {a : A} → Ensures P r → r ≡ returns a → P a
of_Ensures P r h e = subst (Ensures P) e h

pub Returns-bind {ℓ κ} :
    {A : Type ℓ} {B : Type κ} (r : Result A) (f : A → Result B)
    → Returns r
    → ((a : A) → Returns (f a))
    → Returns (r >>= f)
Returns-bind (returns a) f h k = k a
Returns-bind (raises e) f h k = absurd h

pub Ensures-trivial {ℓ} : {A : Type ℓ} (r : Result A) → Ensures (λ _. Unit {0}) r
Ensures-trivial (returns a) = tt
Ensures-trivial (raises e) = tt
