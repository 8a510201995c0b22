-- ===== src/Common/Exceptions.antt =====
-- A Python call that returns a value or raises an exception.
use mathlib.Core.Bool.{Bool, true, false}

-- what a procedure returns: `None`
abbrev pub NoneType : Type 0
NoneType = Unit {0}

pub data Outcome {ℓ κ} (E : Type ℓ) (A : Type κ) : Type (ℓ ⊔ κ) where
  returned : A → Outcome E A
  raised : E → Outcome E A

-- `if condition: raise e`
abbrev pub raise_if {ℓ} : {E : Type ℓ} → Bool → E → Outcome E NoneType
raise_if true e = raised e
raise_if false e = returned tt

infixl 5 ◌>>=◌ ◌>>◌
abbrev pub ◌>>=◌ {ℓ κ ν} :
    {E : Type ℓ} {A : Type κ} {B : Type ν} → Outcome E A → (A → Outcome E B) → Outcome E B
returned a >>= f = f a
raised e >>= f = raised e

abbrev pub ◌>>◌ {ℓ ν} : {E : Type ℓ} {B : Type ν} → Outcome E NoneType → Outcome E B → Outcome E B
m >> k = m >>= λ _. k

-- the call did not raise
abbrev pub did_return {ℓ κ} : {E : Type ℓ} {A : Type κ} → Outcome E A → Bool
did_return (returned a) = true
did_return (raised e) = false

-- `P` holds of the value that the call returns, if it returns.
abbrev pub Yields {ℓ κ ν} : {E : Type ℓ} {A : Type κ} → (A → Type ν) → Outcome E A → Type ν
Yields P (returned a) = P a
Yields P (raised e) = Unit

pub Yields-bind {ℓ κ ν μ ρ} :
    {E : Type ℓ} {A : Type κ} {B : Type ν} (P : A → Type μ) (Q : B → Type ρ) (m : Outcome E A)
    (f : A → Outcome E B)
    → Yields P m
    → ((a : A) → P a → Yields Q (f a))
    → Yields Q (m >>= f)
Yields-bind P Q (returned a) f p k = k a p
Yields-bind P Q (raised e) f p k = tt

pub Yields-map {ℓ κ ν μ} :
    {E : Type ℓ} {A : Type κ} (P : A → Type ν) (Q : A → Type μ) (m : Outcome E A)
    → ((a : A) → P a → Q a)
    → Yields P m
    → Yields Q m
Yields-map P Q (returned a) f p = f a p
Yields-map P Q (raised e) f p = tt
