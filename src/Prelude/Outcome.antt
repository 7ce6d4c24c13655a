-- ===== src/Prelude/Outcome.antt =====
-- Go's (value, error) pair: a value, or an error of the component's own type.
use mathlib.Core.Path.{◌≡◌, refl}
use mathlib.Core.Logic.{◌⊎◌, inl, inr}
use mathlib.Core.Bool.{Bool}
use musi_flac.Prelude.Tests.{if◌then◌else◌}

pub data Result (E A : Type 0) : Type 0 where
  ok : A → Result E A
  err : E → Result E A

-- `if !test { return failure }`
abbrev pub guard : {E : Type 0} → Bool → E → Result E (Unit {0})
guard test failure = if test then ok tt else err failure

-- The code goes on with the value, or returns the error.
infixl 5 ◌>>=◌
abbrev pub ◌>>=◌ : {E A B : Type 0} → Result E A → (A → Result E B) → Result E B
err failure >>= next = err failure
ok value >>= next = next value

infixl 5 ◌>>◌
abbrev pub ◌>>◌ : {E B : Type 0} → Result E (Unit {0}) → Result E B → Result E B
err failure >> next = err failure
ok _ >> next = next

module _ {E A : Type 0} where
  -- A chain that gives a value went through its first step.
  pub chain_value :
      {B : Type 0} (first : Result E A) (next : A → Result E B) {last : B}
      → (first >>= next) ≡ ok last
      → (value : A) × (first ≡ ok value) × (next value ≡ ok last)
  chain_value (err failure) next gives = cc
  chain_value (ok value) next gives = (value, refl, gives)

  pub Result-cases : (r : Result E A) → ((a : A) × (r ≡ ok a)) ⊎ ((e : E) × (r ≡ err e))
  Result-cases (ok a) = inl (a, refl)
  Result-cases (err e) = inr (e, refl)

  pub ok-injective : {a b : A} → ◌≡◌ {A = Result E A} (ok a) (ok b) → a ≡ b
  ok-injective e = cc
