-- ===== src/Prelude/Result.antt =====
-- Calls that return a value or raise, for components with exceptions of their own.
use mathlib.Core.Path.{◌≡◌, refl}
use mathlib.Core.Logic.{◌⊎◌, inl, inr}
use mathlib.Core.Bool.{Bool, true, false}
use mathlib.Core.Option.{Option, none, some}

pub data Result {ε ℓ} (E : Type ε) (A : Type ℓ) : Type (ε ⊔ ℓ) where
  ok : A → Result E A
  err : E → Result E A

module _ {ε} {E : Type ε} where
  -- `raise` where the test holds, and where a value is missing.
  abbrev pub refuse_if : Bool → E → Result E (Unit {0})
  refuse_if false raised = ok tt
  refuse_if true raised = err raised

  abbrev pub or_raise {ℓ} : {A : Type ℓ} → Option A → E → Result E A
  or_raise (some found) raised = ok found
  or_raise none raised = err raised

  pub refuse_if-eq-ok :
      (bad : Bool) (raised : E) {u : Unit {0}} → refuse_if bad raised ≡ ok u → bad ≡ false
  refuse_if-eq-ok false raised done = refl
  refuse_if-eq-ok true raised done = cc

  pub or_raise-eq-ok {ℓ} :
      {A : Type ℓ} (o : Option A) (raised : E) {a : A} → or_raise o raised ≡ ok a → o ≡ some a
  or_raise-eq-ok none raised done = cc
  or_raise-eq-ok (some found) raised done = cc

  module _ {ℓ κ} {A : Type ℓ} {B : Type κ} where
    infixl 5 ◌>>=◌
    abbrev pub ◌>>=◌ : Result E A → (A → Result E B) → Result E B
    err raised >>= next = err raised
    ok x >>= next = next x

    -- A chain that returns has a first call that returns.
    pub >>=-eq-ok :
        (first : Result E A) (next : A → Result E B) {y : B}
        → (first >>= next) ≡ ok y
        → (x : A) × (first ≡ ok x) × (next x ≡ ok y)
    >>=-eq-ok (err raised) next done = cc
    >>=-eq-ok (ok x) next done = (x, refl, done)

  pub Result-cases {ℓ} :
      {A : Type ℓ} (r : Result E A) → ((e : E) × (r ≡ err e)) ⊎ ((x : A) × (r ≡ ok x))
  Result-cases (err e) = inl (e, refl)
  Result-cases (ok x) = inr (x, refl)

  infixl 5 ◌>>◌
  abbrev pub ◌>>◌ {κ} : {B : Type κ} → Result E (Unit {0}) → Result E B → Result E B
  check >> next = check >>= λ _. next
