-- ===== src/Prelude/Lists.antt =====
-- Lists measured by native numbers, tests over a list, and predicates by recursion.
use Prim.Native.Nat.{ℕ, suc, ◌+◌}
use Prim.Native.String.{String}
use mathlib.Core.Path.{◌≡◌, refl, ap, ◌∙◌, subst}
use mathlib.Core.Logic.{◌⊎◌, inl, inr}
use mathlib.Core.Bool.{Bool, true, false, ◌&&◌, ◌||◌}
use mathlib.Core.List.{List, [], ◌∷◌, ◌++◌}
use native.Mathlib.Omega.{arith}
use text.Mathlib.Text.{◌==◌ as str_eq}
use text.Mathlib.TextEquality.{eq_iff}
use auth_lab.Prelude.Checks.{if◌then◌else◌, Bool-cases}

module _ {ℓ} {A : Type ℓ} where
  abbrev pub length : List A → ℕ
  length [] = 0
  length (x ∷ xs) = suc (length xs)

  -- `any(p(x) for x in xs)` and `all(...)`
  abbrev pub any : (A → Bool) → List A → Bool
  any p [] = false
  any p (x ∷ xs) = p x || any p xs

  abbrev pub all : (A → Bool) → List A → Bool
  all p [] = true
  all p (x ∷ xs) = p x && all p xs

  abbrev pub is_empty : List A → Bool
  is_empty [] = true
  is_empty (x ∷ xs) = false

  -- `[x for x in xs if p(x)]`
  abbrev pub filter : (A → Bool) → List A → List A
  filter p [] = []
  filter p (x ∷ xs) = let rest = filter p xs in if p x then x ∷ rest else rest

  pub length-append : (xs ys : List A) → length (xs ++ ys) ≡ length xs + length ys
  length-append [] ys = omega arith
  length-append (x ∷ xs) ys = omega (arith, length-append xs ys)

module _ {ℓ κ} {A : Type ℓ} (P : A → Type κ) where
  abbrev pub All : List A → Type κ
  All [] = Unit
  All (x ∷ xs) = P x × All xs

-- Membership of a text in a list of texts: the test `s in xs`, and the relation it decides.
abbrev pub contains : List String → String → Bool
contains [] s = false
contains (x ∷ xs) s = str_eq x s || contains xs s

abbrev pub In : String → List String → Type 0
In s [] = ⊥
In s (x ∷ xs) = (x ≡ s) ⊎ In s xs

pub contains→In : (xs : List String) (s : String) → contains xs s ≡ true → In s xs
contains→In [] s h = ground arith
contains→In (x ∷ xs) s h = ground (arith, eq_iff x s, contains→In xs s)

pub In→contains : (xs : List String) (s : String) → In s xs → contains xs s ≡ true
In→contains [] s h = absurd h
In→contains (x ∷ xs) s h = ground (arith, eq_iff x s, In→contains xs s)

-- Membership in a list of any type.
module _ {A : Type 0} where
  abbrev pub Among : A → List A → Type 0
  Among a [] = ⊥
  Among a (x ∷ xs) = (x ≡ a) ⊎ Among a xs

  pub any→Among :
      (p : A → Bool) (xs : List A) → any p xs ≡ true → (a : A) × Among a xs × (p a ≡ true)
  any→Among p [] h = cc
  any→Among p (x ∷ xs) h = elim (Bool-cases (p x)) [
    | inl yes_x ↦ (x, inl refl, yes_x)
    | inr no_x ↦ let (a, m, yes_a) = any→Among p xs (rw no_x at h) in (a, inr m, yes_a)
  ]

  pub Among→any : (p : A → Bool) (xs : List A) (a : A) → Among a xs → p a ≡ true → any p xs ≡ true
  Among→any p [] a m h = absurd m
  Among→any p (x ∷ xs) a (inl e) h = rw (ap p e ∙ h) refl
  Among→any p (x ∷ xs) a (inr m) h = elim (Bool-cases (p x)) [
    | inl yes_x ↦ rw yes_x refl
    | inr no_x ↦ rw (no_x, Among→any p xs a m h) refl
  ]

  pub Among-append_left : (a : A) (xs ys : List A) → Among a xs → Among a (xs ++ ys)
  Among-append_left a [] ys m = absurd m
  Among-append_left a (x ∷ xs) ys (inl e) = inl e
  Among-append_left a (x ∷ xs) ys (inr m) = inr (Among-append_left a xs ys m)

  pub Among-append_right : (a : A) (xs ys : List A) → Among a ys → Among a (xs ++ ys)
  Among-append_right a [] ys m = m
  Among-append_right a (x ∷ xs) ys m = inr (Among-append_right a xs ys m)

  pub Among-append : (a : A) (xs ys : List A) → Among a (xs ++ ys) → Among a xs ⊎ Among a ys
  Among-append a [] ys m = inr m
  Among-append a (x ∷ xs) ys (inl e) = inl (inl e)
  Among-append a (x ∷ xs) ys (inr m) = elim (Among-append a xs ys m) [
    | inl l ↦ inl (inr l)
    | inr r ↦ inr r
  ]

  pub All-Among : (P : A → Type 0) (xs : List A) (a : A) → All P xs → Among a xs → P a
  All-Among P [] a h m = absurd m
  All-Among P (x ∷ xs) a (h, hs) (inl e) = subst P e h
  All-Among P (x ∷ xs) a (h, hs) (inr m) = All-Among P xs a hs m
