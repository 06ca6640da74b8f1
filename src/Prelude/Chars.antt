-- ===== src/Prelude/Chars.antt =====
-- Python's `chr`.
use Prim.Native.Char.{Char, char, code, nul, IsLt}
use Prim.Native.Nat.{ℕ, Ordering, compare}
use mathlib.Core.Path.{◌≡◌, refl}

-- `chr(n)`: a character from its number, with the null character where there is none.
abbrev pub Both : Ordering → Ordering → Type 0
Both Ordering.lt o = IsLt o
Both Ordering.eq o = ⊥
Both Ordering.gt o = ⊥

abbrev pub Scalar : Ordering → Ordering → Ordering → Type 0
Scalar Ordering.lt o p = Unit
Scalar Ordering.eq o p = Both o p
Scalar Ordering.gt o p = Both o p

unfoldable pub pick : (a b c : Ordering) → (Scalar a b c → Char) → Char
pick Ordering.lt b c f = f tt
pick Ordering.eq Ordering.lt Ordering.lt f = f tt
pick Ordering.gt Ordering.lt Ordering.lt f = f tt
pick Ordering.eq Ordering.lt Ordering.eq f = nul
pick Ordering.eq Ordering.lt Ordering.gt f = nul
pick Ordering.gt Ordering.lt Ordering.eq f = nul
pick Ordering.gt Ordering.lt Ordering.gt f = nul
pick Ordering.eq Ordering.eq c f = nul
pick Ordering.eq Ordering.gt c f = nul
pick Ordering.gt Ordering.eq c f = nul
pick Ordering.gt Ordering.gt c f = nul

pick_lem : (a b c : Ordering) (f : Scalar a b c → Char) (p : Scalar a b c) → pick a b c f ≡ f p
unfolding pick
pick_lem Ordering.lt b c f p = refl
pick_lem Ordering.eq Ordering.lt Ordering.lt f p = refl
pick_lem Ordering.gt Ordering.lt Ordering.lt f p = refl
pick_lem Ordering.eq Ordering.lt Ordering.eq f p = absurd p
pick_lem Ordering.eq Ordering.lt Ordering.gt f p = absurd p
pick_lem Ordering.gt Ordering.lt Ordering.eq f p = absurd p
pick_lem Ordering.gt Ordering.lt Ordering.gt f p = absurd p
pick_lem Ordering.eq Ordering.eq c f p = absurd p
pick_lem Ordering.eq Ordering.gt c f p = absurd p
pick_lem Ordering.gt Ordering.eq c f p = absurd p
pick_lem Ordering.gt Ordering.gt c f p = absurd p

unfoldable pub from_code : ℕ → Char
unfolding pick
from_code n = pick (compare n 55296) (compare 57343 n) (compare n 1114112) (char n)

pub from_code-code : (c : Char) → from_code (code c) ≡ c
unfolding from_code
from_code-code (char n p) =
    pick_lem (compare n 55296) (compare 57343 n) (compare n 1114112) (char n) p
