-- ===== src/Crypto/Bytes.antt =====
-- Bytes as lists of numbers, Python's `int.to_bytes` and `int.from_bytes`, and UTF-8.
pub mod Utf8
use auth_lab.Prelude.{
  ℕ, zero, suc, ◌+◌, ◌*◌, ◌/◌, ◌%◌, ◌^◌, ◌≤◌, ◌<◌, ◌≡◌, Option, none, some, List, [], ◌∷◌, ◌++◌,
  arith, length, length-append, refl, subst, inl, inr, Option-cases,
}
use mathlib.Core.Option

abbrev pub Bytes : Type 0
Bytes = List ℕ

-- `value.to_bytes(n, "big")` of a value below 256 ^ n
unfoldable pub to_bytes : ℕ → ℕ → Bytes
to_bytes zero value = []
to_bytes (suc n) value = to_bytes n (value / 256) ++ (value % 256) ∷ []

-- `int.from_bytes(data, "big")`, from a number that stands before it
unfoldable pub from_bytes_after : ℕ → Bytes → ℕ
from_bytes_after acc [] = acc
from_bytes_after acc (b ∷ bs) = from_bytes_after (acc * 256 + b) bs

unfoldable pub from_bytes : Bytes → ℕ
unfolding from_bytes_after
from_bytes bs = from_bytes_after 0 bs

-- `data[:n]` and `data[n:]`, where there are `n` bytes
unfoldable pub split_at : ℕ → Bytes → Option (Bytes × Bytes)
split_at zero bs = some ([], bs)
split_at (suc n) [] = none
split_at (suc n) (b ∷ bs) = Option.map (λ parts. (b ∷ parts.0, parts.1)) (split_at n bs)

from_bytes_after-snoc :
    (acc : ℕ) (bs : Bytes) (b : ℕ)
    → from_bytes_after acc (bs ++ b ∷ []) ≡ from_bytes_after acc bs * 256 + b
unfolding from_bytes_after
from_bytes_after-snoc acc [] b = omega arith
from_bytes_after-snoc acc (c ∷ bs) b = from_bytes_after-snoc (acc * 256 + c) bs b

div_lt : (n v : ℕ) → v < 256 ^ suc n → v / 256 < 256 ^ n
div_lt n v h = omega arith

from_bytes_after-to_bytes : (n v : ℕ) → v < 256 ^ n → from_bytes_after 0 (to_bytes n v) ≡ v
unfolding to_bytes from_bytes_after
from_bytes_after-to_bytes zero v h = omega arith
from_bytes_after-to_bytes (suc n) v h = omega (
  arith,
  from_bytes_after-snoc 0 (to_bytes n (v / 256)) (v % 256),
  from_bytes_after-to_bytes n (v / 256) (div_lt n v h),
)

pub from_bytes-to_bytes : (n v : ℕ) → v < 256 ^ n → from_bytes (to_bytes n v) ≡ v
unfolding from_bytes
from_bytes-to_bytes n v h = from_bytes_after-to_bytes n v h

pub split_at-append : (xs ys : Bytes) → split_at (length xs) (xs ++ ys) ≡ some (xs, ys)
unfolding split_at
split_at-append [] ys = refl
split_at-append (x ∷ xs) ys = rw (split_at-append xs ys)

pub length-to_bytes : (n v : ℕ) → length (to_bytes n v) ≡ n
unfolding to_bytes
length-to_bytes zero v = refl
length-to_bytes (suc n) v =
    omega
      (arith, length-append (to_bytes n (v / 256)) ((v % 256) ∷ []), length-to_bytes n (v / 256))

pub split_at-to_bytes :
    (n v : ℕ) (rest : Bytes) → split_at n (to_bytes n v ++ rest) ≡ some (to_bytes n v, rest)
split_at-to_bytes n v rest =
    subst (λ k. split_at k (to_bytes n v ++ rest) ≡ some (to_bytes n v, rest)) (length-to_bytes n v)
      (split_at-append (to_bytes n v) rest)

pub split_at-shrinks :
    (n : ℕ) (bs front back : Bytes) → split_at n bs ≡ some (front, back) → length back ≤ length bs
unfolding split_at
split_at-shrinks zero bs front back h = ground arith
split_at-shrinks (suc n) [] front back h = ground arith
split_at-shrinks (suc n) (b ∷ bs) front back h = elim (Option-cases (split_at n bs)) [
  | inl short ↦ absurd (let bad = rw (short, split_at) at h in cc)
  | inr ((front', back'), found) ↦
      let shrinks = split_at-shrinks n bs front' back' found in
      let same = rw (found, split_at) at h in ground arith
]
