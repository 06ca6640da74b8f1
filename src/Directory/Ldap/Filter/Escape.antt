-- ===== src/Directory/Ldap/Filter/Escape.antt =====
-- An escaped text has no character of the syntax of filters, and is read back.
use Prim.Native.Char.{Char, code}
use Prim.Native.String.{◌++◌}
use auth_lab.Prelude.{
  ℕ, ◌≡◌, refl, ap, ◌∙◌, subst, ◌⊎◌, inl, inr, String, Bool, true, false, not, ◌&&◌, none, some,
  arith, ◌==◌, Bool-cases,
}
use text.Mathlib.TextLemmas.{nil-append, cons-append}
use auth_lab.Prelude.Text.{split_once}
use auth_lab.Prelude.Chars.{from_code-code}
use auth_lab.Prelude.Result.{ok, ◌>>=◌}
use auth_lab.Directory.Ldap.Filter.{
  escape_of, escape_onto, escape_filter, unescape, hex_pair, pair_value, hex_digit, until_close,
}

-- The character with the code `n` does not occur.
unfoldable pub lacks : ℕ → String → Bool
lacks n String.[] = true
lacks n (String.◌∷◌ c s) = not (code c == n) && lacks n s

pub lacks-append :
    (n : ℕ) (s t : String) → lacks n s ≡ true → lacks n t ≡ true → lacks n (s ++ t) ≡ true
unfolding lacks
lacks-append n String.[] t hs ht = rw (nil-append t) ht
lacks-append n (String.◌∷◌ c s) t hs ht =
    let other : (code c == n) ≡ false = ground arith in
    let fresh : lacks n s ≡ true = ground arith in
    rw (cons-append c s t, other) (lacks-append n s t fresh ht)

pub split_once-lacks : (n : ℕ) (s : String) → lacks n s ≡ true → split_once n s ≡ none
unfolding lacks split_once
split_once-lacks n String.[] h = refl
split_once-lacks n (String.◌∷◌ c s) h = ground (arith, split_once-lacks n s)

pub until_close-lacks : (s : String) → lacks b')' s ≡ true → until_close (s ++ ")") ≡ (s, ")")
unfolding lacks until_close
until_close-lacks String.[] h = rw (nil-append ")") refl
until_close-lacks (String.◌∷◌ c s) h =
    let fresh : lacks b')' s ≡ true = ground arith in
    let other : (code c == b')') ≡ false = ground arith in
    rw (cons-append c s ")", until_close-lacks s fresh, other) refl

-- The escape of a number: its digits say the number, and are no syntax.
Escaped : ℕ → Type 0
Escaped n =
    (x : Char) × (y : Char) × (escape_of n ≡ some (x, y))
    × (hex_pair x y ≡ some n)
    × ((s : String) → lacks b'*' (String.◌∷◌ x (String.◌∷◌ y s)) ≡ lacks b'*' s)
    × ((s : String) → lacks b')' (String.◌∷◌ x (String.◌∷◌ y s)) ≡ lacks b')' s)

record IsLiteral (n : ℕ) : Type 0 where
  none_needed : escape_of n ≡ none
  no_backslash : (n == b'\\') ≡ false
  no_star : (n == b'*') ≡ false
  no_close : (n == b')') ≡ false

escape_of-cases : (n : ℕ) → IsLiteral n ⊎ Escaped n
unfolding escape_of Escaped hex_pair pair_value hex_digit lacks
escape_of-cases n =
    let at : (m : ℕ) → (n == m) ≡ true → Escaped m → Escaped n =
      λ m same escaped. subst Escaped (ground arith) escaped in
    elim (Bool-cases (n == b'\\')) [
      | inl is ↦ inr (at b'\\' is ("5", "c", refl, refl, λ s. refl, λ s. refl))
      | inr no_backslash ↦ elim (Bool-cases (n == b'*')) [
        | inl is ↦ inr (at b'*' is ("2", "a", refl, refl, λ s. refl, λ s. refl))
        | inr no_star ↦ elim (Bool-cases (n == b'(')) [
          | inl is ↦ inr (at b'(' is ("2", "8", refl, refl, λ s. refl, λ s. refl))
          | inr no_open ↦ elim (Bool-cases (n == b')')) [
            | inl is ↦ inr (at b')' is ("2", "9", refl, refl, λ s. refl, λ s. refl))
            | inr no_close ↦ elim (Bool-cases (n == 0)) [
              | inl is ↦ inr (at 0 is ("0", "0", refl, refl, λ s. refl, λ s. refl))
              | inr no_null ↦ inl (record {
                none_needed = ground arith;
                no_backslash = no_backslash;
                no_star = no_star;
                no_close = no_close;
              })
            ]
          ]
        ]
      ]
    ]

pub lacks-escape_filter :
    (s : String) → (lacks b'*' (escape_filter s) ≡ true) × (lacks b')' (escape_filter s) ≡ true)
unfolding escape_filter escape_onto lacks Escaped
lacks-escape_filter String.[] = (refl, refl)
lacks-escape_filter (String.◌∷◌ c s) =
    let (star, close) = lacks-escape_filter s in
    elim (escape_of-cases (code c)) [
      | inl literal ↦ rw (literal.none_needed, literal.no_star, literal.no_close) (star, close)
      | inr (x, y, is, digits, no_star, no_close) ↦
          rw is (no_star (escape_filter s) ∙ star, no_close (escape_filter s) ∙ close)
    ]

unescape-plain :
    (c : Char) (s t : String)
    → (code c == b'\\') ≡ false
    → unescape s ≡ ok t
    → unescape (String.◌∷◌ c s) ≡ ok (String.◌∷◌ c t)
unfolding unescape
unescape-plain c String.[] t differs h = cc
unescape-plain c (String.◌∷◌ d String.[]) t differs h =
    rw differs (ap (λ r. r >>= λ u. ok (String.◌∷◌ c u)) h)
unescape-plain c (String.◌∷◌ d (String.◌∷◌ e s)) t differs h = rw (differs, h) refl

pub unescape-escape_filter : (s : String) → unescape (escape_filter s) ≡ ok s
unfolding escape_filter escape_onto Escaped unescape
unescape-escape_filter String.[] = refl
unescape-escape_filter (String.◌∷◌ c s) =
    let rest = unescape-escape_filter s in
    elim (escape_of-cases (code c)) [
      | inl literal ↦
          rw literal.none_needed (unescape-plain c (escape_filter s) s literal.no_backslash rest)
      | inr (x, y, is, digits, no_star, no_close) ↦ rw (is, digits, rest, from_code-code c) refl
    ]
