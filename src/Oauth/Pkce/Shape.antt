-- ===== src/Oauth/Pkce/Shape.antt =====
-- What the pattern of a code verifier means (authlab/oauth/pkce.py).
use Prim.Native.Char.{Char, code}
use Prim.Native.String.{count, ◌++◌}
use auth_lab.Prelude.{
  ℕ, suc, ◌+◌, ◌≤◌, String, ◌≡◌, ◌⊎◌, ◌↔◌, inl, inr, true, false, refl, ap, subst, ◌∙◌, sym, arith,
}
use text.Mathlib.TextEquality.{Char-path}
use text.Mathlib.TextLemmas.{nil-append, cons-append, length-cons}
use auth_lab.Prelude.Text.{is_nonempty}
use auth_lab.Oauth.Pkce.{is_unreserved, matches_from, matches_pattern}

-- A letter, a digit, `-`, `.`, `_` or `~`.
abbrev pub IsUnreserved : ℕ → Type 0
IsUnreserved c =
    ((b'A' ≤ c) × (c ≤ b'Z'))
    ⊎ ((b'a' ≤ c) × (c ≤ b'z'))
    ⊎ ((b'0' ≤ c) × (c ≤ b'9'))
    ⊎ (c ≡ b'-')
    ⊎ (c ≡ b'.')
    ⊎ (c ≡ b'_')
    ⊎ (c ≡ b'~')

unfoldable pub AllUnreserved : String → Type 0
AllUnreserved String.[] = Unit
AllUnreserved (String.◌∷◌ c s) = IsUnreserved (code c) × AllUnreserved s

is_unreserved-IsUnreserved : (c : ℕ) → is_unreserved c ≡ true → IsUnreserved c
is_unreserved-IsUnreserved c h = ground arith

IsUnreserved-is_unreserved : (c : ℕ) → IsUnreserved c → is_unreserved c ≡ true
IsUnreserved-is_unreserved c h = ground arith

-- A text of allowed characters, of the allowed length when `n` characters stand in front of it, with
-- one line feed behind it or none.
Fits : ℕ → String → Type 0
Fits n s =
    (v : String) × ((s ≡ v) ⊎ (s ≡ v ++ "\n"))
    × AllUnreserved v
    × (43 ≤ n + count v)
    × (n + count v ≤ 128)

Fits-cons :
    (n : ℕ) (c : Char) (s : String)
    → IsUnreserved (code c)
    → Fits (suc n) s
    → Fits n (String.◌∷◌ c s)
unfolding Fits AllUnreserved
Fits-cons n c s free (v, inl is, all, long, short) = (
  String.◌∷◌ c v,
  inl (ap (String.◌∷◌ c) is),
  (free, all),
  ground (arith, length-cons c v),
  ground (arith, length-cons c v),
)
Fits-cons n c s free (v, inr is, all, long, short) = (
  String.◌∷◌ c v,
  inr (ap (String.◌∷◌ c) is ∙ sym (cons-append c v "\n")),
  (free, all),
  ground (arith, length-cons c v),
  ground (arith, length-cons c v),
)

matches_from-free :
    (n : ℕ) (v : String)
    → AllUnreserved v
    → 43 ≤ n + count v
    → n + count v ≤ 128
    → matches_from n v ≡ true
unfolding matches_from AllUnreserved
matches_from-free n String.[] all long short = ground arith
matches_from-free n (String.◌∷◌ c v) (free, all) long short = ground (
  arith,
  IsUnreserved-is_unreserved (code c) free,
  matches_from-free (suc n) v all (ground (arith, length-cons c v))
      (ground (arith, length-cons c v)),
)

matches_from-feed :
    (n : ℕ) (v : String)
    → AllUnreserved v
    → 43 ≤ n + count v
    → n + count v ≤ 128
    → matches_from n (v ++ "\n") ≡ true
unfolding matches_from AllUnreserved
matches_from-feed n String.[] all long short =
    let fed : matches_from n "\n" ≡ true = ground arith in
    subst (λ t. matches_from n t ≡ true) (sym (nil-append "\n")) fed
matches_from-feed n (String.◌∷◌ c v) (free, all) long short = rw (cons-append c v "\n") (
    ground (
      arith,
      IsUnreserved-is_unreserved (code c) free,
      matches_from-feed (suc n) v all (ground (arith, length-cons c v))
          (ground (arith, length-cons c v)),
    ))

line_feed : (c : Char) (s : String) → code c ≡ 10 → is_nonempty s ≡ false → String.◌∷◌ c s ≡ "\n"
line_feed c String.[] h e = ap (λ x. String.◌∷◌ x String.[]) (Char-path c "\n" h)
line_feed c (String.◌∷◌ d s) h e = cc

matches_from-cases :
    (n : ℕ) (c : Char) (s : String)
    → matches_from n (String.◌∷◌ c s) ≡ true
    → ((is_unreserved (code c) ≡ true) × (matches_from (suc n) s ≡ true))
      ⊎ ((code c ≡ 10) × (is_nonempty s ≡ false) × (43 ≤ n) × (n ≤ 128))
unfolding matches_from
matches_from-cases n c s h = ground arith

matches_from-Fits : (n : ℕ) (s : String) → matches_from n s ≡ true → Fits n s
unfolding matches_from Fits AllUnreserved
matches_from-Fits n String.[] h = (String.[], inl refl, tt, ground arith, ground arith)
matches_from-Fits n (String.◌∷◌ c s) h = elim (matches_from-cases n c s h) [
  | inl (free, rest) ↦
      Fits-cons n c s (is_unreserved-IsUnreserved (code c) free) (matches_from-Fits (suc n) s rest)
  | inr (feed, end, long, short) ↦ (
    String.[],
    inr (line_feed c s feed end ∙ sym (nil-append "\n")),
    tt,
    ground arith,
    ground arith,
  )
]

-- A verifier as RFC 7636 describes it, from 43 to 128 letters, digits and `-._~`; or one with a
-- line feed behind it.
abbrev pub IsVerifier : String → Type 0
IsVerifier s =
    (v : String) × ((s ≡ v) ⊎ (s ≡ v ++ "\n")) × AllUnreserved v × (43 ≤ count v) × (count v ≤ 128)

pub matches_pattern_iff : (s : String) → (matches_pattern s ≡ true) ↔ IsVerifier s
unfolding matches_pattern Fits
matches_pattern_iff s = (
  λ h.
      let (v, same, all, long, short) = matches_from-Fits 0 s h in
      (v, same, all, ground arith, ground arith),
  λ (v, is, all, long, short). elim is [
    | inl same ↦ rw same (matches_from-free 0 v all (ground arith) (ground arith))
    | inr fed ↦ rw fed (matches_from-feed 0 v all (ground arith) (ground arith))
  ],
)
