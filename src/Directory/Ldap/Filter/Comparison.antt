-- ===== src/Directory/Ldap/Filter/Comparison.antt =====
-- The filter of a login is read as a comparison, whatever the name of the user is.
use Prim.Native.Char.{Char, code}
use Prim.Native.String.{◌++◌, count}
use auth_lab.Prelude.{
  ℕ, zero, suc, ◌+◌, ◌*◌, ◌≤◌, ◌≡◌, refl, sym, ap, ◌∙◌, subst, inl, inr, String, Bool, true, false,
  not, ◌&&◌, ◌||◌, some, arith, str_eq, eq_iff, ◌==◌, Bool-cases,
}
use text.Mathlib.TextLemmas.{nil-append, cons-append, append_assoc}
use auth_lab.Prelude.Text.{strip, strip_left, strip_right, is_space, split_once}
use auth_lab.Prelude.Result.{ok, ◌>>=◌}
use auth_lab.Url.{lower}
use auth_lab.Directory.Ldap.Filter.{
  escape_filter, uid_filter, equals, value_filter, assertion, expect_close, simple, comparison,
  kind_of, parse_inside, parse, parse_filter, at_end,
}
use auth_lab.Directory.Ldap.Filter.Escape.{
  lacks, lacks-append, split_once-lacks, until_close-lacks, lacks-escape_filter,
  unescape-escape_filter,
}

-- `strip` leaves a text alone that has brackets around it.
append_close-cons : (s : String) → (d : Char) × (t : String) × (s ++ ")" ≡ String.◌∷◌ d t)
append_close-cons String.[] = (")", "", nil-append ")")
append_close-cons (String.◌∷◌ c s) = (c, s ++ ")", cons-append c s ")")

strip_right-close : (s : String) → strip_right (s ++ ")") ≡ s ++ ")"
unfolding strip_right is_space
strip_right-close String.[] = rw (nil-append ")") refl
strip_right-close (String.◌∷◌ c s) =
    let (d, t, is) = append_close-cons s in
    let shut = subst (λ x. strip_right x ≡ x) is (strip_right-close s) in
    rw (cons-append c s ")", is, shut) refl

strip-brackets : (s : String) → strip (String.◌∷◌ "(" (s ++ ")")) ≡ String.◌∷◌ "(" (s ++ ")")
unfolding strip strip_left is_space
strip-brackets s =
    subst (λ x. strip_right x ≡ x) (cons-append "(" s ")") (strip_right-close (String.◌∷◌ "(" s))

one_char-append : (c : Char) (s : String) → String.◌∷◌ c "" ++ s ≡ String.◌∷◌ c s
one_char-append c s = cons-append c "" s ∙ ap (String.◌∷◌ c) (nil-append s)

split_once-append :
    (n : ℕ) (s : String) (c : Char) (t : String)
    → lacks n s ≡ true
    → (code c == n) ≡ true
    → split_once n (s ++ String.◌∷◌ c t) ≡ some (s, t)
unfolding lacks split_once
split_once-append n String.[] c t fresh is = rw (nil-append (String.◌∷◌ c t), is) refl
split_once-append n (String.◌∷◌ d s) c t fresh is =
    let other : (code d == n) ≡ false = ground arith in
    let fresh' : lacks n s ≡ true = ground arith in
    rw (cons-append d s (String.◌∷◌ c t), split_once-append n s c t fresh' is, other) refl

-- A name of an attribute that the parser reads as one.
abbrev pub is_attribute : String → Bool
is_attribute String.[] = true
is_attribute (String.◌∷◌ c s) =
    let n = code c in
    not (n == b'&' || n == b'|' || n == b'!')
    && lacks b')' (String.◌∷◌ c s)
    && lacks b'=' (String.◌∷◌ c s)

inside : String → String → String
inside uid_attr username = uid_attr ++ String.◌∷◌ "=" (escape_filter username)

uid_filter-eq :
    (uid_attr username : String)
    → uid_filter uid_attr username ≡ String.◌∷◌ "(" (inside uid_attr username ++ ")")
unfolding uid_filter inside
uid_filter-eq uid_attr username =
    let value = escape_filter username in
    let tail : "=" ++ (value ++ ")") ≡ String.◌∷◌ "=" value ++ ")" =
      one_char-append "=" (value ++ ")") ∙ sym (cons-append "=" value ")") in
    one_char-append "(" (uid_attr ++ ("=" ++ (value ++ ")")))
    ∙ ap (λ x. String.◌∷◌ "(" (uid_attr ++ x)) tail
    ∙ ap (String.◌∷◌ "(") (sym (append_assoc uid_attr (String.◌∷◌ "=" value) ")"))

value_filter-escape_filter :
    (attr username : String)
    → value_filter attr (escape_filter username) ≡ ok (equals attr username)
unfolding value_filter lacks
value_filter-escape_filter attr username =
    let fresh = (lacks-escape_filter username).0 in
    elim (Bool-cases (str_eq (escape_filter username) "*")) [
      | inl is ↦ absurd (
          let bad =
            subst (λ x. lacks b'*' x ≡ true) ((eq_iff (escape_filter username) "*").0 is) fresh in
          cc)
      | inr is_no_star ↦
          rw
            (
              is_no_star,
              split_once-lacks b'*' (escape_filter username) fresh,
              unescape-escape_filter username,
            )
            refl
    ]

assertion-inside :
    (uid_attr username : String)
    → lacks b'=' uid_attr ≡ true
    → assertion (inside uid_attr username) ≡ ok (equals (lower (strip uid_attr)) username)
unfolding assertion inside
assertion-inside uid_attr username fresh =
    rw (split_once-append b'=' uid_attr "=" (escape_filter username) fresh refl, assertion)
      (value_filter-escape_filter (lower (strip uid_attr)) username)

simple-inside :
    (uid_attr username : String)
    → lacks b'=' uid_attr ≡ true
    → lacks b')' uid_attr ≡ true
    → simple (inside uid_attr username ++ ")") ≡ ok (equals (lower (strip uid_attr)) username, "")
unfolding simple expect_close inside lacks
simple-inside uid_attr username no_equals no_close =
    let fresh : lacks b')' (inside uid_attr username) ≡ true =
      lacks-append b')' uid_attr (String.◌∷◌ "=" (escape_filter username)) no_close
        (lacks-escape_filter username).1 in
    rw
      (
        until_close-lacks (inside uid_attr username) fresh,
        assertion-inside uid_attr username no_equals,
      )
      refl

-- The character behind the bracket begins a comparison.
inside-cons :
    (uid_attr username : String)
    → is_attribute uid_attr ≡ true
    → (c : Char) × (t : String) × (inside uid_attr username ++ ")" ≡ String.◌∷◌ c t)
      × (kind_of c ≡ comparison)
unfolding inside kind_of
inside-cons String.[] username h =
    let value = String.◌∷◌ "=" (escape_filter username) in
    (
      "=",
      escape_filter username ++ ")",
      ap (λ x. x ++ ")") (nil-append value) ∙ cons-append "=" (escape_filter username) ")",
      refl,
    )
inside-cons (String.◌∷◌ c s) username h =
    let value = String.◌∷◌ "=" (escape_filter username) in
    (
      c,
      (s ++ value) ++ ")",
      ap (λ x. x ++ ")") (cons-append c s value) ∙ cons-append c (s ++ value) ")",
      ground arith,
    )

parse-brackets :
    (fuel : ℕ) (c : Char) (t : String)
    → 1 ≤ fuel
    → kind_of c ≡ comparison
    → parse fuel (String.◌∷◌ "(" (String.◌∷◌ c t)) ≡ simple (String.◌∷◌ c t)
unfolding parse parse_inside
parse-brackets zero c t some_fuel is = absurd (omega (arith, some_fuel))
parse-brackets (suc fuel) c t some_fuel is = rw is refl

is_attribute-lacks :
    (s : String) → is_attribute s ≡ true → (lacks b'=' s ≡ true) × (lacks b')' s ≡ true)
unfolding lacks
is_attribute-lacks String.[] named = (refl, refl)
is_attribute-lacks (String.◌∷◌ c s) named = (ground arith, ground arith)

parse-inside :
    (fuel : ℕ) (uid_attr username : String)
    → 1 ≤ fuel
    → is_attribute uid_attr ≡ true
    → parse fuel (String.◌∷◌ "(" (inside uid_attr username ++ ")"))
      ≡ ok (equals (lower (strip uid_attr)) username, "")
parse-inside fuel uid_attr username some_fuel named =
    let (c, t, is, compares) = inside-cons uid_attr username named in
    ap (λ x. parse fuel (String.◌∷◌ "(" x)) is
    ∙ parse-brackets fuel c t some_fuel compares
    ∙ ap simple (sym is)
    ∙ simple-inside uid_attr username (is_attribute-lacks uid_attr named).0
        (is_attribute-lacks uid_attr named).1

-- The filter of a login is read as the comparison of one attribute with the user's name, whatever
-- characters the name has, for an attribute whose name has no syntax of filters in it.
pub parse_filter-uid_filter :
    (uid_attr username : String)
    → is_attribute uid_attr ≡ true
    → parse_filter (uid_filter uid_attr username) ≡ ok (equals (lower (strip uid_attr)) username)
unfolding parse_filter
parse_filter-uid_filter uid_attr username named =
    let x = String.◌∷◌ "(" (inside uid_attr username ++ ")") in
    ap parse_filter (uid_filter-eq uid_attr username)
    ∙ ap (λ y. parse (2 * count y + 1) y >>= λ r. at_end r.0 r.1)
        (strip-brackets (inside uid_attr username))
    ∙ ap (λ r. r >>= λ r'. at_end r'.0 r'.1)
        (parse-inside (2 * count x + 1) uid_attr username (omega arith) named)
