-- ===== src/Directory/Ldap/Filter/Total.antt =====
-- The parser of filters ends: its fuel is never used up.
use Prim.Native.Char.{Char, code}
use Prim.Native.String.{count}
use auth_lab.Prelude.{
  ℕ, zero, suc, ◌+◌, ◌*◌, ◌≤◌, ◌≡◌, ◌≢◌, subst, inl, inr, String, true, Option, none, some, arith,
  ◌==◌, Bool-cases, Option-cases, str_eq,
}
use text.Mathlib.TextLemmas.{length-cons}
use auth_lab.Prelude.Text.{strip, split_once}
use auth_lab.Url.{lower}
use auth_lab.Prelude.Result.{Result, ok, err, ◌>>=◌, or_raise}
use auth_lab.Directory.Ldap.Filter.{
  Error, ldap_error, value_error, out_of_fuel, unescape, hex_digit, hex_pair, Filter, every,
  some_of, Filters, nil, cons, assertion, value_filter, expect_close, until_close, simple, Kind,
  conjunction, disjunction, negation, comparison, kind_of, combine, negated, parse_inside, parse,
  parse_children, opens_bracket, parse_filter, at_end,
}

-- A call that does not run out of fuel, and leaves at most `k` characters.
IsFed : Error → Type 0
IsFed ldap_error = Unit
IsFed value_error = Unit
IsFed out_of_fuel = ⊥

Fed : {A : Type 0} → Result Error A → Type 0
unfolding IsFed
Fed (ok a) = Unit
Fed (err e) = IsFed e

Leaves : {A : Type 0} → ℕ → Result Error (A × String) → Type 0
unfolding IsFed
Leaves k (ok (a, rest)) = count rest ≤ k
Leaves k (err e) = IsFed e

Ends : ℕ → Result Error String → Type 0
unfolding IsFed
Ends k (ok rest) = count rest ≤ k
Ends k (err e) = IsFed e

Leaves-bind :
    {A B : Type 0} (j k : ℕ) (m : Result Error (A × String))
    (f : A × String → Result Error (B × String))
    → Leaves j m
    → ((a : A) (rest : String) → count rest ≤ j → Leaves k (f (a, rest)))
    → Leaves k (m >>= f)
unfolding Leaves
Leaves-bind j k (err e) f fed next = fed
Leaves-bind j k (ok (a, rest)) f fed next = next a rest fed

Ends-bind :
    {B : Type 0} (j k : ℕ) (m : Result Error String) (f : String → Result Error (B × String))
    → Ends j m
    → ((rest : String) → count rest ≤ j → Leaves k (f rest))
    → Leaves k (m >>= f)
unfolding Leaves Ends
Ends-bind j k (err e) f fed next = fed
Ends-bind j k (ok rest) f fed next = next rest fed

Fed-bind :
    {A B : Type 0} (m : Result Error A) (f : A → Result Error B)
    → Fed m
    → ((a : A) → Fed (f a))
    → Fed (m >>= f)
unfolding Fed
Fed-bind (err e) f fed next = fed
Fed-bind (ok a) f fed next = next a

Fed-Leaves :
    {A B : Type 0} (k : ℕ) (m : Result Error A) (f : A → Result Error (B × String))
    → Fed m
    → ((a : A) → Leaves k (f a))
    → Leaves k (m >>= f)
unfolding Fed Leaves
Fed-Leaves k (err e) f fed next = fed
Fed-Leaves k (ok a) f fed next = next a

Leaves-more :
    {A : Type 0} (j k : ℕ) (m : Result Error (A × String)) → j ≤ k → Leaves j m → Leaves k m
unfolding Leaves
Leaves-more j k (err e) le fed = fed
Leaves-more j k (ok (a, rest)) le fed = omega (arith, fed)

or_raise-Fed : {A : Type 0} (o : Option A) → Fed (or_raise o value_error)
unfolding Fed IsFed
or_raise-Fed none = tt
or_raise-Fed (some a) = tt

expect_close-Ends : (s : String) (k : ℕ) → count s ≤ k → Ends k (expect_close s)
unfolding expect_close Ends IsFed
expect_close-Ends String.[] k h = tt
expect_close-Ends (String.◌∷◌ c s) k h = elim (Bool-cases (code c == b')')) [
  | inl closes ↦ rw closes (omega (arith, length-cons c s))
  | inr other ↦ rw other tt
]

count-until_close : (s : String) → count (until_close s).1 ≤ count s
unfolding until_close
count-until_close String.[] = omega arith
count-until_close (String.◌∷◌ c s) = elim (Bool-cases (code c == b')')) [
  | inl closes ↦ rw closes (omega arith)
  | inr other ↦ rw other (omega (arith, length-cons c s, count-until_close s))
]

unescape-Fed : (s : String) → Fed (unescape s)
unfolding unescape Fed
unescape-Fed String.[] = tt
unescape-Fed (String.◌∷◌ c String.[]) = tt
unescape-Fed (String.◌∷◌ c (String.◌∷◌ d String.[])) = elim (Bool-cases (code c == b'\\')) [
  | inl escaped ↦
      rw escaped
        (Fed-bind (or_raise (hex_digit d) value_error) _ (or_raise-Fed (hex_digit d)) (λ n. tt))
  | inr plain ↦ rw plain tt
]
unescape-Fed (String.◌∷◌ c (String.◌∷◌ d (String.◌∷◌ e s))) = elim (Bool-cases (code c == b'\\')) [
  | inl escaped ↦ rw escaped (
      Fed-bind (or_raise (hex_pair d e) value_error) _ (or_raise-Fed (hex_pair d e))
        (λ n. Fed-bind (unescape s) _ (unescape-Fed s) (λ t. tt)))
  | inr plain ↦ rw plain (
      Fed-bind (unescape (String.◌∷◌ d (String.◌∷◌ e s))) _
        (unescape-Fed (String.◌∷◌ d (String.◌∷◌ e s))) (λ t. tt))
]

value_filter-Fed : (attr value : String) → Fed (value_filter attr value)
unfolding value_filter Fed
value_filter-Fed attr value = elim (Bool-cases (str_eq value "*")) [
  | inl is ↦ rw is tt
  | inr other ↦ elim (Option-cases (split_once b'*' value)) [
    | inl no_star ↦ rw (other, no_star) (Fed-bind (unescape value) _ (unescape-Fed value) (λ v. tt))
    | inr (parts, is) ↦ rw (other, is) tt
  ]
]

assertion-Fed : (text : String) → Fed (assertion text)
unfolding assertion Fed IsFed
assertion-Fed text = elim (Option-cases (split_once b'=' text)) [
  | inl no_equals ↦ rw (no_equals, assertion) tt
  | inr ((attr, value), is) ↦ rw (is, assertion) (value_filter-Fed (lower (strip attr)) value)
]

simple-Leaves : (s : String) (k : ℕ) → count s ≤ k → Leaves k (simple s)
unfolding simple Leaves
simple-Leaves s k h =
    let (inside, at_close) = until_close s in
    Ends-bind k k (expect_close at_close) _
      (expect_close-Ends at_close k (omega (arith, count-until_close s)))
      (λ rest le. Fed-Leaves k (assertion inside) _ (assertion-Fed inside) (λ f. le))

combine-Leaves :
    (make : Filters → Filter) (r : Result Error (Filters × String)) (k : ℕ)
    → Leaves k r
    → Leaves k (combine make r)
unfolding combine Leaves IsFed
combine-Leaves make (err e) k fed = fed
combine-Leaves make (ok (nil, rest)) k fed = tt
combine-Leaves make (ok (cons f fs, rest)) k fed =
    Ends-bind k k (expect_close rest) _ (expect_close-Ends rest k fed) (λ behind le. le)

negated-Leaves : (r : Result Error (Filter × String)) (k : ℕ) → Leaves k r → Leaves k (negated r)
unfolding negated Leaves
negated-Leaves (err e) k fed = fed
negated-Leaves (ok (f, rest)) k fed =
    Ends-bind k k (expect_close rest) _ (expect_close-Ends rest k fed) (λ behind le. le)

parse_inside-Leaves :
    (one : String → Result Error (Filter × String))
    (children : String → Result Error (Filters × String)) (kind : Kind) (c : Char) (t : String)
    (k : ℕ)
    → Leaves k (one t)
    → Leaves k (children t)
    → count (String.◌∷◌ c t) ≤ k
    → Leaves k (parse_inside one children kind c t)
unfolding parse_inside
parse_inside-Leaves one children conjunction c t k fed_one fed_children fits =
    combine-Leaves every (children t) k fed_children
parse_inside-Leaves one children disjunction c t k fed_one fed_children fits =
    combine-Leaves some_of (children t) k fed_children
parse_inside-Leaves one children negation c t k fed_one fed_children fits =
    negated-Leaves (one t) k fed_one
parse_inside-Leaves one children comparison c t k fed_one fed_children fits =
    simple-Leaves (String.◌∷◌ c t) k fits

-- A text that begins with a bracket is not empty.
opens_bracket-count : (s : String) → opens_bracket s ≡ true → 1 ≤ count s
opens_bracket-count String.[] h = cc
opens_bracket-count (String.◌∷◌ c s) h = omega (arith, length-cons c s)

mutual
  unfolding parse parse_children Leaves IsFed

  parse-Leaves :
      (fuel : ℕ) (s : String) (k : ℕ) → count s ≤ suc k → 2 * k + 3 ≤ fuel → Leaves k (parse fuel s)
  parse-Leaves zero s k fits enough = absurd (omega (arith, enough))
  parse-Leaves (suc fuel) String.[] k fits enough = tt
  parse-Leaves (suc fuel) (String.◌∷◌ b String.[]) k fits enough = tt
  parse-Leaves (suc fuel) (String.◌∷◌ b (String.◌∷◌ c t)) zero fits enough =
      absurd (omega (arith, fits, length-cons b (String.◌∷◌ c t), length-cons c t))
  parse-Leaves (suc fuel) (String.◌∷◌ b (String.◌∷◌ c t)) (suc k) fits enough =
      let longer = length-cons b (String.◌∷◌ c t) in
      let long = length-cons c t in
      elim (Bool-cases (code b == b'(')) [
        | inl opens ↦ rw opens (
            parse_inside-Leaves (parse fuel) (parse_children fuel) (kind_of c) c t (suc k)
              (Leaves-more k (suc k) (parse fuel t) (omega arith)
                (parse-Leaves fuel t k (omega (arith, longer, long, fits)) (omega (arith, enough))))
              (parse_children-Leaves fuel t (suc k) (omega (arith, longer, long, fits))
                (omega (arith, enough)))
              (omega (arith, longer, fits)))
        | inr other ↦ rw other tt
      ]

  parse_children-Leaves :
      (fuel : ℕ) (s : String) (k : ℕ)
      → count s ≤ k
      → 2 * k + 2 ≤ fuel
      → Leaves k (parse_children fuel s)
  parse_children-Leaves zero s k fits enough = absurd (omega (arith, enough))
  parse_children-Leaves (suc fuel) s zero fits enough = elim (Bool-cases (opens_bracket s)) [
    | inl opens ↦ absurd (omega (arith, fits, opens_bracket-count s opens))
    | inr other ↦ rw (other, Leaves) fits
  ]
  parse_children-Leaves (suc fuel) s (suc k) fits enough = elim (Bool-cases (opens_bracket s)) [
    | inl opens ↦
        rw (opens, Leaves)
          (Leaves-bind k (suc k) (parse fuel s) _
            (parse-Leaves fuel s k fits (omega (arith, enough)))
            (λ f rest le.
              Leaves-bind k (suc k) (parse_children fuel rest) _
                (parse_children-Leaves fuel rest k le (omega (arith, enough)))
                (λ fs behind le'. omega (arith, le'))))
    | inr other ↦ rw (other, Leaves) fits
  ]

at_end-Fed : (f : Filter) (s : String) → Fed (at_end f s)
unfolding Fed IsFed
at_end-Fed f String.[] = tt
at_end-Fed f (String.◌∷◌ c s) = tt

Leaves-Fed :
    (k : ℕ) (m : Result Error (Filter × String)) (f : Filter × String → Result Error Filter)
    → Leaves k m
    → ((a : Filter × String) → Fed (f a))
    → Fed (m >>= f)
unfolding Leaves Fed
Leaves-Fed k (err e) f fed next = fed
Leaves-Fed k (ok a) f fed next = next a

parse_all-Fed : (s : String) → Fed (parse (2 * count s + 1) s >>= λ r. at_end r.0 r.1)
unfolding parse Fed IsFed
parse_all-Fed String.[] = tt
parse_all-Fed (String.◌∷◌ c s) =
    let whole = String.◌∷◌ c s in
    Leaves-Fed (count s) (parse (2 * count whole + 1) whole) (λ r. at_end r.0 r.1)
      (parse-Leaves (2 * count whole + 1) whole (count s) (omega (arith, length-cons c s))
        (omega (arith, length-cons c s)))
      (λ r. at_end-Fed r.0 r.1)

-- The parser answers or raises; it does not run on.
parse_filter-total : (text : String) → parse_filter text ≢ err out_of_fuel
unfolding parse_filter Fed IsFed
parse_filter-total text h = subst Fed h (parse_all-Fed (strip text))
