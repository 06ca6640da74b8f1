-- ===== src/Directory/Ldap/Filter.antt =====
-- authlab/directory/ldap.py: search filters, as texts and as predicates on entries. The digits of an
-- escape and the letters that `lower` changes are ASCII.
pub mod Holds
pub mod Escape
pub mod Comparison
pub mod Total
use Prim.Native.Char.{Char, code}
use Prim.Native.String.{◌++◌, count}
use auth_lab.Prelude.{
  ℕ, zero, suc, ◌+◌, ◌-◌, ◌*◌, ◌≤◌, ◌≡◌, String, Bool, true, false, not, ◌&&◌, ◌||◌, Option, none,
  some, List, [], ◌∷◌, any, str_eq, leb, ◌==◌, if◌then◌else◌,
}
use auth_lab.Prelude.Text.{is_space, strip, split_once, starts_with, ends_with, is_nonempty}
use auth_lab.Prelude.Chars.{from_code}
use auth_lab.Prelude.Result.{Result, ok, err, ◌>>=◌, ◌>>◌, refuse_if, or_raise}
use auth_lab.Url.{lower}
use auth_lab.Dict.{Dict, get}

-- `LDAPError`; `value_error` is what `int(..., 16)` and `chr` raise.
pub data Error : Type 0 where
  ldap_error : Error
  value_error : Error
  out_of_fuel : Error

-- `Entry`
pub record Entry : Type 0 where
  pub dn : String
  pub attributes : Dict (List String)

-- `Entry.get`
unfoldable pub values_of : Entry → String → List String
unfolding lower get
values_of entry name = elim (get entry.attributes (lower name)) [ none ↦ [] | some vs ↦ vs ]

-- `_FILTER_ESCAPE`: the two digits behind the backslash.
unfoldable pub escape_of : ℕ → Option (Char × Char)
escape_of n =
    if n == b'\\'
    then some ("5", "c")
    else if n == b'*'
    then some ("2", "a")
    else if n == b'('
    then some ("2", "8")
    else if n == b')'
    then some ("2", "9")
    else if n == 0
    then some ("0", "0")
    else none

unfoldable pub escape_onto : Char → Option (Char × Char) → String → String
escape_onto c none rest = String.◌∷◌ c rest
escape_onto c (some (x, y)) rest = String.◌∷◌ "\\" (String.◌∷◌ x (String.◌∷◌ y rest))

-- `escape_filter`
unfoldable pub escape_filter : String → String
unfolding escape_of escape_onto
escape_filter String.[] = ""
escape_filter (String.◌∷◌ c s) = escape_onto c (escape_of (code c)) (escape_filter s)

-- The filter of a login.
unfoldable pub uid_filter : String → String → String
unfolding escape_filter
uid_filter uid_attr username = "(" ++ (uid_attr ++ ("=" ++ (escape_filter username ++ ")")))

-- `int(text, 16)` of one and of two characters
unfoldable pub hex_digit : Char → Option ℕ
hex_digit c =
    let n = code c in
    if leb b'0' n && leb n b'9'
    then some (n - b'0')
    else if leb b'a' n && leb n b'f'
    then some (n - b'a' + 10)
    else if leb b'A' n && leb n b'F'
    then some (n - b'A' + 10)
    else none

-- A space behind the digit and a sign before it are read over; `-0` is 0, and `chr` refuses the other
-- negative numbers.
unfoldable pub pair_value : Char → Char → Option ℕ → Option ℕ → Option ℕ
unfolding is_space
pair_value c d (some x) (some y) = some (16 * x + y)
pair_value c d (some x) none = if is_space d then some x else none
pair_value c d none (some y) =
    if is_space c || code c == b'+' || code c == b'-' && y == 0 then some y else none
pair_value c d none none = none

unfoldable pub hex_pair : Char → Char → Option ℕ
unfolding pair_value hex_digit
hex_pair c d = pair_value c d (hex_digit c) (hex_digit d)

-- `_unescape_filter_value`
unfoldable pub unescape : String → Result Error String
unfolding hex_pair from_code
unescape String.[] = ok ""
unescape (String.◌∷◌ c String.[]) = ok (String.◌∷◌ c "")
unescape (String.◌∷◌ c (String.◌∷◌ d String.[])) =
    if code c == b'\\'
    then (do n ← or_raise (hex_digit d) value_error; ok (String.◌∷◌ (from_code n) ""))
    else ok (String.◌∷◌ c (String.◌∷◌ d ""))
unescape (String.◌∷◌ c (String.◌∷◌ d (String.◌∷◌ e s))) =
    let behind = unescape s in
    let later = unescape (String.◌∷◌ d (String.◌∷◌ e s)) in
    if code c == b'\\'
    then (do n ← or_raise (hex_pair d e) value_error; t ← behind; ok (String.◌∷◌ (from_code n) t))
    else (do t ← later; ok (String.◌∷◌ c t))

-- What the parser makes of a filter.
mutual
  pub data Filter : Type 0 where
    every : Filters → Filter
    some_of : Filters → Filter
    negate : Filter → Filter
    present : String → Filter
    substring : String → List String → Filter
    equals : String → String → Filter

  pub data Filters : Type 0 where
    nil : Filters
    cons : Filter → Filters → Filters

-- `text.split(c)` for the character with the code `n`
unfoldable pub add_char : Char → List String → List String
add_char c [] = String.◌∷◌ c "" ∷ []
add_char c (w ∷ ws) = String.◌∷◌ c w ∷ ws

unfoldable pub split_on : ℕ → String → List String
unfolding add_char
split_on n String.[] = "" ∷ []
split_on n (String.◌∷◌ c s) =
    let rest = split_on n s in if code c == n then "" ∷ rest else add_char c rest

-- `_assertion`
unfoldable pub value_filter : String → String → Result Error Filter
unfolding split_on split_once unescape
value_filter attr value =
    if str_eq value "*" then ok (present attr) else elim (split_once b'*' value) [
      | some _ ↦ ok (substring attr (split_on b'*' value))
      | none ↦ (do unescaped ← unescape value; ok (equals attr unescaped))
    ]

unfoldable pub assertion : String → Result Error Filter
unfolding split_once value_filter strip lower
assertion text = elim (split_once b'=' text) [
  | none ↦ err ldap_error
  | some (attr, value) ↦ value_filter (lower (strip attr)) value
]

-- `_expect(")")`
unfoldable pub expect_close : String → Result Error String
expect_close String.[] = err ldap_error
expect_close (String.◌∷◌ c s) = if code c == b')' then ok s else err ldap_error

-- The text of an assertion, and what stands behind it.
unfoldable pub until_close : String → String × String
until_close String.[] = ("", "")
until_close (String.◌∷◌ c s) =
    let (text, behind) = until_close s in
    if code c == b')' then ("", String.◌∷◌ c s) else (String.◌∷◌ c text, behind)

unfoldable pub simple : String → Result Error (Filter × String)
unfolding until_close expect_close assertion
simple text = do
  let (inside, at_close) = until_close text
  behind ← expect_close at_close
  filter ← assertion inside
  ok (filter, behind)

-- The character behind the bracket.
pub data Kind : Type 0 where
  conjunction : Kind
  disjunction : Kind
  negation : Kind
  comparison : Kind

unfoldable pub kind_of : Char → Kind
kind_of c =
    let n = code c in
    if n == b'&'
    then conjunction
    else if n == b'|'
    then disjunction
    else if n == b'!'
    then negation
    else comparison

abbrev pub opens_bracket : String → Bool
opens_bracket String.[] = false
opens_bracket (String.◌∷◌ c s) = code c == b'('

-- The children of `&` and `|`, and the bracket behind them.
unfoldable pub combine :
    (Filters → Filter) → Result Error (Filters × String) → Result Error (Filter × String)
unfolding expect_close
combine make (err e) = err e
combine make (ok (nil, behind)) = err ldap_error
combine make (ok (cons f fs, at_close)) = do
  behind ← expect_close at_close
  ok (make (cons f fs), behind)

unfoldable pub negated : Result Error (Filter × String) → Result Error (Filter × String)
unfolding expect_close
negated (err e) = err e
negated (ok (f, at_close)) = do behind ← expect_close at_close; ok (negate f, behind)

-- What stands behind `(`, by its first character, given the parser of what is inside.
unfoldable pub parse_inside :
    (String → Result Error (Filter × String))
    → (String → Result Error (Filters × String))
    → Kind
    → Char
    → String
    → Result Error (Filter × String)
unfolding combine negated simple
parse_inside one children conjunction c text = combine every (children text)
parse_inside one children disjunction c text = combine some_of (children text)
parse_inside one children negation c text = negated (one text)
parse_inside one children comparison c text = simple (String.◌∷◌ c text)

-- `parse` and its loop, on the text from the position on; each call takes one of the fuel.
unfoldable mutual
  unfolding parse_inside kind_of

  pub parse : ℕ → String → Result Error (Filter × String)
  parse zero text = err out_of_fuel
  parse (suc fuel) String.[] = err ldap_error
  parse (suc fuel) (String.◌∷◌ b String.[]) = err ldap_error
  parse (suc fuel) (String.◌∷◌ b (String.◌∷◌ c text)) =
      if code b == b'('
      then parse_inside (parse fuel) (parse_children fuel) (kind_of c) c text
      else err ldap_error

  pub parse_children : ℕ → String → Result Error (Filters × String)
  parse_children zero text = err out_of_fuel
  parse_children (suc fuel) text = elim (opens_bracket text) [
    | false ↦ ok (nil, text)
    | true ↦ (do
      (f, rest) ← parse fuel text
      (fs, behind) ← parse_children fuel rest
      ok (cons f fs, behind))
  ]

-- `_parse_filter`
abbrev pub at_end : Filter → String → Result Error Filter
at_end f String.[] = ok f
at_end f (String.◌∷◌ c s) = err ldap_error

unfoldable pub parse_filter : String → Result Error Filter
unfolding strip
parse_filter text = do (f, rest) ← parse (2 * count (strip text) + 1) (strip text); at_end f rest
