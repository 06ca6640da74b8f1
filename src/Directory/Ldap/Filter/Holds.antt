-- ===== src/Directory/Ldap/Filter/Holds.antt =====
-- authlab/directory/ldap.py: which entries a filter matches.
use Prim.Native.Char.{code}
use Prim.Native.String.{count}
use auth_lab.Prelude.{
  ◌+◌, String, Bool, true, false, not, ◌&&◌, ◌||◌, Option, none, some, List, [], ◌∷◌, any, str_eq,
  leb, ◌==◌, if◌then◌else◌,
}
use auth_lab.Prelude.Text.{ends_with}
use auth_lab.Directory.Ldap.Filter.{
  Entry, values_of, Filter, every, some_of, negate, present, substring, equals, Filters, nil, cons,
}

-- What stands behind a prefix, and behind the first place of a text (`find` from a position on).
unfoldable pub behind_prefix : String → String → Option String
behind_prefix String.[] s = some s
behind_prefix (String.◌∷◌ c p) String.[] = none
behind_prefix (String.◌∷◌ c p) (String.◌∷◌ d s) =
    let rest = behind_prefix p s in if code c == code d then rest else none

unfoldable pub behind_first : String → String → Option String
unfolding behind_prefix
behind_first p String.[] = behind_prefix p ""
behind_first p (String.◌∷◌ c s) =
    let later = behind_first p s in
    elim (behind_prefix p (String.◌∷◌ c s)) [ some rest ↦ some rest | none ↦ later ]

-- The loop over the parts between the first and the last one.
unfoldable pub match_middles : List String → String → Bool
unfolding behind_first
match_middles [] rest = true
match_middles (p ∷ []) rest = true
match_middles (p ∷ q ∷ ps) rest = elim (behind_first p rest) [
  | none ↦ false
  | some behind ↦ match_middles (q ∷ ps) behind
]

abbrev pub last_of : String → List String → String
last_of p [] = p
last_of p (q ∷ qs) = last_of q qs

abbrev pub is_none_left : List String → Bool
is_none_left [] = true
is_none_left (p ∷ ps) = false

-- `_substring_match`; a split text has at least one part.
unfoldable pub substring_match : String → List String → Bool
unfolding behind_prefix match_middles ends_with
substring_match candidate [] = false
substring_match candidate (p ∷ ps) = elim (behind_prefix p candidate) [
  | none ↦ false
  | some rest ↦
      ends_with (last_of p ps) candidate
      && match_middles ps rest
      && (leb (count p + count (last_of p ps)) (count candidate) || is_none_left ps)
]

abbrev pub has_values : List String → Bool
has_values [] = false
has_values (v ∷ vs) = true

-- The predicates that the parser returns.
unfoldable mutual
  unfolding values_of substring_match

  pub holds : Filter → Entry → Bool
  holds (every fs) entry = holds_all fs entry
  holds (some_of fs) entry = holds_any fs entry
  holds (negate f) entry = not (holds f entry)
  holds (present attr) entry = has_values (values_of entry attr)
  holds (substring attr parts) entry = any (λ v. substring_match v parts) (values_of entry attr)
  holds (equals attr value) entry = any (λ v. str_eq v value) (values_of entry attr)

  pub holds_all : Filters → Entry → Bool
  holds_all nil entry = true
  holds_all (cons f fs) entry = holds f entry && holds_all fs entry

  pub holds_any : Filters → Entry → Bool
  holds_any nil entry = false
  holds_any (cons f fs) entry = holds f entry || holds_any fs entry
