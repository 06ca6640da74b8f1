-- ===== src/Tests/Logins.antt =====
-- The theorems on the directory, with a user whose name is syntax of filters.
use auth_lab.Prelude.{◌≡◌, refl, String, true, some, [], ◌∷◌, str_eq, Among}
use auth_lab.Prelude.Text.{strip, is_nonempty}
use auth_lab.Prelude.Result.{ok}
use auth_lab.Url.{lower}
use auth_lab.Directory.Ldap.Filter.{Entry, equals, parse, parse_filter, uid_filter}
use auth_lab.Directory.Ldap.Filter.Escape.{lacks}
use auth_lab.Directory.Ldap.Filter.Holds.{substring_match}
use auth_lab.Directory.Ldap.Filter.Comparison.{parse_filter-uid_filter}
use auth_lab.Directory.Ldap.{Hasher, Name, Ldap, parse_dn, authenticate}
use auth_lab.Directory.Ldap.Selected.{Hits}
use auth_lab.Directory.Ldap.Login.{Bound, authenticate-ok}

abbrev plain_hasher : Hasher
plain_hasher = record {
  hash = λ draw password. password;
  verify = λ password encoded. str_eq password encoded;
}

abbrev star : Entry
star = record {
  dn = "uid=*,dc=lab";
  attributes = ("uid", "*" ∷ []) ∷ ("userpassword", "{LAB}pw" ∷ []) ∷ [];
}

abbrev people : Ldap
people = record {
  entries =
      ("uid=eve,dc=lab", record { dn = "uid=eve,dc=lab"; attributes = ("uid", "eve" ∷ []) ∷ [] })
      ∷ ("uid=*,dc=lab", star)
      ∷ [];
  draws = 0;
}

parse_filter-uid_filter_example :
    parse_filter (uid_filter "uid" "*)(uid=*") ≡ ok (equals (lower (strip "uid")) "*)(uid=*")
unfolding lower lacks
parse_filter-uid_filter_example = parse_filter-uid_filter "uid" "*)(uid=*" refl

found_star : authenticate plain_hasher "*" "pw" "dc=lab" "uid" people ≡ ok (some star)
unfolding authenticate parse uid_filter
found_star = refl

authenticate-ok_example :
    (base : Name) × (parse_dn "dc=lab" ≡ ok base)
    × Hits base (equals (lower (strip "uid")) "*") star
    × ((key : String) (e : Entry)
        → Among (key, e) people.entries
        → Hits base (equals (lower (strip "uid")) "*") e
        → e ≡ star)
    × (is_nonempty "pw" ≡ true)
    × Bound plain_hasher "pw" "uid=*,dc=lab" people
unfolding lower lacks
authenticate-ok_example =
    authenticate-ok plain_hasher "*" "pw" "dc=lab" "uid" people star refl found_star

-- A part between two stars may lie over the part behind the last one.
overlaps : substring_match "ab" ("a" ∷ "b" ∷ "b" ∷ []) ≡ true
unfolding substring_match
overlaps = refl
