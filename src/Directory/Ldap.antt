-- ===== src/Directory/Ldap.antt =====
-- authlab/directory/ldap.py: names, entries, binds and searches. The password hasher is a parameter:
-- the hash of a draw and a password, and its check.
pub mod Filter
pub mod Selected
pub mod Login
use Prim.Native.Char.{Char, code}
use Prim.Native.String.{◌++◌}
use auth_lab.Prelude.{
  ℕ, ◌+◌, ◌≡◌, String, Bool, true, false, not, ◌&&◌, ◌||◌, Option, none, some, List, [], ◌∷◌,
  ◌++◌ as append, map, filter, str_eq, ◌==◌, if◌then◌else◌, length, leb,
}
use auth_lab.Prelude.Text.{strip, split_once, is_nonempty}
use auth_lab.Prelude.Result.{Result, ok, err, ◌>>=◌, ◌>>◌, refuse_if, or_raise}
use auth_lab.Url.{lower}
use auth_lab.Dict.{Dict, get, set}
use auth_lab.Directory.Ldap.Filter.{
  Error, ldap_error, value_error, out_of_fuel, Entry, values_of, uid_filter, Filter as Predicate,
  escape_filter, add_char, parse_filter,
}
use auth_lab.Directory.Ldap.Filter.Holds.{holds, behind_prefix}

-- `PasswordHasher.hash`, for the draw of its salt, and `PasswordHasher.verify`
pub record Hasher : Type 0 where
  pub hash : ℕ → String → String
  pub verify : String → String → Bool

-- `DN`
abbrev pub Name : Type 0
Name = List (String × String)

-- `_split_dn`, from inside a part; the flag says that a backslash stands before.
unfoldable pub split_dn : Bool → String → List String
unfolding add_char
split_dn escaped String.[] = "" ∷ []
split_dn true (String.◌∷◌ c s) = add_char c (split_dn false s)
split_dn false (String.◌∷◌ c s) =
    let rest = split_dn (code c == b'\\') s in if code c == b',' then "" ∷ rest else add_char c rest

-- `DN.parse`
unfoldable pub parse_parts : List String → Result Error Name
unfolding split_once strip lower
parse_parts [] = ok []
parse_parts (part ∷ parts) = elim (split_once b'=' part) [
  | none ↦ err ldap_error
  | some (attr, value) ↦ (do
    rdns ← parse_parts parts
    ok ((lower (strip attr), strip value) ∷ rdns))
]

unfoldable pub parse_dn : String → Result Error Name
unfolding split_dn parse_parts
parse_dn text = parse_parts (split_dn false text)

-- `DN.__str__`
unfoldable pub show_dn : Name → String
show_dn [] = ""
show_dn ((attr, value) ∷ []) = attr ++ ("=" ++ value)
show_dn ((attr, value) ∷ r ∷ rs) = attr ++ ("=" ++ (value ++ ("," ++ show_dn (r ∷ rs))))

-- `DN.is_child_of`
abbrev pub same_name : Name → Name → Bool
same_name [] [] = true
same_name [] (y ∷ ys) = false
same_name (x ∷ xs) [] = false
same_name ((a, v) ∷ xs) ((b, w) ∷ ys) = str_eq a b && str_eq v w && same_name xs ys

unfoldable pub is_child_of : Name → Name → Bool
is_child_of [] base = same_name [] base
is_child_of (r ∷ rs) base = same_name (r ∷ rs) base || is_child_of rs base

-- `LDAP`, with the number of the next draw; `entries` by the text of their names
pub record Ldap : Type 0 where
  pub entries : Dict Entry
  pub draws : ℕ

-- `add`; names of attributes that differ in their case only overwrite each other.
unfoldable pub lower_keys : Dict (List String) → Dict (List String) → Dict (List String)
unfolding lower set
lower_keys done [] = done
lower_keys done ((k, vs) ∷ rest) = lower_keys (set done (lower k) vs) rest

unfoldable pub with_password : Hasher → Option String → ℕ → Dict (List String) → Dict (List String)
unfolding set
with_password hasher none draw attrs = attrs
with_password hasher (some password) draw attrs =
    set attrs "userpassword" (("{LAB}" ++ hasher.hash draw password) ∷ [])

unfoldable pub add :
    Hasher → String → Dict (List String) → Option String → Ldap → Result Error (Entry × Ldap)
unfolding parse_dn show_dn lower_keys with_password set
add hasher dn attributes password d = do
  name ← parse_dn dn
  let entry : Entry = record {
    dn = show_dn name;
    attributes = with_password hasher password d.draws (lower_keys [] attributes);
  }
  ok (
    entry,
    record d {
      entries = set d.entries (show_dn name) entry;
      draws = elim password [ none ↦ d.draws | some _ ↦ d.draws + 1 ];
    },
  )

-- `Entry.first`
abbrev pub first_of : List String → Option String
first_of [] = none
first_of (v ∷ vs) = some v

-- The stored password of an entry, behind its label.
unfoldable pub check_stored : Hasher → String → Option String → Bool
unfolding behind_prefix
check_stored hasher password none = false
check_stored hasher password (some stored) = elim (behind_prefix "{LAB}" stored) [
  | none ↦ false
  | some encoded ↦ hasher.verify password encoded
]

unfoldable pub bind_entry : Hasher → String → Option Entry → Bool
unfolding check_stored values_of
bind_entry hasher password none = false
bind_entry hasher password (some entry) =
    check_stored hasher password (first_of (values_of entry "userpassword"))

-- A name that does not parse is no name of an entry: `except LDAPError: return False`.
unfoldable pub bind_name : Hasher → String → Ldap → Result Error Name → Bool
unfolding bind_entry get show_dn
bind_name hasher password d (err e) = false
bind_name hasher password d (ok name) = bind_entry hasher password (get d.entries (show_dn name))

-- `simple_bind`
unfoldable pub simple_bind : Hasher → String → String → Ldap → Result Error Bool
unfolding bind_name parse_dn
simple_bind hasher dn password d =
    if is_nonempty password then ok (bind_name hasher password d (parse_dn dn)) else err ldap_error

-- `search`
unfoldable pub select : Name → Predicate → Dict Entry → Result Error (List Entry)
unfolding parse_dn is_child_of holds
select base f [] = ok []
select base f ((key, entry) ∷ rest) = do
  name ← parse_dn entry.dn
  more ← select base f rest
  ok (if is_child_of name base && holds f entry then entry ∷ more else more)

unfoldable pub search : String → String → Ldap → Result Error (List Entry)
unfolding parse_dn parse_filter select
search base_dn filter_string d = do
  base ← parse_dn base_dn
  f ← parse_filter filter_string
  select base f d.entries

-- `authenticate` with what the search has found
unfoldable pub bind_match : Hasher → String → List Entry → Ldap → Result Error (Option Entry)
unfolding simple_bind
bind_match hasher password [] d = ok none
bind_match hasher password (entry ∷ []) d = do
  bound ← simple_bind hasher entry.dn password d
  ok (if bound then some entry else none)
bind_match hasher password (e ∷ f ∷ es) d = ok none

-- `authenticate`
unfoldable pub authenticate :
    Hasher → String → String → String → String → Ldap → Result Error (Option Entry)
unfolding search bind_match escape_filter
authenticate hasher username password base_dn uid_attr d =
    if is_nonempty password
    then (do
      matches ← search base_dn (uid_filter uid_attr username) d
      bind_match hasher password matches d)
    else ok none
