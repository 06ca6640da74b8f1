-- ===== src/Oauth/Rar.antt =====
-- authlab/oauth/rar.py: the common fields of RFC 9396 authorization details.
pub mod Members
pub mod Details
use Prim.Native.Char.{code}
use auth_lab.Prelude.{
  ℕ, suc, String, Bool, true, false, Option, none, some, List, [], ◌∷◌, ◌&&◌, not, ltb, contains,
  str_eq,
}
use auth_lab.Prelude.Text.{is_nonempty}
use auth_lab.Json.{Json, null, str, arr, obj, Items, nil, cons, Fields, member}
use auth_lab.Url.{urlsplit, UrlParts}
use auth_lab.Oauth.Env.{Env}
use auth_lab.Oauth.Errors.{
  invalid_authorization_details, Result, ok, err, oauth, other, or_raise, refuse_if, ◌>>=◌, ◌>>◌,
}

-- `detail.get(name)`, with JSON's null read as a missing member
abbrev pub given : String → Fields → Option Json
given k o = present (member k o)
  where
    present : Option Json → Option Json
    present (some null) = none
    present x = x

-- `s.isascii()`
unfoldable pub is_ascii : String → Bool
is_ascii String.[] = true
is_ascii (String.◌∷◌ c s) = ltb (code c) 128 && is_ascii s

unfoldable pub count_items : Items → ℕ
count_items nil = 0
count_items (cons x xs) = suc (count_items xs)

-- every item is a text that is not empty
unfoldable pub all_texts : Items → Bool
all_texts nil = true
all_texts (cons (str s) xs) = is_nonempty s && all_texts xs
all_texts (cons _ xs) = false

-- a member that is missing, or a list of one text or more
unfoldable pub texts_or_missing : Option Json → Bool
unfolding all_texts
texts_or_missing none = true
texts_or_missing (some (arr (cons x xs))) = all_texts (cons x xs)
texts_or_missing (some _) = false

abbrev https_parts : Option UrlParts → Result (Unit {0})
https_parts none = err (other "ValueError")
https_parts (some parts) =
    refuse_if (not (str_eq parts.scheme "https" && is_nonempty parts.netloc))
      invalid_authorization_details

abbrev check_location : Json → Result (Unit {0})
check_location (str s) = https_parts (urlsplit s)
check_location _ = err (oauth invalid_authorization_details)

unfoldable pub check_locations : Items → Result (Unit {0})
check_locations nil = ok tt
check_locations (cons x xs) = do check_location x; check_locations xs

abbrev pub locations_of : Option Json → Result (Unit {0})
locations_of none = ok tt
locations_of (some (arr (cons x xs))) = check_locations (cons x xs)
locations_of (some _) = err (oauth invalid_authorization_details)

abbrev pub text_or_missing : Option Json → Bool
text_or_missing none = true
text_or_missing (some (str s)) = true
text_or_missing (some _) = false

abbrev pub type_of : Option Json → Result String
type_of (some (str s)) = ok s
type_of _ = err (oauth invalid_authorization_details)

-- One round of the loop over the details.
unfoldable pub check_detail : List String → Json → Result Json
check_detail allowed (obj o) = do
  t ← type_of (member "type" o)
  refuse_if (not (is_nonempty t && is_ascii t)) invalid_authorization_details
  refuse_if (not (contains allowed t)) invalid_authorization_details
  refuse_if (not (texts_or_missing (given "actions" o))) invalid_authorization_details
  refuse_if (not (texts_or_missing (given "datatypes" o))) invalid_authorization_details
  refuse_if (not (texts_or_missing (given "privileges" o))) invalid_authorization_details
  locations_of (given "locations" o)
  refuse_if (not (text_or_missing (given "identifier" o))) invalid_authorization_details
  refuse_if (not (texts_or_missing (given "credential_identifiers" o)))
      invalid_authorization_details
  ok (obj o)
check_detail allowed _ = err (oauth invalid_authorization_details)

unfoldable pub check_details : List String → Items → Result (List Json)
check_details allowed nil = ok []
check_details allowed (cons x xs) = do
  detail ← check_detail allowed x
  details ← check_details allowed xs
  ok (detail ∷ details)

-- `validate_authorization_details` of a value that has been parsed
unfoldable pub validate_value : List String → Json → Result (List Json)
unfolding count_items
validate_value allowed (arr (cons x xs)) = do
  refuse_if (ltb 16 (count_items (cons x xs))) invalid_authorization_details
  check_details allowed (cons x xs)
validate_value allowed _ = err (oauth invalid_authorization_details)

-- `validate_authorization_details` of a text
unfoldable pub validate_authorization_details : Env → List String → String → Result (List Json)
validate_authorization_details env allowed text = do
  value ← or_raise (env.json_loads text) invalid_authorization_details
  validate_value allowed value
