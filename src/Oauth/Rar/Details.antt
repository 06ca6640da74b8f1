-- ===== src/Oauth/Rar/Details.antt =====
-- What a list of authorization details that passes looks like.
use auth_lab.Prelude.{
  suc, ◌≤◌, String, ◌≡◌, refl, ap, ◌∙◌, sym, subst, true, Option, none, some, List, [], ◌∷◌, ◌&&◌,
  not, arith, length, All, In, contains, contains→In, ltb,
}
use auth_lab.Prelude.Text.{is_nonempty}
use auth_lab.Json.{
  Json, null, bool, int, float, str, arr, obj, Items, nil, cons, items, Fields, member,
}
use auth_lab.Oauth.Env.{Env}
use auth_lab.Oauth.Errors.{
  invalid_authorization_details, ok, or_raise, or_raise-eq-ok, refuse_if, >>=-eq-ok, >>-eq-ok,
}
use auth_lab.Oauth.Rar.{
  given, is_ascii, count_items, texts_or_missing, type_of, locations_of, text_or_missing,
  check_detail, check_details, validate_value, validate_authorization_details,
}
use auth_lab.Oauth.Rar.Members.{
  IsTexts, IsLocations, IsText, Optionally, passed, both_left, both_right, given-Optionally,
  texts_or_missing-Optionally, some-IsLocations, some-IsText,
}

-- The common fields of one object.
pub record IsWellFormed (allowed : List String) (o : Fields) (t : String) : Type 0 where
  pub typed : member "type" o ≡ some (str t)
  pub known : In t allowed
  pub named : is_nonempty t ≡ true
  pub ascii : is_ascii t ≡ true
  pub actions : Optionally IsTexts (member "actions" o)
  pub datatypes : Optionally IsTexts (member "datatypes" o)
  pub privileges : Optionally IsTexts (member "privileges" o)
  pub locations : Optionally IsLocations (member "locations" o)
  pub identifier : Optionally IsText (member "identifier" o)
  pub credentials : Optionally IsTexts (member "credential_identifiers" o)

abbrev pub IsDetail : List String → Json → Type 0
IsDetail allowed d = (o : Fields) × (t : String) × (d ≡ obj o) × IsWellFormed allowed o t

type_of-str : (o : Option Json) (t : String) → type_of o ≡ ok t → o ≡ some (str t)
type_of-str none t h = cc
type_of-str (some (str s)) t h = ground arith
type_of-str (some null) t h = cc
type_of-str (some (bool b)) t h = cc
type_of-str (some (int n)) t h = cc
type_of-str (some (float s)) t h = cc
type_of-str (some (arr xs)) t h = cc
type_of-str (some (obj o)) t h = cc

ok_injective : (x y : Json) → ok x ≡ ok y → x ≡ y
ok_injective x y h = cc

check_detail-ok :
    (allowed : List String) (x d : Json)
    → check_detail allowed x ≡ ok d
    → (x ≡ d) × IsDetail allowed d
unfolding check_detail
check_detail-ok allowed (obj o) d h =
    let (t, e1, h1) = >>=-eq-ok (type_of (member "type" o)) _ h in
    let (e2, h2) =
      >>-eq-ok (refuse_if (not (is_nonempty t && is_ascii t)) invalid_authorization_details) _ h1 in
    let (e3, h3) =
      >>-eq-ok (refuse_if (not (contains allowed t)) invalid_authorization_details) _ h2 in
    let (e4, h4) =
      >>-eq-ok
        (refuse_if (not (texts_or_missing (given "actions" o))) invalid_authorization_details) _
        h3 in
    let (e5, h5) =
      >>-eq-ok
        (refuse_if (not (texts_or_missing (given "datatypes" o))) invalid_authorization_details) _
        h4 in
    let (e6, h6) =
      >>-eq-ok
        (refuse_if (not (texts_or_missing (given "privileges" o))) invalid_authorization_details) _
        h5 in
    let (places, h7) = >>-eq-ok (locations_of (given "locations" o)) _ h6 in
    let (text, h8) =
      >>-eq-ok
        (refuse_if (not (text_or_missing (given "identifier" o))) invalid_authorization_details) _
        h7 in
    let (e9, h9) =
      >>-eq-ok
        (refuse_if (not (texts_or_missing (given "credential_identifiers" o)))
          invalid_authorization_details)
        _ h8 in
    let same = ok_injective (obj o) d h9 in
    let named = passed (is_nonempty t && is_ascii t) e2 in
    (
      same,
      (
        o,
        t,
        sym same,
        record {
          typed = type_of-str (member "type" o) t e1;
          known = contains→In allowed t (passed (contains allowed t) e3);
          named = both_left (is_nonempty t) (is_ascii t) named;
          ascii = both_right (is_nonempty t) (is_ascii t) named;
          actions = texts_or_missing-Optionally "actions" o (passed _ e4);
          datatypes = texts_or_missing-Optionally "datatypes" o (passed _ e5);
          privileges = texts_or_missing-Optionally "privileges" o (passed _ e6);
          locations =
              given-Optionally IsLocations "locations" o
                (λ x e. some-IsLocations x (ap locations_of (sym e) ∙ places));
          identifier =
              given-Optionally IsText "identifier" o
                (λ x e. some-IsText x (ap text_or_missing (sym e) ∙ passed _ text));
          credentials = texts_or_missing-Optionally "credential_identifiers" o (passed _ e9);
        },
      ),
    )
check_detail-ok allowed null d h = cc
check_detail-ok allowed (bool b) d h = cc
check_detail-ok allowed (int n) d h = cc
check_detail-ok allowed (float s) d h = cc
check_detail-ok allowed (str s) d h = cc
check_detail-ok allowed (arr xs) d h = cc

check_details-ok :
    (allowed : List String) (xs : Items) (ds : List Json)
    → check_details allowed xs ≡ ok ds
    → (xs ≡ items ds) × All (IsDetail allowed) ds × (count_items xs ≡ length ds)
unfolding check_details count_items
check_details-ok allowed nil [] h = (refl, tt, refl)
check_details-ok allowed nil (d ∷ ds) h = cc
check_details-ok allowed (cons x xs) ds h =
    let (d, e1, h1) = >>=-eq-ok (check_detail allowed x) _ h in
    let (rest, e2, h2) = >>=-eq-ok (check_details allowed xs) _ h1 in
    let (same, detail) = check_detail-ok allowed x d e1 in
    let (sames, details, count) = check_details-ok allowed xs rest e2 in
    let whole : d ∷ rest ≡ ds = ground arith in
    subst
      (λ l. (cons x xs ≡ items l) × All (IsDetail allowed) l × (suc (count_items xs) ≡ length l))
      whole (cc, (detail, details), ap suc count)

-- Authorization details that pass are what the text says, unchanged: between one and sixteen
-- objects, each of a supported type whose name is not empty and ASCII. The actions, datatypes,
-- privileges and credential identifiers of each are missing, null or a list of one text or more,
-- none of them empty; its locations are missing, null or a list of one URL or more with the
-- scheme https and an authority; its identifier is missing, null or a text.
pub validate_authorization_details-ok :
    (env : Env) (allowed : List String) (text : String) (ds : List Json)
    → validate_authorization_details env allowed text ≡ ok ds
    → (env.json_loads text ≡ some (arr (items ds)))
      × All (IsDetail allowed) ds
      × (1 ≤ length ds)
      × (length ds ≤ 16)
unfolding validate_authorization_details validate_value count_items
validate_authorization_details-ok env allowed text ds h =
    let (value, e1, h1) =
      >>=-eq-ok (or_raise (env.json_loads text) invalid_authorization_details) _ h in
    let loaded = or_raise-eq-ok (env.json_loads text) invalid_authorization_details e1 in
    go value loaded h1
  where
    go :
        (value : Json)
        → env.json_loads text ≡ some value
        → validate_value allowed value ≡ ok ds
        → (env.json_loads text ≡ some (arr (items ds)))
          × All (IsDetail allowed) ds
          × (1 ≤ length ds)
          × (length ds ≤ 16)
    go (arr (cons x xs)) e h =
        let (short, passed) =
          >>-eq-ok (refuse_if (ltb 16 (suc (count_items xs))) invalid_authorization_details) _ h in
        let (same, details, count) = check_details-ok allowed (cons x xs) ds passed in
        (e ∙ ap (λ l. some (arr l)) same, details, ground arith, ground arith)
    go (arr nil) e h = cc
    go null e h = cc
    go (bool b) e h = cc
    go (int n) e h = cc
    go (float s) e h = cc
    go (str s) e h = cc
    go (obj o) e h = cc
