-- ===== src/Oauth/Rar/Members.antt =====
-- What the checks of the members of an authorization detail let through (authlab/oauth/rar.py).
use auth_lab.Prelude.{
  String, ◌≡◌, ◌⊎◌, inl, inr, refl, ap, ◌∙◌, sym, Bool, true, Option, none, some, List, [], ◌∷◌,
  ◌&&◌, not, arith, All, eq_iff, str_eq, Option-cases,
}
use auth_lab.Prelude.Text.{is_nonempty}
use auth_lab.Json.{
  Json, null, bool, int, float, str, arr, obj, Items, nil, cons, texts, Fields, member,
}
use auth_lab.Url.{UrlParts, urlsplit}
use auth_lab.Oauth.Errors.{invalid_authorization_details, ok, refuse_if, >>-eq-ok}
use auth_lab.Oauth.Rar.{
  given, all_texts, texts_or_missing, check_locations, locations_of, text_or_missing,
}

-- One text or more, none of them empty.
abbrev pub IsTexts : Json → Type 0
IsTexts x =
    (t : String) × (ts : List String) × (x ≡ arr (texts (t ∷ ts)))
    × All (λ s. is_nonempty s ≡ true) (t ∷ ts)

abbrev pub IsHttps : String → Type 0
IsHttps uri =
    (parts : UrlParts) × (urlsplit uri ≡ some parts)
    × (parts.scheme ≡ "https")
    × (is_nonempty parts.netloc ≡ true)

-- One URL or more, each of them with the scheme https and an authority.
abbrev pub IsLocations : Json → Type 0
IsLocations x =
    (u : String) × (us : List String) × (x ≡ arr (texts (u ∷ us))) × All IsHttps (u ∷ us)

abbrev pub IsText : Json → Type 0
IsText x = (t : String) × (x ≡ str t)

-- A member that is missing, null or as `P` says.
abbrev pub Optionally : (Json → Type 0) → Option Json → Type 0
Optionally P m = (m ≡ none) ⊎ (m ≡ some null) ⊎ ((x : Json) × (m ≡ some x) × P x)

pub passed : (b : Bool) → refuse_if (not b) invalid_authorization_details ≡ ok tt → b ≡ true
passed b h = ground arith

pub both_left : (a b : Bool) → (a && b) ≡ true → a ≡ true
both_left a b h = ground arith

pub both_right : (a b : Bool) → (a && b) ≡ true → b ≡ true
both_right a b h = ground arith

-- What `given` hands on is the member that is there.
pub given-Optionally :
    (P : Json → Type 0) (k : String) (o : Fields)
    → ((x : Json) → given k o ≡ some x → P x)
    → Optionally P (member k o)
given-Optionally P k o h = go (member k o) refl
  where
    go : (m : Option Json) → member k o ≡ m → Optionally P m
    go none e = inl refl
    go (some null) e = inr (inl refl)
    go (some (bool b)) e = inr (inr (bool b, refl, h (bool b) (ground arith)))
    go (some (int n)) e = inr (inr (int n, refl, h (int n) (ground arith)))
    go (some (float t)) e = inr (inr (float t, refl, h (float t) (ground arith)))
    go (some (str t)) e = inr (inr (str t, refl, h (str t) (ground arith)))
    go (some (arr xs)) e = inr (inr (arr xs, refl, h (arr xs) (ground arith)))
    go (some (obj fs)) e = inr (inr (obj fs, refl, h (obj fs) (ground arith)))

all_texts-texts :
    (xs : Items)
    → all_texts xs ≡ true
    → (ts : List String) × (xs ≡ texts ts) × All (λ s. is_nonempty s ≡ true) ts
unfolding all_texts
all_texts-texts nil h = ([], refl, tt)
all_texts-texts (cons (str s) xs) h =
    let (ts, same, full) = all_texts-texts xs (both_right (is_nonempty s) (all_texts xs) h) in
    (s ∷ ts, ap (cons (str s)) same, (both_left (is_nonempty s) (all_texts xs) h, full))
all_texts-texts (cons null xs) h = cc
all_texts-texts (cons (bool b) xs) h = cc
all_texts-texts (cons (int n) xs) h = cc
all_texts-texts (cons (float t) xs) h = cc
all_texts-texts (cons (arr ys) xs) h = cc
all_texts-texts (cons (obj o) xs) h = cc

some-IsTexts : (x : Json) → texts_or_missing (some x) ≡ true → IsTexts x
unfolding texts_or_missing all_texts
some-IsTexts (arr (cons (str t) xs)) h =
    let (ts, same, full) = all_texts-texts xs (both_right (is_nonempty t) (all_texts xs) h) in
    (t, ts, ap (λ l. arr (cons (str t) l)) same, (both_left (is_nonempty t) (all_texts xs) h, full))
some-IsTexts (arr (cons null xs)) h = cc
some-IsTexts (arr (cons (bool b) xs)) h = cc
some-IsTexts (arr (cons (int n) xs)) h = cc
some-IsTexts (arr (cons (float t) xs)) h = cc
some-IsTexts (arr (cons (arr ys) xs)) h = cc
some-IsTexts (arr (cons (obj o) xs)) h = cc
some-IsTexts (arr nil) h = cc
some-IsTexts null h = cc
some-IsTexts (bool b) h = cc
some-IsTexts (int n) h = cc
some-IsTexts (float t) h = cc
some-IsTexts (str t) h = cc
some-IsTexts (obj o) h = cc

pub texts_or_missing-Optionally :
    (k : String) (o : Fields)
    → texts_or_missing (given k o) ≡ true
    → Optionally IsTexts (member k o)
texts_or_missing-Optionally k o h =
    given-Optionally IsTexts k o (λ x e. some-IsTexts x (ap texts_or_missing (sym e) ∙ h))

check_locations-IsHttps :
    (xs : Items)
    → check_locations xs ≡ ok tt
    → (us : List String) × (xs ≡ texts us) × All IsHttps us
unfolding check_locations
check_locations-IsHttps nil h = ([], refl, tt)
check_locations-IsHttps (cons (str s) xs) h = elim (Option-cases (urlsplit s)) [
  | inl bad ↦ let wrong = rw (bad, check_locations) at h in cc
  | inr (parts, found) ↦
      let (secure, rest) = >>-eq-ok (refuse_if _ _) _ (rw (found, check_locations) at h) in
      let (us, same, all) = check_locations-IsHttps xs rest in
      let https = passed (str_eq parts.scheme "https" && is_nonempty parts.netloc) secure in
      (
        s ∷ us,
        ap (cons (str s)) same,
        (
          (
            parts,
            found,
            (eq_iff parts.scheme "https").0
                (both_left (str_eq parts.scheme "https") (is_nonempty parts.netloc) https),
            both_right (str_eq parts.scheme "https") (is_nonempty parts.netloc) https,
          ),
          all,
        ),
      )
]
check_locations-IsHttps (cons null xs) h = cc
check_locations-IsHttps (cons (bool b) xs) h = cc
check_locations-IsHttps (cons (int n) xs) h = cc
check_locations-IsHttps (cons (float t) xs) h = cc
check_locations-IsHttps (cons (arr ys) xs) h = cc
check_locations-IsHttps (cons (obj o) xs) h = cc

pub some-IsLocations : (x : Json) → locations_of (some x) ≡ ok tt → IsLocations x
some-IsLocations (arr (cons x xs)) h =
    let (us, same, all) = check_locations-IsHttps (cons x xs) h in go us same all
  where
    go : (us : List String) → cons x xs ≡ texts us → All IsHttps us → IsLocations (arr (cons x xs))
    go [] same all = cc
    go (u ∷ us) same all = (u, us, ap arr same, all)
some-IsLocations (arr nil) h = cc
some-IsLocations null h = cc
some-IsLocations (bool b) h = cc
some-IsLocations (int n) h = cc
some-IsLocations (float t) h = cc
some-IsLocations (str t) h = cc
some-IsLocations (obj o) h = cc

pub some-IsText : (x : Json) → text_or_missing (some x) ≡ true → IsText x
some-IsText (str t) h = (t, refl)
some-IsText null h = cc
some-IsText (bool b) h = cc
some-IsText (int n) h = cc
some-IsText (float t) h = cc
some-IsText (arr xs) h = cc
some-IsText (obj o) h = cc
