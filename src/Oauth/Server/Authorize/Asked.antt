-- ===== src/Oauth/Server/Authorize/Asked.antt =====
-- What each check of an authorization request lets through (authlab/oauth/authorization_server.py).
use auth_lab.Prelude.{
  ap, ◌∙◌, String, ◌≡◌, ◌⊎◌, inl, inr, refl, true, Option, none, some, List, [], ◌∷◌, ◌||◌, not,
  any, arith, eq_iff, str_eq, In, contains→In, Option-cases, if◌then◌else◌, All, contains, sym,
}
use auth_lab.Prelude.Text.{is_nonempty, truthy}
use auth_lab.Dict.{Dict, get}
use auth_lab.Json.{Json, arr, items}
use auth_lab.Oauth.Env.{Env, constant_time_equals}
use auth_lab.Oauth.Errors.{
  OAuthError, ok, or_raise, refuse_if, unsupported_response_type, >>=-eq-ok,
}
use auth_lab.Oauth.Models.{Client, is_public}
use auth_lab.Oauth.Rar.Details.{IsDetail, validate_authorization_details-ok}
use auth_lab.Oauth.Server.{AuthorizationServer}
use auth_lab.Oauth.Server.Authorize.{
  given, only_uri, choose_uri, check_redirect_uri, check_scope, check_challenge, check_resources,
  check_details, get_or,
}
use auth_lab.Oauth.Server.Grants.Refresh.{Within, outside-Within}

any_uri-In :
    (uri : String) (uris : List String) → any (constant_time_equals uri) uris ≡ true → In uri uris
any_uri-In uri [] h = cc
any_uri-In uri (u ∷ uris) h = ground (arith, eq_iff uri u, any_uri-In uri uris)

-- A parameter that the request does not have, or has empty.
abbrev pub IsMissing : Option String → Type 0
IsMissing o = (o ≡ none) ⊎ (o ≡ some "")

abbrev pub IsNamed : Dict String → String → String → Type 0
IsNamed params k x = (get params k ≡ some x) × (is_nonempty x ≡ true)

given-none : (params : Dict String) (k : String) → given params k ≡ none → IsMissing (get params k)
given-none params k h = go (get params k) refl
  where
    go : (o : Option String) → get params k ≡ o → IsMissing o
    go none e = inl refl
    go (some String.[]) e = inr refl
    go (some (String.◌∷◌ c t)) e = let bad = rw (e, given) at h in cc

given-some : (params : Dict String) (k x : String) → given params k ≡ some x → IsNamed params k x
given-some params k x h = elim (Option-cases (get params k)) [
  | inl none_found ↦ cc
  | inr (y, found) ↦ (ground (arith, found), ground (arith, found))
]

-- The URI that the request names, or the only one that the client has.
abbrev pub IsRequested : Dict String → Client → String → Type 0
IsRequested params client uri =
    IsNamed params "redirect_uri" uri
    ⊎ (IsMissing (get params "redirect_uri") × (client.redirect_uris ≡ uri ∷ []))

only_uri-ok : (uris : List String) (uri : String) → only_uri uris ≡ ok uri → uris ≡ uri ∷ []
only_uri-ok [] uri h = cc
only_uri-ok (u ∷ []) uri h = cc
only_uri-ok (u ∷ v ∷ uris) uri h = cc

pub check_redirect_uri-ok :
    (params : Dict String) (client : Client) {uri : String}
    → check_redirect_uri client (given params "redirect_uri") ≡ ok uri
    → In uri client.redirect_uris × IsRequested params client uri
unfolding check_redirect_uri
check_redirect_uri-ok params client {uri} h =
    let (chosen, e1, h1) = >>=-eq-ok (choose_uri client (given params "redirect_uri")) _ h in
    let same : chosen ≡ uri = ground arith in
    (
      any_uri-In uri client.redirect_uris (rw (← same) (ground arith)),
      rw (← same) (elim (Option-cases (given params "redirect_uri")) [
        | inl missing ↦ inr (
          given-none params "redirect_uri" missing,
          only_uri-ok client.redirect_uris chosen (ap (choose_uri client) (sym missing) ∙ e1),
        )
        | inr (x, named) ↦ inl (
            let is : x ≡ chosen = ground arith in
            given-some params "redirect_uri" chosen (named ∙ ap some is))
      ]),
    )

pub ok-injective {ℓ} : {A : Type ℓ} {a b : A} → ok a ≡ ok b → a ≡ b
ok-injective h = cc

pub present-ok :
    (params : Dict String) (k : String) (e : OAuthError) {x : String}
    → or_raise (given params k) e ≡ ok x
    → (is_nonempty x ≡ true) × (get params k ≡ some x)
present-ok params k e h = elim (Option-cases (get params k)) [
  | inl none_found ↦ cc
  | inr (x, found) ↦ (ground (arith, found), ground (arith, found))
]

pub check_challenge-due :
    (client : Client) (challenge : Option String) (method : String)
    → (client.require_pkce || is_public client) ≡ true
    → check_challenge client challenge method ≡ ok tt
    → (truthy challenge ≡ true) × (method ≡ "S256")
unfolding check_challenge
check_challenge-due client challenge method due h =
    (ground (arith, eq_iff method "S256"), ground (arith, eq_iff method "S256"))

pub response_type-code :
    (o : Option String)
    → refuse_if (not (str_eq (get_or o "") "code")) unsupported_response_type ≡ ok tt
    → o ≡ some "code"
response_type-code none h = ground arith
response_type-code (some t) h = ground (arith, eq_iff t "code")

pub allowed-code :
    (allowed : List String) (o : Option String)
    → o ≡ some "code"
    → refuse_if (not (contains allowed (get_or o ""))) unsupported_response_type ≡ ok tt
    → In "code" allowed
allowed-code allowed o e h = let now = rw e at h in contains→In allowed "code" (ground arith)

pub strong_challenge :
    (challenge method : Option String)
    → (truthy challenge ≡ true) × (get_or method "plain" ≡ "S256")
    → (truthy challenge ≡ true)
      × ((if truthy challenge then get_or method "plain" else "S256") ≡ "S256")
      × (method ≡ some "S256")
strong_challenge challenge none (present, s256) = ground (arith, eq_iff "plain" "S256")
strong_challenge challenge (some m) (present, s256) = (present, ground arith, ap some s256)

-- The resource that the request names, or none.
abbrev pub Targets : Dict String → List String → Type 0
Targets params resources =
    (IsMissing (get params "resource") × (resources ≡ []))
    ⊎ ((target : String) × IsNamed params "resource" target × (resources ≡ target ∷ []))

-- The authorization details that the request asks for, each of a supported type, or none.
abbrev pub Asks : Env → Dict String → AuthorizationServer → List Json → Type 0
Asks env params s ds =
    ((get params "authorization_details" ≡ none) × (ds ≡ []))
    ⊎ ((text : String) × (get params "authorization_details" ≡ some text)
        × (env.json_loads text ≡ some (arr (items ds)))
        × All (IsDetail s.supported_authorization_detail_types) ds)

pub check_resources-Targets :
    (params : Dict String) (s : AuthorizationServer) (resources : List String)
    → check_resources s (given params "resource") ≡ ok resources
    → Targets params resources
unfolding check_resources
check_resources-Targets params s resources h = elim (Option-cases (given params "resource")) [
  | inl missing ↦
      let e : check_resources s none ≡ ok resources = ap (check_resources s) (sym missing) ∙ h in
      inl (given-none params "resource" missing, sym (ok-injective e))
  | inr (t, named) ↦
      let e : check_resources s (some t) ≡ ok resources = ap (check_resources s) (sym named) ∙ h in
      inr (t, given-some params "resource" t named, ground arith)
]

pub check_details-Asks :
    (env : Env) (params : Dict String) (s : AuthorizationServer) (ds : List Json)
    → check_details env s (get params "authorization_details") ≡ ok ds
    → Asks env params s ds
unfolding check_details
check_details-Asks env params s ds h = elim (Option-cases (get params "authorization_details")) [
  | inl missing ↦
      let e : check_details env s none ≡ ok ds = ap (check_details env s) (sym missing) ∙ h in
      inl (missing, sym (ok-injective e))
  | inr (text, named) ↦
      let e : check_details env s (some text) ≡ ok ds = ap (check_details env s) (sym named) ∙ h in
      let (loaded, all, _, _) =
        validate_authorization_details-ok env s.supported_authorization_detail_types text ds e in
      inr (text, named, loaded, all)
]

pub check_scope-known :
    (s : AuthorizationServer) (client : Client) (scope : List String)
    → check_scope s client scope ≡ ok tt
    → Within scope s.supported_scopes
unfolding check_scope
check_scope-known s client scope h = outside-Within s.supported_scopes scope (ground arith)

pub check_scope-client :
    (s : AuthorizationServer) (client : Client) (scope : List String)
    → check_scope s client scope ≡ ok tt
    → (client.scopes ≡ []) ⊎ Within scope client.scopes
unfolding check_scope
check_scope-client s client scope h = go client.scopes refl
  where
    go : (l : List String) → client.scopes ≡ l → (client.scopes ≡ []) ⊎ Within scope client.scopes
    go [] e = inl e
    go (x ∷ xs) e = inr (outside-Within client.scopes scope (ground arith))

pub check_resources-known :
    (s : AuthorizationServer) (target : Option String) (resources : List String)
    → check_resources s target ≡ ok resources
    → Within resources s.known_resources
unfolding check_resources
check_resources-known s none resources h = let e : [] ≡ resources = cc in rw (← e) (λ x m. absurd m)
check_resources-known s (some t) resources h =
    let e : t ∷ [] ≡ resources = ground arith in
    rw (← e) (λ x m. elim m [
      | inl same ↦ rw (← same) (contains→In s.known_resources t (ground arith))
      | inr nothing ↦ absurd nothing
    ])
