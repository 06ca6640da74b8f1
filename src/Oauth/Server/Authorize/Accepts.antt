-- ===== src/Oauth/Server/Authorize/Accepts.antt =====
-- What an authorization request must be to be accepted.
use auth_lab.Prelude.{subst, ap, ◌∙◌, String, ◌≡◌, ◌⊎◌, refl, true, some, [], ◌||◌, arith, In}
use auth_lab.Prelude.Text.{is_nonempty, truthy, or_empty, split}
use auth_lab.Dict.{Dict, get}
use auth_lab.Oauth.Env.{Env}
use auth_lab.Oauth.Errors.{
  ok, or_raise, or_raise-eq-ok, refuse_if, unsupported_response_type, invalid_request,
  invalid_client, >>=-eq-ok, >>-eq-ok,
}
use auth_lab.Oauth.Models.{is_public}
use auth_lab.Oauth.Server.{AuthorizationServer}
use auth_lab.Oauth.Server.Authorize.{
  Validated, given, check_redirect_uri, check_resources, check_details,
  validate_authorization_request, get_or,
}
use auth_lab.Oauth.Server.Grants.Refresh.{Within}
use auth_lab.Oauth.Server.Authorize.Asked.{
  IsRequested, check_redirect_uri-ok, ok-injective, present-ok, check_challenge-due,
  response_type-code, allowed-code, strong_challenge, Targets, Asks, check_resources-Targets,
  check_details-Asks, check_scope-known, check_scope-client, check_resources-known,
}

-- What is known of a request that was accepted.
pub record IsAccepted (env : Env) (params : Dict String) (s : AuthorizationServer) (v : Validated)
    : Type 0 where
  pub registered : get s.store.clients (or_empty (get params "client_id")) ≡ some v.client
  pub exact_uri : In v.redirect_uri v.client.redirect_uris
  pub requested_uri : IsRequested params v.client v.redirect_uri
  pub code_flow : get params "response_type" ≡ some "code"
  pub code_allowed : In "code" v.client.response_types
  pub requested_scope : v.scope ≡ split (or_empty (get params "scope"))
  pub known_scope : Within v.scope s.supported_scopes
  pub client_scope : (v.client.scopes ≡ []) ⊎ Within v.scope v.client.scopes
  pub pkce :
      (v.client.require_pkce || is_public v.client) ≡ true
      → (truthy v.code_challenge ≡ true)
        × (v.code_challenge_method ≡ "S256")
        × (get params "code_challenge_method" ≡ some "S256")
  pub challenge : v.code_challenge ≡ get params "code_challenge"
  pub method :
      truthy v.code_challenge ≡ true
      → v.code_challenge_method ≡ get_or (get params "code_challenge_method") "plain"
  pub csrf : (is_nonempty v.state ≡ true) × (get params "state" ≡ some v.state)
  pub known_resource : Within v.resource s.known_resources
  pub requested_resource : Targets params v.resource
  pub nonce : v.nonce ≡ get params "nonce"
  pub key : v.dpop_jkt ≡ get params "dpop_jkt"
  pub details : Asks env params s v.authorization_details

-- An authorization request that passes names a registered client and asks for a code, which the
-- client may have. The redirect URI that is handed on is, to the letter, one of the client's:
-- the one that the request names, or, where it names none, the only one that the client has. The
-- scope is that of the request, supported and open to the client; the resource is the one that
-- the request names, a known one, or none; the state is that of the request and not empty; the
-- challenge, the nonce and the bound key are the request's; the authorization details are what
-- its text says, each of a supported type and well formed, or none. Where PKCE is due, the
-- request carries a challenge with the method S256, and that method is handed on.
pub validate_authorization_request-ok :
    (env : Env) (params : Dict String) (s : AuthorizationServer) (v : Validated)
    → validate_authorization_request env params s ≡ ok v
    → IsAccepted env params s v
unfolding validate_authorization_request
validate_authorization_request-ok env params s v h =
    let (client_id, e1, h1) = >>=-eq-ok (or_raise (given params "client_id") invalid_request) _ h in
    let (client, e2, h2) =
      >>=-eq-ok (or_raise (get s.store.clients client_id) invalid_client) _ h1 in
    let (uri, e3, h3) = >>=-eq-ok (check_redirect_uri client (given params "redirect_uri")) _ h2 in
    let (e4, h4) = >>-eq-ok (refuse_if _ unsupported_response_type) _ h3 in
    let (e5, h5) = >>-eq-ok (refuse_if _ unsupported_response_type) _ h4 in
    let (e6, h6) = >>-eq-ok _ _ h5 in
    let (e7, h7) = >>-eq-ok _ _ h6 in
    let (state, e8, h8) = >>=-eq-ok (or_raise (given params "state") invalid_request) _ h7 in
    let (resources, e9, h9) = >>=-eq-ok (check_resources s (given params "resource")) _ h8 in
    let (details, e10, h10) =
      >>=-eq-ok (check_details env s (get params "authorization_details")) _ h9 in
    let (named, found) = present-ok params "client_id" invalid_request e1 in
    let scope = split (or_empty (get params "scope")) in
    subst (IsAccepted env params s) (ok-injective h10) (record {
      registered =
          ap (λ o. get s.store.clients (or_empty o)) found
          ∙ or_raise-eq-ok (get s.store.clients client_id) invalid_client e2;
      exact_uri = (check_redirect_uri-ok params client e3).0;
      requested_uri = (check_redirect_uri-ok params client e3).1;
      code_flow = response_type-code (get params "response_type") e5;
      code_allowed =
          allowed-code client.response_types (get params "response_type")
            (response_type-code (get params "response_type") e5) e4;
      requested_scope = refl;
      known_scope = check_scope-known s client scope e6;
      client_scope = check_scope-client s client scope e6;
      pkce = λ due.
          strong_challenge (get params "code_challenge") (get params "code_challenge_method")
            (check_challenge-due client (get params "code_challenge") _ due e7);
      challenge = refl;
      method = λ present. ground arith;
      csrf = present-ok params "state" invalid_request e8;
      known_resource = check_resources-known s (given params "resource") resources e9;
      requested_resource = check_resources-Targets params s resources e9;
      nonce = refl;
      key = refl;
      details = check_details-Asks env params s details e10;
    })
