-- ===== src/Oauth/Server/Authorize.antt =====
-- The authorization endpoint: registration, the checks of a request, and the code that is issued.
pub mod Asked
pub mod Accepts
use Prim.Native.Char.{code}
use auth_lab.Prelude.{
  ℕ, ◌+◌, String, Bool, true, false, Option, none, some, List, [], ◌∷◌, ◌++◌, ◌&&◌, ◌||◌, not, any,
  is_empty, filter, contains, str_eq, if◌then◌else◌,
}
use auth_lab.Prelude.Text.{is_nonempty, truthy, or_empty, split}
use auth_lab.Json.{Json}
use auth_lab.Dict.{Dict, get, set}
use auth_lab.Url.{UrlParts, urlsplit, hostname, has_char}
use auth_lab.Oauth.Env.{Env, constant_time_equals}
use auth_lab.Oauth.Errors.{
  invalid_request, invalid_client, invalid_scope, invalid_target, unsupported_response_type, Result,
  ok, err, oauth, other, or_raise, refuse_if, ◌>>=◌, ◌>>◌,
}
use auth_lab.Oauth.Models.{Client, is_public, User, AuthorizationCode, Store, code_issued, log}
use auth_lab.Oauth.Rar.{validate_authorization_details}
use auth_lab.Oauth.Server.{AuthorizationServer, with_store, draw_token}

-- `_assert_registrable_redirect_uri`
abbrev check_parts : String → Option UrlParts → Result (Unit {0})
check_parts uri none = err (other "ValueError")
check_parts uri (some parts) = do
  refuse_if (is_nonempty parts.fragment) invalid_request
  refuse_if (has_char b'*' uri) invalid_request
  refuse_if
      ((str_eq parts.scheme "http" || str_eq parts.scheme "https")
        && not (is_nonempty parts.netloc))
      invalid_request
  refuse_if
      (str_eq parts.scheme "http"
        && not (contains ("localhost" ∷ "127.0.0.1" ∷ "[::1]" ∷ []) (hostname parts)))
      invalid_request

unfoldable pub assert_registrable_redirect_uri : String → Result (Unit {0})
assert_registrable_redirect_uri uri = check_parts uri (urlsplit uri)

unfoldable pub assert_all_registrable : List String → Result (Unit {0})
assert_all_registrable [] = ok tt
assert_all_registrable (uri ∷ uris) = do
  assert_registrable_redirect_uri uri
  assert_all_registrable uris

-- `register_client`
unfoldable pub register_client : Client → AuthorizationServer → Result AuthorizationServer
register_client client s = do
  refuse_if (is_empty client.redirect_uris && contains client.grant_types "authorization_code")
      invalid_request
  assert_all_registrable client.redirect_uris
  ok (with_store (λ st. record st { clients = set st.clients client.client_id client }) s)

-- `register_user`
unfoldable pub register_user : User → AuthorizationServer → AuthorizationServer
register_user user = with_store (λ st. record st { users = set st.users user.subject user })

-- What `validate_authorization_request` hands on.
pub record Validated : Type 0 where
  pub client : Client
  pub redirect_uri : String
  pub scope : List String
  pub state : String
  pub nonce : Option String
  pub code_challenge : Option String
  pub code_challenge_method : String
  pub resource : List String
  pub dpop_jkt : Option String
  pub authorization_details : List Json

-- `params.get(k)`, with an empty text read as missing
abbrev pub given : Dict String → String → Option String
given params k = present (get params k)
  where
    present : Option String → Option String
    present none = none
    present (some s) = if is_nonempty s then some s else none

-- `params.get(k, default)`
abbrev pub get_or : Option String → String → String
get_or none default = default
get_or (some s) default = s

-- The redirect URI that is meant where the request names none.
abbrev only_uri : List String → Result String
only_uri (uri ∷ []) = ok uri
only_uri _ = err (oauth invalid_request)

abbrev choose_uri : Client → Option String → Result String
choose_uri client (some uri) = ok uri
choose_uri client none = only_uri client.redirect_uris

unfoldable pub check_redirect_uri : Client → Option String → Result String
check_redirect_uri client requested = do
  uri ← choose_uri client requested
  refuse_if (not (any (constant_time_equals uri) client.redirect_uris)) invalid_request
  ok uri

-- A scope that is not in the list.
abbrev pub outside : List String → List String → List String
outside allowed scope = filter (λ s. not (contains allowed s)) scope

unfoldable pub check_scope : AuthorizationServer → Client → List String → Result (Unit {0})
check_scope s client scope = do
  refuse_if (not (is_empty (outside s.supported_scopes scope))) invalid_scope
  refuse_if (not (is_empty client.scopes) && not (is_empty (outside client.scopes scope)))
      invalid_scope

unfoldable pub check_challenge : Client → Option String → String → Result (Unit {0})
check_challenge client challenge method =
    if client.require_pkce || is_public client
    then (do
      refuse_if (not (truthy challenge)) invalid_request
      refuse_if (not (str_eq method "S256")) invalid_request)
    else ok tt

unfoldable pub check_resources : AuthorizationServer → Option String → Result (List String)
check_resources s none = ok []
check_resources s (some target) = do
  refuse_if (not (contains s.known_resources target)) invalid_target
  ok (target ∷ [])

unfoldable pub check_details : Env → AuthorizationServer → Option String → Result (List Json)
check_details env s none = ok []
check_details env s (some text) =
    validate_authorization_details env s.supported_authorization_detail_types text

-- `validate_authorization_request`
unfoldable pub validate_authorization_request :
    Env → Dict String → AuthorizationServer → Result Validated
validate_authorization_request env params s = do
  client_id ← or_raise (given params "client_id") invalid_request
  client ← or_raise (get s.store.clients client_id) invalid_client
  redirect_uri ← check_redirect_uri client (given params "redirect_uri")
  let response_type = get_or (get params "response_type") ""
  refuse_if (not (contains client.response_types response_type)) unsupported_response_type
  refuse_if (not (str_eq response_type "code")) unsupported_response_type
  let scope = split (or_empty (get params "scope"))
  check_scope s client scope
  let challenge = get params "code_challenge"
  let method = get_or (get params "code_challenge_method") "plain"
  check_challenge client challenge method
  state ← or_raise (given params "state") invalid_request
  resources ← check_resources s (given params "resource")
  details ← check_details env s (get params "authorization_details")
  ok (record {
    client = client;
    redirect_uri = redirect_uri;
    scope = scope;
    state = state;
    nonce = get params "nonce";
    code_challenge = challenge;
    code_challenge_method = if truthy challenge then method else "S256";
    resource = resources;
    dpop_jkt = get params "dpop_jkt";
    authorization_details = details;
  })

-- `amr or ["pwd"]`
abbrev pub amr_or_pwd : List String → List String
amr_or_pwd [] = "pwd" ∷ []
amr_or_pwd (a ∷ amr) = a ∷ amr

abbrev time_or : Option ℕ → ℕ → ℕ
time_or none now = now
time_or (some t) now = t

-- The record of a code that is issued for the value `code`.
unfoldable pub new_code :
    String → Validated → String → List String → Option ℕ → AuthorizationServer → AuthorizationCode
new_code code v subject amr auth_time s = record {
  code = code;
  client_id = v.client.client_id;
  subject = subject;
  redirect_uri = v.redirect_uri;
  scope = v.scope;
  expires_at = s.now + s.code_lifetime;
  code_challenge = v.code_challenge;
  code_challenge_method = v.code_challenge_method;
  nonce = v.nonce;
  amr = amr_or_pwd amr;
  auth_time = time_or auth_time s.now;
  used = false;
  resource = v.resource;
  dpop_jkt = v.dpop_jkt;
  authorization_details = v.authorization_details;
}

-- `issue_authorization_code`
unfoldable pub issue_authorization_code :
    Env
    → Validated
    → String
    → List String
    → Option ℕ
    → AuthorizationServer
    → String × AuthorizationServer
unfolding new_code draw_token
issue_authorization_code env v subject amr auth_time s =
    let (value, t) = draw_token env 32 s in
    (
      value,
      with_store
          (λ st.
            log (code_issued subject v.client.client_id)
              (record st { codes = set st.codes value (new_code value v subject amr auth_time s) }))
          t,
    )
