-- ===== src/Oauth/Server/Authenticate.antt =====
-- Client authentication at the token endpoint, `private_key_jwt` assertions included.
use auth_lab.Prelude.{
  ℕ, ◌+◌, String, Bool, true, false, Option, none, some, ◌||◌, ◌&&◌, not, ltb, str_eq,
  if◌then◌else◌,
}
use auth_lab.Prelude.Int.{ℤ, pos, pos_part, neg_part, ltb_ℤ}
use auth_lab.Prelude.Text.{is_nonempty}
use auth_lab.Json.{Json, obj, end, Fields, member, as_int, as_str}
use auth_lab.Dict.{Dict, get, set, has}
use auth_lab.Oauth.Env.{Env, constant_time_equals}
use auth_lab.Oauth.Errors.{invalid_client, Result, ok, err, oauth, or_raise, refuse_if, ◌>>=◌, ◌>>◌}
use auth_lab.Oauth.Exec.{Exec}
use auth_lab.Oauth.Models.{Client}
use auth_lab.Oauth.Dpop.{is_text}
use auth_lab.Oauth.Server.{AuthorizationServer, with_store}
use auth_lab.Oauth.Server.Authorize.{get_or}

-- `not client.jwks`
abbrev registered_keys : Option Json → Option Json
registered_keys none = none
registered_keys (some (obj end)) = none
registered_keys (some j) = some j

-- The tests on `iat` and `exp` that refuse an assertion.
unfoldable pub bad_lifetime : ℕ → ℤ → ℤ → Bool
bad_lifetime now iat exp =
    ltb_ℤ (pos (now + 60)) iat
    || ltb_ℤ exp (pos now)
    || ltb_ℤ exp iat
    || ltb (300 + neg_part exp + pos_part iat) (pos_part exp + neg_part iat)

abbrev object : Json → Result Fields
object (obj o) = ok o
object _ = err (oauth invalid_client)

-- The checks of an assertion's claims: its `jti` and its `exp`
unfoldable pub check_claims : AuthorizationServer → Client → Fields → Result (String × ℕ)
check_claims s client claims = do
  refuse_if
      (not (is_text (member "iss" claims) client.client_id)
        || not (is_text (member "sub" claims) client.client_id))
      invalid_client
  refuse_if (not (is_text (member "aud" claims) s.issuer)) invalid_client
  iat ← or_raise (as_int (member "iat" claims)) invalid_client
  exp ← or_raise (as_int (member "exp" claims)) invalid_client
  refuse_if (bad_lifetime s.now iat exp) invalid_client
  jti ← or_raise (as_str (member "jti" claims)) invalid_client
  refuse_if (not (is_nonempty jti) || has s.store.seen_jtis jti) invalid_client
  ok (jti, pos_part exp)

-- The claims of a signed assertion, once its signature is known to be of the client's keys. An
-- assertion that these keys do not verify is refused; a registered key set that is malformed is refused
-- with it, where the source lets the KeyError of reading it through.
unfoldable pub open_assertion : Env → Client → Dict String → Result Fields
open_assertion env client params = do
  refuse_if
      (not (
        str_eq (get_or (get params "client_assertion_type") "")
          "urn:ietf:params:oauth:client-assertion-type:jwt-bearer"))
      invalid_client
  assertion ← or_raise (get params "client_assertion") invalid_client
  jwks ← or_raise (registered_keys client.jwks) invalid_client
  payload ← or_raise (env.jws_verify assertion jwks) invalid_client
  value ← or_raise (env.json_loads payload) invalid_client
  object value

-- The checks of `_verify_client_assertion`, in front of its one write.
unfoldable pub check_assertion :
    Env → Client → Dict String → AuthorizationServer → Result (String × ℕ)
check_assertion env client params s = do
  claims ← open_assertion env client params
  check_claims s client claims

-- `_verify_client_assertion`
unfoldable pub verify_client_assertion :
    Env → Client → Dict String → Exec AuthorizationServer (Unit {0})
verify_client_assertion env client params s = elim (check_assertion env client params s) [
  | err e ↦ (err e, s)
  | ok (jti, exp) ↦ (ok tt, with_store (λ st. record st { seen_jtis = set st.seen_jtis jti exp }) s)
]

-- The client id and the secret that a request presents.
abbrev pub credentials : Dict String → Option (String × String) → String × String
credentials params (some basic) = basic
credentials params none =
    (get_or (get params "client_id") "", get_or (get params "client_secret") "")

abbrev secret_is : Option String → String → Bool
secret_is none presented = false
secret_is (some secret) presented = is_nonempty secret && constant_time_equals presented secret

abbrev pub is_some {ℓ} : {A : Type ℓ} → Option A → Bool
is_some none = false
is_some (some a) = true

abbrev and_return {ℓ} : {S A : Type ℓ} → Result (Unit {0}) × S → A → Result A × S
and_return (ok _, s) a = (ok a, s)
and_return (err e, s) a = (err e, s)

-- The method that a client is registered with.
unfoldable pub authenticate_as :
    Env → Client → String → Dict String → Option String → Exec AuthorizationServer Client
authenticate_as env client secret params tls_thumbprint s =
    if str_eq client.token_endpoint_auth_method "none"
    then (if is_nonempty secret then (err (oauth invalid_client), s) else (ok client, s))
    else if str_eq client.token_endpoint_auth_method "tls_client_auth"
    then (if is_some tls_thumbprint then (ok client, s) else (err (oauth invalid_client), s))
    else if str_eq client.token_endpoint_auth_method "private_key_jwt"
    then and_return (verify_client_assertion env client params s) client
    else if secret_is client.client_secret secret
    then (ok client, s)
    else (err (oauth invalid_client), s)

-- The registered client that a request names.
unfoldable pub named_client : String → AuthorizationServer → Result Client
named_client client_id s = do
  refuse_if (not (is_nonempty client_id)) invalid_client
  or_raise (get s.store.clients client_id) invalid_client

-- `authenticate_client`
unfoldable pub authenticate_client :
    Env → Dict String → Option (String × String) → Option String → Exec AuthorizationServer Client
authenticate_client env params basic_auth tls_thumbprint s =
    let (client_id, secret) = credentials params basic_auth in
    elim (named_client client_id s) [
      | err e ↦ (err e, s)
      | ok client ↦ authenticate_as env client secret params tls_thumbprint s
    ]
