-- ===== src/Tests/Toy/World.antt =====
-- The toy environment, and the records of the store.
use auth_lab.Prelude.{String, Bool, true, false, Option, none, some, [], ◌∷◌, str_eq, if◌then◌else◌}
use auth_lab.Prelude.Int.{pos}
use auth_lab.Json.{Json, int, str, arr, obj, nil, cons, end, field}
use auth_lab.Oauth.Env.{Env}
use auth_lab.Oauth.Models.{Client, User, AuthorizationCode, AccessToken, RefreshToken, Store}
use auth_lab.Oauth.Dpop.{DPoPVerifier}

abbrev pub proof_header : Json
proof_header = obj (
    field "typ" (str "dpop+jwt") (
      field "alg" (str "ES256") (
        field "jwk"
          (obj (
            field "kty" (str "EC")
              (field "crv" (str "P-256") (field "x" (str "x") (field "y" (str "y") end)))))
          end)))

abbrev pub proof_payload : Json
proof_payload = obj (
    field "htm" (str "POST") (
      field "htu" (str "https://as.example/token")
        (field "iat" (int (pos 1000)) (field "jti" (str "proof-1") end))))

abbrev pub segment_json : String → Option Json
segment_json s = if str_eq s "h" then some proof_header else some proof_payload

-- The claims of a client assertion, and a list of authorization details.
abbrev pub assertion_claims : Json
assertion_claims = obj (
    field "iss" (str "app") (
      field "sub" (str "app") (
        field "aud" (str "https://as.example") (
          field "iat" (int (pos 1000))
            (field "exp" (int (pos 1100)) (field "jti" (str "assertion-1") end))))))

abbrev pub payment : Json
payment = obj (field "type" (str "payment") (field "actions" (arr (cons (str "pay") nil)) end))

abbrev pub text_json : String → Option Json
text_json s =
    if str_eq s "claims"
    then some assertion_claims
    else if str_eq s "details"
    then some (arr (cons payment nil))
    else none

abbrev pub toy : Env
toy = record {
  token_bytes = λ i n. [];
  choose_letters = λ i. "BCDFGHJK";
  sha256 = λ s. 1 ∷ 2 ∷ 3 ∷ [];
  json_loads = text_json;
  b64u_decode = λ s. some [];
  b64u_json = segment_json;
  jws_sign = λ claims kid typ. "signed";
  jws_verify = λ token keys. some "claims";
  py_str = λ j. "";
  thumbprint = λ jwk. "thumb";
  is_on_curve = λ x y. some true;
  ecdsa_verify = λ x y text signature. true;
}

abbrev pub toy_verifier : DPoPVerifier
toy_verifier = record { max_age = 300; require_nonce = false; seen = []; current_nonce = none }

-- A public client.
abbrev pub app : Client
app = record {
  client_id = "app";
  client_secret = none;
  redirect_uris = "https://app.example/cb" ∷ [];
  grant_types = "authorization_code" ∷ "refresh_token" ∷ [];
  response_types = "code" ∷ [];
  scopes = [];
  token_endpoint_auth_method = "none";
  require_pkce = true;
  tls_client_certificate_bound_access_tokens = false;
  require_dpop = false;
  jwks = none;
  rotate_refresh_tokens = true;
}

abbrev pub alice : User
alice = record {
  subject = "u1";
  username = "alice";
  email = "alice@example";
  name = "Alice";
  email_verified = true;
}

-- The S256 challenge of the toy hash.
abbrev pub code_record : Bool → AuthorizationCode
code_record used = record {
  code = "the-code";
  client_id = "app";
  subject = "u1";
  redirect_uri = "https://app.example/cb";
  scope = "read" ∷ [];
  expires_at = 1060;
  code_challenge = some "AQID";
  code_challenge_method = "S256";
  nonce = none;
  amr = "pwd" ∷ [];
  auth_time = 1000;
  used = used;
  resource = [];
  dpop_jkt = none;
  authorization_details = [];
}

abbrev pub refresh_record : Bool → RefreshToken
refresh_record used = record {
  token = "the-refresh";
  client_id = "app";
  subject = "u1";
  scope = "read" ∷ "write" ∷ [];
  expires_at = 5000;
  family_id = "family-1";
  used = used;
  revoked = false;
  rotated_to = none;
  cnf_jkt = none;
  cnf_x5t = none;
  authorization_details = [];
}

abbrev pub access_record : AccessToken
access_record = record {
  token = "the-access";
  client_id = "app";
  subject = some "u1";
  scope = "read" ∷ [];
  expires_at = 1600;
  issued_at = 1000;
  token_type = "Bearer";
  audience = [];
  revoked = false;
  cnf_jkt = none;
  cnf_x5t = none;
  jti = "jti-1";
  authorization_details = [];
}

abbrev pub toy_store : Bool → Store
toy_store used = record {
  clients = ("app", app) ∷ [];
  users = ("u1", alice) ∷ [];
  codes = ("the-code", code_record used) ∷ [];
  access_tokens = ("the-access", access_record) ∷ [];
  refresh_tokens = ("the-refresh", refresh_record used) ∷ [];
  device_codes = [];
  seen_jtis = [];
  events = [];
}
