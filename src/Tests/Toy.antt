-- ===== src/Tests/Toy.antt =====
-- A small world: one client, one user, one code, one proof, and a random source that repeats itself.
pub mod World
use auth_lab.Prelude.{String, Bool, true, false, Option, none, some, [], ◌∷◌, str_eq, if◌then◌else◌}
use auth_lab.Prelude.Int.{pos}
use auth_lab.Json.{Json, int, str, arr, obj, nil, cons, end, field}
use auth_lab.Dict.{Dict}
use auth_lab.Oauth.Env.{Env}
use auth_lab.Oauth.Models.{
  Client, User, AuthorizationCode, AccessToken, RefreshToken, DeviceCode, Store,
}
use auth_lab.Oauth.Dpop.{DPoPVerifier}
use auth_lab.Oauth.Server.{AuthorizationServer}
use auth_lab.Oauth.Server.Authorize.{Validated}
use auth_lab.Oauth.Server.Token.{TokenRequest}
use auth_lab.Oauth.Server.Mint.{TokenSet, Grant}
unfoldable pub use World.*

-- The server, with the code and the refresh token used or not.
abbrev pub toy_server : Bool → AuthorizationServer
toy_server used = record {
  issuer = "https://as.example";
  store = toy_store used;
  now = 1000;
  access_token_lifetime = 600;
  refresh_token_lifetime = 4000;
  code_lifetime = 60;
  device_code_lifetime = 600;
  id_token_lifetime = 600;
  jwt_access_tokens = false;
  signing_kid = "k1";
  dpop = toy_verifier;
  supported_scopes = "read" ∷ "write" ∷ "openid" ∷ [];
  known_resources = "https://api.example" ∷ [];
  supported_authorization_detail_types = [];
  draws = 0;
}

abbrev pub the_verifier : String
the_verifier = "0123456789012345678901234567890123456789012345"

abbrev pub code_params : Dict String
code_params =
    ("code", "the-code")
    ∷ ("redirect_uri", "https://app.example/cb")
    ∷ ("code_verifier", the_verifier)
    ∷ []

abbrev pub refresh_params : Dict String
refresh_params = ("refresh_token", "the-refresh") ∷ ("scope", "read") ∷ []

abbrev pub authorize_params : Dict String
authorize_params =
    ("client_id", "app")
    ∷ ("redirect_uri", "https://app.example/cb")
    ∷ ("response_type", "code")
    ∷ ("scope", "read")
    ∷ ("state", "xyz")
    ∷ ("code_challenge", "AQID")
    ∷ ("code_challenge_method", "S256")
    ∷ []

abbrev pub toy_tokens : TokenSet
toy_tokens = record {
  access_token = "";
  token_type = "Bearer";
  expires_in = 600;
  scope = "read";
  authorization_details = [];
  refresh_token = some "";
  id_token = none;
}

-- What the request above is read as.
abbrev pub accepted : Validated
accepted = record {
  client = app;
  redirect_uri = "https://app.example/cb";
  scope = "read" ∷ [];
  state = "xyz";
  nonce = none;
  code_challenge = some "AQID";
  code_challenge_method = "S256";
  resource = [];
  dpop_jkt = none;
  authorization_details = [];
}

-- A client that signs assertions.
abbrev pub signing_app : Client
signing_app = record app {
  token_endpoint_auth_method = "private_key_jwt";
  jwks = some (obj (field "keys" (arr nil) end));
}

abbrev pub assertion_params : Dict String
assertion_params =
    ("client_assertion_type", "urn:ietf:params:oauth:client-assertion-type:jwt-bearer")
    ∷ ("client_assertion", "assertion")
    ∷ []

-- A device, approved or waiting, and the server that knows it.
abbrev pub device_record : Bool → DeviceCode
device_record approved = record {
  device_code = "the-device";
  user_code = "BCDF-GHJK";
  client_id = "app";
  scope = "read" ∷ [];
  expires_at = 1600;
  interval = 5;
  approved = approved;
  denied = false;
  subject = some "u1";
  last_polled_at = 0;
  amr = [];
}

abbrev pub device_server : Bool → AuthorizationServer
device_server approved = record (toy_server false) {
  store = record (toy_store false) { device_codes = ("the-device", device_record approved) ∷ [] };
}

abbrev pub device_params : Dict String
device_params = ("device_code", "the-device") ∷ []

abbrev pub toy_grant : Grant
toy_grant = record {
  client = app;
  subject = some "u1";
  scope = "read" ∷ [];
  nonce = none;
  amr = [];
  auth_time = 0;
  audience = [];
  cnf_jkt = none;
  cnf_x5t = none;
  include_refresh = true;
  family_id = none;
  issue_id_token = true;
  authorization_details = [];
}

-- The client that must prove a key, the server that knows it, and its request.
abbrev pub strict_app : Client
strict_app = record app { require_dpop = true }

abbrev pub strict_server : AuthorizationServer
strict_server = record (toy_server false) {
  store = record (toy_store false) { clients = ("app", strict_app) ∷ [] };
}

abbrev pub strict_request : TokenRequest
strict_request = record {
  params =
      ("grant_type", "refresh_token")
      ∷ ("client_id", "app")
      ∷ ("refresh_token", "the-refresh")
      ∷ ("scope", "read")
      ∷ [];
  basic_auth = none;
  dpop_proof = some "h.p.s";
  token_endpoint_url = none;
  tls_client_cert_thumbprint = none;
}

abbrev pub strict_tokens : TokenSet
strict_tokens = record toy_tokens { token_type = "DPoP" }

-- The same request without a proof: the refresh token it sends was used before.
abbrev pub reused_request : TokenRequest
reused_request = record strict_request { dpop_proof = none }
