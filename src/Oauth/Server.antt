-- ===== src/Oauth/Server.antt =====
-- authlab/oauth/authorization_server.py: the server's state. Its methods and what is proved of them
-- stand in the modules below. The clock is the `FrozenClock` of authlab/util/clock.py, whose
-- reading is the field `now`; `draws` counts the random values that were drawn.
pub mod Authorize
pub mod Authenticate
pub mod Mint
pub mod Grants
pub mod Token
pub mod Device
pub mod Inspect
pub mod Trace
use auth_lab.Prelude.{ℕ, ◌+◌, String, Bool, List}
use auth_lab.Oauth.Models.{Store}
use auth_lab.Oauth.Dpop.{DPoPVerifier}
use auth_lab.Oauth.Env.{Env, random_token}

pub record AuthorizationServer : Type 0 where
  pub issuer : String
  pub store : Store
  pub now : ℕ
  pub access_token_lifetime : ℕ
  pub refresh_token_lifetime : ℕ
  pub code_lifetime : ℕ
  pub device_code_lifetime : ℕ
  pub id_token_lifetime : ℕ
  pub jwt_access_tokens : Bool
  pub signing_kid : String
  pub dpop : DPoPVerifier
  pub supported_scopes : List String
  pub known_resources : List String
  pub supported_authorization_detail_types : List String
  pub draws : ℕ

abbrev pub with_store : (Store → Store) → AuthorizationServer → AuthorizationServer
with_store f s = record s { store = f s.store }

-- `FrozenClock.advance`
unfoldable pub advance : ℕ → AuthorizationServer → AuthorizationServer
advance seconds s = record s { now = s.now + seconds }

-- `random_token(n_bytes)`: the next draw
unfoldable pub draw_token : Env → ℕ → AuthorizationServer → String × AuthorizationServer
draw_token env n_bytes s = (random_token env s.draws n_bytes, record s { draws = s.draws + 1 })
