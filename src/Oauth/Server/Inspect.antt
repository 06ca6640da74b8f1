-- ===== src/Oauth/Server/Inspect.antt =====
-- Introspection (RFC 7662) and revocation (RFC 7009): `introspect` and `revoke`.
pub mod Active
use auth_lab.Prelude.{ℕ, String, true, Option, none, some, List, ◌||◌, ltb, str_eq, if◌then◌else◌}
use auth_lab.Prelude.Text.{truthy, join}
use auth_lab.Json.{Json, Fields}
use auth_lab.Dict.{get, modify}
use auth_lab.Oauth.Models.{
  Client, User, AccessToken, RefreshToken, Store, access_revoked, family_revoked, log,
  revoke_refresh_family,
}
use auth_lab.Oauth.Server.{AuthorizationServer, with_store}
use auth_lab.Oauth.Server.Mint.{cnf_members}

-- The body for a token that is active.
pub record Report : Type 0 where
  pub scope : String
  pub client_id : String
  pub token_type : String
  pub exp : ℕ
  pub iat : ℕ
  pub iss : String
  pub aud : List String
  pub jti : String
  pub sub : Option String
  pub username : Option String
  pub authorization_details : List Json
  pub cnf : Fields

-- `{"active": false}` says nothing else.
pub data Introspection : Type 0 where
  inactive : Introspection
  active : Report → Introspection

abbrev nonempty : Option String → Option String
nonempty s = if truthy s then s else none

abbrev name_of : Option User → Option String
name_of none = none
name_of (some u) = some u.username

abbrev username_of : AuthorizationServer → Option String → Option String
username_of s none = none
username_of s (some subject) = name_of (get s.store.users subject)

unfoldable pub report : AccessToken → AuthorizationServer → Report
report t s = record {
  scope = join t.scope;
  client_id = t.client_id;
  token_type = t.token_type;
  exp = t.expires_at;
  iat = t.issued_at;
  iss = s.issuer;
  aud = t.audience;
  jti = t.jti;
  sub = nonempty t.subject;
  username = username_of s (nonempty t.subject);
  authorization_details = t.authorization_details;
  cnf = cnf_members t.cnf_jkt t.cnf_x5t;
}

-- `introspect`
unfoldable pub introspect : String → AuthorizationServer → Introspection
introspect value s = elim (get s.store.access_tokens value) [
  | none ↦ inactive
  | some t ↦ if t.revoked || ltb t.expires_at s.now then inactive else active (report t s)
]

abbrev revoke_access : String → AccessToken → Store → Store
revoke_access value t st =
    log (access_revoked t.subject) (record st {
      access_tokens = modify st.access_tokens value (λ a. record a { revoked = true });
    })

abbrev revoke_family : RefreshToken → Store → Store
revoke_family t st =
    let (st', count) = revoke_refresh_family t.family_id st in
    log (family_revoked t.family_id count) st'

-- The second half of `revoke`: the value is no access token of the client.
unfoldable pub revoke_refresh : String → Client → AuthorizationServer → AuthorizationServer
revoke_refresh value client s = elim (get s.store.refresh_tokens value) [
  | none ↦ s
  | some t ↦ if str_eq t.client_id client.client_id then with_store (revoke_family t) s else s
]

-- `revoke`
unfoldable pub revoke : String → Client → AuthorizationServer → AuthorizationServer
revoke value client s = elim (get s.store.access_tokens value) [
  | none ↦ revoke_refresh value client s
  | some t ↦
      if str_eq t.client_id client.client_id
      then with_store (revoke_access value t) s
      else revoke_refresh value client s
]
