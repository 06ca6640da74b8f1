-- ===== src/Oauth/Server/Mint.antt =====
-- `_issue_token_set`, `issue_id_token` and `JWT.issue` of authlab/jose/jwt.py.
pub mod Claims
pub mod Bearer
use auth_lab.Prelude.{
  ℕ, zero, suc, ◌+◌, ◌/◌, String, Bool, true, false, Option, none, some, List, [], ◌∷◌, ◌&&◌, ◌==◌,
  length, is_empty, contains, if◌then◌else◌,
}
use auth_lab.Prelude.Int.{pos}
use auth_lab.Prelude.Text.{is_nonempty, truthy, join}
use auth_lab.Json.{
  Json, str, int, bool, arr, obj, Fields, end, field, items, texts, with_member, merge,
}
use auth_lab.Dict.{get, set}
use Prim.Native.String.{◌++◌}
use auth_lab.Oauth.Env.{Env, b64u_encode}
use auth_lab.Oauth.Models.{Client, User, AccessToken, RefreshToken, Store}
use auth_lab.Oauth.Server.{AuthorizationServer, with_store, draw_token}
use auth_lab.Oauth.Server.Authenticate.{is_some}
unfoldable pub use Claims.*

-- The value of a new access token.
unfoldable pub access_value : Env → Grant → AuthorizationServer → String × AuthorizationServer
access_value env g s =
    if s.jwt_access_tokens
    then jwt_issue env (subject_or_client g) (arr (texts (audience_or g.audience s.issuer)))
        s.access_token_lifetime "at+jwt" (access_claims g) s
    else draw_token env 32 s

abbrev pub token_type_of : Option String → String
token_type_of cnf_jkt = if truthy cnf_jkt then "DPoP" else "Bearer"

-- The record of an access token.
unfoldable pub new_access : Grant → String → String → AuthorizationServer → AccessToken
new_access g value jti s = record {
  token = value;
  client_id = g.client.client_id;
  subject = g.subject;
  scope = g.scope;
  expires_at = s.now + s.access_token_lifetime;
  issued_at = s.now;
  token_type = token_type_of g.cnf_jkt;
  audience = g.audience;
  revoked = false;
  cnf_jkt = g.cnf_jkt;
  cnf_x5t = g.cnf_x5t;
  jti = jti;
  authorization_details = g.authorization_details;
}

unfoldable pub mint_access : Env → Grant → AuthorizationServer → String × AuthorizationServer
mint_access env g s =
    let (value, t) = access_value env g s in
    let (jti, u) = draw_token env 16 t in
    (
      value,
      with_store
          (λ st. record st {
            access_tokens = set st.access_tokens value (new_access g value jti s);
          })
          u,
    )

-- The record of a refresh token.
unfoldable pub new_refresh : Grant → String → String → String → AuthorizationServer → RefreshToken
new_refresh g value subject family_id s = record {
  token = value;
  client_id = g.client.client_id;
  subject = subject;
  scope = g.scope;
  expires_at = s.now + s.refresh_token_lifetime;
  family_id = family_id;
  used = false;
  revoked = false;
  rotated_to = none;
  cnf_jkt = g.cnf_jkt;
  cnf_x5t = g.cnf_x5t;
  authorization_details = g.authorization_details;
}

-- `family_id or random_token(16)`
abbrev family_of : Env → Option String → AuthorizationServer → String × AuthorizationServer
family_of env none s = draw_token env 16 s
family_of env (some f) s = if is_nonempty f then (f, s) else draw_token env 16 s

unfoldable pub mint_refresh :
    Env → Grant → String → AuthorizationServer → String × AuthorizationServer
mint_refresh env g subject s =
    let (value, t) = draw_token env 32 s in
    let (family, u) = family_of env g.family_id t in
    (
      value,
      with_store
          (λ st. record st {
            refresh_tokens = set st.refresh_tokens value (new_refresh g value subject family s);
          })
          u,
    )

-- `if include_refresh and subject is not None`
unfoldable pub maybe_refresh :
    Env → Grant → AuthorizationServer → Option String × AuthorizationServer
maybe_refresh env g s = elim g.subject [
  | none ↦ (none, s)
  | some subject ↦
      if g.include_refresh
      then (let (value, t) = mint_refresh env g subject s in (some value, t))
      else (none, s)
]

abbrev take {ℓ} : {A : Type ℓ} → ℕ → List A → List A
take zero xs = []
take (suc n) [] = []
take (suc n) (x ∷ xs) = x ∷ take n xs

abbrev user_claims : Option User → Fields → Fields
user_claims none o = o
user_claims (some u) o =
    let named = with_member o "preferred_username" (str u.username) in
    let mailed =
      if is_nonempty u.email
      then with_member (with_member named "email" (str u.email)) "email_verified"
          (bool u.email_verified)
      else named in
    if is_nonempty u.name then with_member mailed "name" (str u.name) else mailed

-- The claims of an ID token beside the registered ones.
unfoldable pub id_claims : Env → Grant → String → String → AuthorizationServer → Fields
id_claims env g subject access_token s =
    let time =
      field "auth_time" (int (pos (if g.auth_time == 0 then s.now else g.auth_time))) end in
    let nonce = with_text "nonce" g.nonce time in
    let amr = if is_empty g.amr then nonce else with_member nonce "amr" (arr (texts g.amr)) in
    let digest = env.sha256 access_token in
    let bound =
      if is_nonempty access_token
      then with_member amr "at_hash" (str (b64u_encode (take (length digest / 2) digest)))
      else amr in
    user_claims (get s.store.users subject) bound

-- `issue_id_token`: its audience is the client
unfoldable pub issue_id_token :
    Env → Grant → String → String → AuthorizationServer → String × AuthorizationServer
issue_id_token env g subject access_token s =
    jwt_issue env subject (str g.client.client_id) s.id_token_lifetime "JWT"
      (id_claims env g subject access_token s) s

unfoldable pub maybe_id_token :
    Env → Grant → String → AuthorizationServer → Option String × AuthorizationServer
maybe_id_token env g access_token s = elim g.subject [
  | none ↦ (none, s)
  | some subject ↦
      if g.issue_id_token && contains g.scope "openid"
      then (let (value, t) = issue_id_token env g subject access_token s in (some value, t))
      else (none, s)
]

-- `_issue_token_set`
unfoldable pub issue_token_set : Env → Grant → AuthorizationServer → TokenSet × AuthorizationServer
issue_token_set env g s =
    let (access, t) = mint_access env g s in
    let (refresh, u) = maybe_refresh env g t in
    let (id_token, w) = maybe_id_token env g access u in
    (
      record {
        access_token = access;
        token_type = token_type_of g.cnf_jkt;
        expires_in = s.access_token_lifetime;
        scope = join g.scope;
        authorization_details = g.authorization_details;
        refresh_token = refresh;
        id_token = id_token;
      },
      w,
    )
