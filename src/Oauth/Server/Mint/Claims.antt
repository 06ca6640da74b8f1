-- ===== src/Oauth/Server/Mint/Claims.antt =====
-- `JWT.issue` of authlab/jose/jwt.py, and the claims of an access token.
use auth_lab.Prelude.{ℕ, ◌+◌, String, Bool, Option, none, some, List, [], ◌∷◌, if◌then◌else◌}
use auth_lab.Prelude.Int.{pos}
use auth_lab.Prelude.Text.{is_nonempty, join}
use auth_lab.Json.{Json, str, int, arr, obj, Fields, end, field, items, with_member, merge}
use Prim.Native.String.{◌++◌}
use auth_lab.Oauth.Env.{Env}
use auth_lab.Oauth.Models.{Client}
use auth_lab.Oauth.Server.{AuthorizationServer, draw_token}

-- The claims of `JWT.issue`, without the optional `nbf`.
unfoldable pub jwt_claims : String → String → Json → ℕ → ℕ → String → Fields → Fields
jwt_claims issuer subject audience now lifetime jti extra =
    merge
      (field "iss" (str issuer) (
        field "sub" (str subject) (
          field "aud" audience (
            field "iat" (int (pos now))
              (field "exp" (int (pos (now + lifetime))) (field "jti" (str jti) end))))))
      extra

-- `JWT.issue`: one draw for the `jti`, then the signature
unfoldable pub jwt_issue :
    Env → String → Json → ℕ → String → Fields → AuthorizationServer → String × AuthorizationServer
unfolding jwt_claims
jwt_issue env subject audience lifetime typ extra s =
    let (jti, t) = draw_token env 16 s in
    (
      env.jws_sign (jwt_claims s.issuer subject audience s.now lifetime jti extra) s.signing_kid
          typ,
      t,
    )

-- The arguments of `_issue_token_set`.
pub record Grant : Type 0 where
  pub client : Client
  pub subject : Option String
  pub scope : List String
  pub nonce : Option String
  pub amr : List String
  pub auth_time : ℕ
  pub audience : List String
  pub cnf_jkt : Option String
  pub cnf_x5t : Option String
  pub include_refresh : Bool
  pub family_id : Option String
  pub issue_id_token : Bool
  pub authorization_details : List Json

-- The response of the token endpoint.
pub record TokenSet : Type 0 where
  pub access_token : String
  pub token_type : String
  pub expires_in : ℕ
  pub scope : String
  pub authorization_details : List Json
  pub refresh_token : Option String
  pub id_token : Option String

-- `{"jkt": …, "x5t#S256": …}`, of the values that are there
abbrev pub with_text : String → Option String → Fields → Fields
with_text k none o = o
with_text k (some v) o = if is_nonempty v then with_member o k (str v) else o

unfoldable pub cnf_members : Option String → Option String → Fields
cnf_members jkt x5t = with_text "x5t#S256" x5t (with_text "jkt" jkt end)

abbrev pub with_object : String → Fields → Fields → Fields
with_object k end o = o
with_object k (field j v p) o = with_member o k (obj (field j v p))

abbrev pub with_list : String → List Json → Fields → Fields
with_list k [] o = o
with_list k (x ∷ xs) o = with_member o k (arr (items (x ∷ xs)))

unfoldable pub access_claims : Grant → Fields
access_claims g = with_list "authorization_details" g.authorization_details (
    with_object "cnf" (cnf_members g.cnf_jkt g.cnf_x5t)
      (field "scope" (str (join g.scope)) (field "client_id" (str g.client.client_id) end)))

abbrev pub subject_or_client : Grant → String
subject_or_client g = elim g.subject [
  | none ↦ "client:" ++ g.client.client_id
  | some subject ↦ if is_nonempty subject then subject else "client:" ++ g.client.client_id
]

abbrev pub audience_or : List String → String → List String
audience_or [] issuer = issuer ∷ []
audience_or (a ∷ audience) issuer = a ∷ audience
