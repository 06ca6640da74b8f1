-- ===== src/Oauth/Server/Grants/Replay.antt =====
-- The second presentation of a code.
use mathlib.Core.Option
use auth_lab.Prelude.{
  String, ◌≡◌, sym, ◌∙◌, refl, true, Option, none, some, ◌&&◌, arith, eq_refl, str_eq,
  if◌then◌else◌,
}
use auth_lab.Dict.{Dict, get}
use auth_lab.Dict.Laws.{get-map_values}
use auth_lab.Oauth.Env.{Env}
use auth_lab.Oauth.Errors.{err, oauth, invalid_grant}
use auth_lab.Oauth.Models.{
  Client, AuthorizationCode, AccessToken, RefreshToken, Store, log, of_grant,
  revoke_access_for_family_subject,
}
use auth_lab.Oauth.Server.{AuthorizationServer}
use auth_lab.Oauth.Server.Authorize.{given}
use auth_lab.Oauth.Server.Grants.{replay_code, redeem, grant_authorization_code}
use auth_lab.Oauth.Server.Grants.Code.{grant_authorization_code-redeem}

-- What the two loops do to one token.
abbrev drop_access : AuthorizationCode → AccessToken → AccessToken
drop_access code t =
    if of_grant code.client_id (some code.subject) t then record t { revoked = true } else t

abbrev drop_refresh : AuthorizationCode → RefreshToken → RefreshToken
drop_refresh code t =
    if str_eq t.client_id code.client_id && str_eq t.subject code.subject
    then record t { revoked = true }
    else t

-- Every access token and refresh token of the client and the subject is revoked.
pub record AllRevoked (client_id subject : String) (st : Store) : Type 0 where
  pub access :
      (k : String) (t : AccessToken)
      → get st.access_tokens k ≡ some t
      → t.client_id ≡ client_id
      → t.subject ≡ some subject
      → t.revoked ≡ true
  pub refresh :
      (k : String) (t : RefreshToken)
      → get st.refresh_tokens k ≡ some t
      → t.client_id ≡ client_id
      → t.subject ≡ subject
      → t.revoked ≡ true

dropped_access :
    (code : AuthorizationCode) (o : Option AccessToken) (t : AccessToken)
    → Option.map (drop_access code) o ≡ some t
    → t.client_id ≡ code.client_id
    → t.subject ≡ some code.subject
    → t.revoked ≡ true
dropped_access code none t h c s = cc
dropped_access code (some a) t h c s = ground (arith, eq_refl code.client_id, eq_refl code.subject)

dropped_refresh :
    (code : AuthorizationCode) (o : Option RefreshToken) (t : RefreshToken)
    → Option.map (drop_refresh code) o ≡ some t
    → t.client_id ≡ code.client_id
    → t.subject ≡ code.subject
    → t.revoked ≡ true
dropped_refresh code none t h c s = cc
dropped_refresh code (some a) t h c s = ground (arith, eq_refl code.client_id, eq_refl code.subject)

replay_code-AllRevoked :
    (code : AuthorizationCode) (st : Store)
    → AllRevoked code.client_id code.subject (replay_code code st)
unfolding replay_code revoke_access_for_family_subject log
replay_code-AllRevoked code st = record {
  access = λ k t h.
      dropped_access code (get st.access_tokens k) t
        (sym (get-map_values (drop_access code) st.access_tokens k) ∙ h);
  refresh = λ k t h.
      dropped_refresh code (get st.refresh_tokens k) t
        (sym (get-map_values (drop_refresh code) st.refresh_tokens k) ∙ h);
}

-- A code grant for a code that was used is refused as an invalid grant, and every access token and
-- every refresh token that the code's client holds for the code's subject is revoked.
pub grant_authorization_code-replay :
    (env : Env) (client : Client) (params : Dict String) (cnf_jkt cnf_x5t : Option String)
    (s : AuthorizationServer) (value : String) (code : AuthorizationCode)
    → given params "code" ≡ some value
    → get s.store.codes value ≡ some code
    → code.used ≡ true
    → ((grant_authorization_code env client params cnf_jkt cnf_x5t s).0 ≡ err (oauth invalid_grant))
      × AllRevoked code.client_id code.subject
          (grant_authorization_code env client params cnf_jkt cnf_x5t s).1.store
unfolding redeem replay_code
grant_authorization_code-replay env client params cnf_jkt cnf_x5t s value code e f used =
    rw
      (
        grant_authorization_code-redeem env client params cnf_jkt cnf_x5t s value code e f,
        used,
        redeem,
      )
      (refl, replay_code-AllRevoked code s.store)
