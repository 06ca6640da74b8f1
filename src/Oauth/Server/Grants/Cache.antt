-- ===== src/Oauth/Server/Grants/Cache.antt =====
-- What the grants leave alone: the cache of assertions.
use auth_lab.Prelude.{String, ◌≡◌, Option, arith}
use auth_lab.Dict.{Dict}
use auth_lab.Oauth.Env.{Env}
use auth_lab.Oauth.Models.{
  Client, RefreshToken, AuthorizationCode, log, revoke_refresh_family,
  revoke_access_for_family_subject,
}
use auth_lab.Oauth.Server.{AuthorizationServer}
use auth_lab.Oauth.Server.Mint.Bearer.{issue_token_set-SameRest}
use auth_lab.Oauth.Server.Grants.{
  grant_authorization_code, grant_refresh_token, grant_client_credentials, grant_device_code,
  redeem, refresh, rotate, reuse, use_code, replay_code, poll,
}

redeem-seen :
    (env : Env) (c : Client) (params : Dict String) (jkt x5t : Option String) (value : String)
    (code : AuthorizationCode) (s : AuthorizationServer)
    → (redeem env c params jkt x5t value code s).1.store.seen_jtis ≡ s.store.seen_jtis
unfolding redeem replay_code use_code log revoke_access_for_family_subject
redeem-seen env c params jkt x5t value code s = grind (arith, issue_token_set-SameRest)

pub grant_authorization_code-seen :
    (env : Env) (c : Client) (params : Dict String) (jkt x5t : Option String)
    (s : AuthorizationServer)
    → (grant_authorization_code env c params jkt x5t s).1.store.seen_jtis ≡ s.store.seen_jtis
unfolding grant_authorization_code
grant_authorization_code-seen env c params jkt x5t s = grind (arith, redeem-seen)

refresh-seen :
    (env : Env) (c : Client) (params : Dict String) (jkt x5t : Option String) (value : String)
    (token : RefreshToken) (s : AuthorizationServer)
    → (refresh env c params jkt x5t value token s).1.store.seen_jtis ≡ s.store.seen_jtis
unfolding refresh rotate reuse log revoke_refresh_family revoke_access_for_family_subject
refresh-seen env c params jkt x5t value token s = grind (arith, issue_token_set-SameRest)

pub grant_refresh_token-seen :
    (env : Env) (c : Client) (params : Dict String) (jkt x5t : Option String)
    (s : AuthorizationServer)
    → (grant_refresh_token env c params jkt x5t s).1.store.seen_jtis ≡ s.store.seen_jtis
unfolding grant_refresh_token
grant_refresh_token-seen env c params jkt x5t s = grind (arith, refresh-seen)

pub grant_client_credentials-seen :
    (env : Env) (c : Client) (params : Dict String) (jkt x5t : Option String)
    (s : AuthorizationServer)
    → (grant_client_credentials env c params jkt x5t s).1.store.seen_jtis ≡ s.store.seen_jtis
unfolding grant_client_credentials
grant_client_credentials-seen env c params jkt x5t s = grind (arith, issue_token_set-SameRest)

pub grant_device_code-seen :
    (env : Env) (c : Client) (params : Dict String) (jkt x5t : Option String)
    (s : AuthorizationServer)
    → (grant_device_code env c params jkt x5t s).1.store.seen_jtis ≡ s.store.seen_jtis
unfolding grant_device_code poll
grant_device_code-seen env c params jkt x5t s = grind (arith, issue_token_set-SameRest)
