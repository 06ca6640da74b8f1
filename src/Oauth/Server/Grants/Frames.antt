-- ===== src/Oauth/Server/Grants/Frames.antt =====
-- What the grants leave alone: only the code grant touches the codes, and it uses one up.
use auth_lab.Prelude.{
  ◌≤◌, String, ◌≡◌, refl, true, false, Option, none, some, inl, inr, arith, str_eq, Bool-cases,
  Option-cases, List,
}
use auth_lab.Dict.{Dict, get}
use auth_lab.Dict.Laws.{get-modify}
use auth_lab.Oauth.Env.{Env}
use auth_lab.Oauth.Errors.{Result, ok, err}
use auth_lab.Oauth.Models.{
  Client, AuthorizationCode, RefreshToken, DeviceCode, Store, log, revoke_refresh_family,
  revoke_access_for_family_subject,
}
use auth_lab.Oauth.Server.{AuthorizationServer, with_store}
use auth_lab.Oauth.Server.Authorize.{given}
use auth_lab.Oauth.Server.Mint.Bearer.{issue_token_set-SameRest}
use auth_lab.Oauth.Server.Grants.{
  check_code, check_refresh, use_code, replay_code, redeem, refresh, rotate, reuse, poll,
  grant_authorization_code, grant_refresh_token, grant_client_credentials, grant_device_code,
  code_grant, refresh_grant, mark_used,
}
use auth_lab.Oauth.Server.Grants.Code.{IsUsed, grant_authorization_code-redeem}

-- The codes are as they were, and no draw was taken back.
pub record SameCodes (s t : AuthorizationServer) : Type 0 where
  pub codes : t.store.codes ≡ s.store.codes
  pub draws : s.draws ≤ t.draws

refresh-SameCodes :
    (env : Env) (c : Client) (params : Dict String) (jkt x5t : Option String) (value : String)
    (token : RefreshToken) (s : AuthorizationServer)
    → SameCodes s (refresh env c params jkt x5t value token s).1
unfolding refresh rotate reuse log revoke_refresh_family revoke_access_for_family_subject
refresh-SameCodes env c params jkt x5t value token s =
    go (check_refresh c params jkt x5t s.now token) refl
  where
    go :
        (r : Result (List String))
        → check_refresh c params jkt x5t s.now token ≡ r
        → SameCodes s (refresh env c params jkt x5t value token s).1
    go (err e) h = ground arith
    go (ok scope) h = ground (
      arith,
      issue_token_set-SameRest env
          (refresh_grant c token scope jkt x5t true (some token.family_id) s)
          (with_store (mark_used value) s),
      issue_token_set-SameRest env (refresh_grant c token scope jkt x5t false none s) s,
    )

pub grant_refresh_token-SameCodes :
    (env : Env) (c : Client) (params : Dict String) (jkt x5t : Option String)
    (s : AuthorizationServer)
    → SameCodes s (grant_refresh_token env c params jkt x5t s).1
unfolding grant_refresh_token
grant_refresh_token-SameCodes env c params jkt x5t s =
    grind (arith, refresh-SameCodes env c params jkt x5t)

pub grant_client_credentials-SameCodes :
    (env : Env) (c : Client) (params : Dict String) (jkt x5t : Option String)
    (s : AuthorizationServer)
    → SameCodes s (grant_client_credentials env c params jkt x5t s).1
unfolding grant_client_credentials
grant_client_credentials-SameCodes env c params jkt x5t s = grind (arith, issue_token_set-SameRest)

poll-SameCodes :
    (env : Env) (c : Client) (jkt x5t : Option String) (value : String) (device : DeviceCode)
    (s : AuthorizationServer)
    → SameCodes s (poll env c jkt x5t value device s).1
unfolding poll
poll-SameCodes env c jkt x5t value device s = grind (arith, issue_token_set-SameRest)

pub grant_device_code-SameCodes :
    (env : Env) (c : Client) (params : Dict String) (jkt x5t : Option String)
    (s : AuthorizationServer)
    → SameCodes s (grant_device_code env c params jkt x5t s).1
unfolding grant_device_code
grant_device_code-SameCodes env c params jkt x5t s = grind (arith, poll-SameCodes env c jkt x5t)

-- Redeeming a code, or failing to, leaves every used code used.
use_code-IsUsed :
    (value key : String) (code : AuthorizationCode) (c : Client) (st : Store)
    → IsUsed (get st.codes value)
    → IsUsed (get (use_code key code c st).codes value)
unfolding use_code log
use_code-IsUsed value key code c st h = elim (Option-cases (get st.codes value)) [
  | inl missing ↦ absurd (rw missing at h)
  | inr (x, found) ↦
      rw (get-modify st.codes key (λ x. record x { used = true }) value)
        (elim (Bool-cases (str_eq key value)) [
          | inl same ↦ rw (same, found) refl
          | inr other ↦ rw (other) h
        ])
]

redeem-draws :
    (env : Env) (c : Client) (params : Dict String) (jkt x5t : Option String) (key : String)
    (code : AuthorizationCode) (s : AuthorizationServer)
    → s.draws ≤ (redeem env c params jkt x5t key code s).1.draws
unfolding redeem
redeem-draws env c params jkt x5t key code s = grind (
  arith,
  issue_token_set-SameRest env (code_grant c code jkt x5t s) (with_store (use_code key code c) s),
)

redeem-IsUsed :
    (env : Env) (c : Client) (params : Dict String) (jkt x5t : Option String) (key : String)
    (code : AuthorizationCode) (s : AuthorizationServer) (value : String)
    → IsUsed (get s.store.codes value)
    → IsUsed (get (redeem env c params jkt x5t key code s).1.store.codes value)
      × (s.draws ≤ (redeem env c params jkt x5t key code s).1.draws)
unfolding redeem replay_code log revoke_access_for_family_subject
redeem-IsUsed env c params jkt x5t key code s value h =
    go (check_code env c params jkt s.now code) refl
  where
    go :
        (r : Result (Unit {0}))
        → check_code env c params jkt s.now code ≡ r
        → IsUsed (get (redeem env c params jkt x5t key code s).1.store.codes value)
          × (s.draws ≤ (redeem env c params jkt x5t key code s).1.draws)
    go (err e) q = ground arith
    go (ok _) q = ground (
      arith,
      use_code-IsUsed value key code c s.store h,
      issue_token_set-SameRest env (code_grant c code jkt x5t s)
          (with_store (use_code key code c) s),
    )

pub grant_authorization_code-IsUsed :
    (env : Env) (c : Client) (params : Dict String) (jkt x5t : Option String)
    (s : AuthorizationServer) (value : String)
    → IsUsed (get s.store.codes value)
    → IsUsed (get (grant_authorization_code env c params jkt x5t s).1.store.codes value)
      × (s.draws ≤ (grant_authorization_code env c params jkt x5t s).1.draws)
unfolding grant_authorization_code
grant_authorization_code-IsUsed env c params jkt x5t s value h =
    elim (Option-cases (given params "code")) [
      | inl missing ↦ rw (missing, grant_authorization_code) (h, omega arith)
      | inr (key, named) ↦ elim (Option-cases (get s.store.codes key)) [
        | inl unknown ↦ rw (named, unknown, grant_authorization_code) (h, omega arith)
        | inr (code, found) ↦
            rw (grant_authorization_code-redeem env c params jkt x5t s key code named found)
              (redeem-IsUsed env c params jkt x5t key code s value h)
      ]
    ]

pub grant_authorization_code-draws :
    (env : Env) (c : Client) (params : Dict String) (jkt x5t : Option String)
    (s : AuthorizationServer)
    → s.draws ≤ (grant_authorization_code env c params jkt x5t s).1.draws
unfolding grant_authorization_code
grant_authorization_code-draws env c params jkt x5t s =
    grind (arith, redeem-draws env c params jkt x5t)
