-- ===== src/Oauth/Server/Grants/DeadOthers.antt =====
-- The grants that rotate nothing leave a dead family of refresh tokens dead too.
use auth_lab.Prelude.{
  String, ◌≡◌, ◌⊎◌, refl, true, false, Option, inl, inr, ◌&&◌, arith, str_eq, if◌then◌else◌,
  Bool-cases, Option-cases, List,
}
use auth_lab.Dict.{Dict, get, remove}
use auth_lab.Oauth.Env.{Env}
use auth_lab.Oauth.Errors.{Exception, Result, ok, err}
use auth_lab.Oauth.Models.{
  Client, AuthorizationCode, DeviceCode, Store, log, revoke_access_for_family_subject,
}
use auth_lab.Oauth.Server.{AuthorizationServer, with_store}
use auth_lab.Oauth.Server.Authorize.{given}
use auth_lab.Oauth.Server.Mint.{issue_token_set}
use auth_lab.Oauth.Server.Grants.{
  check_code, machine_scope, use_code, replay_code, redeem, poll, grant_authorization_code,
  grant_client_credentials, grant_device_code, code_grant, machine_grant, device_grant,
}
use auth_lab.Oauth.Server.Grants.Code.{grant_authorization_code-redeem}
use auth_lab.Oauth.Server.Grants.Family.{IsDead, NeverDrawn, map-IsDead, mint-IsDead}

replay-keeps :
    (family : String) (code : AuthorizationCode) (st : Store)
    → IsDead family st.refresh_tokens
    → IsDead family (replay_code code st).refresh_tokens
unfolding replay_code log revoke_access_for_family_subject
replay-keeps family code st =
    map-IsDead family st.refresh_tokens
      (λ t.
        if str_eq t.client_id code.client_id && str_eq t.subject code.subject
        then record t { revoked = true }
        else t)
      ((λ t. ground arith), (λ t h. ground arith))

-- The states that a code grant can leave.
module _ (env : Env) (c : Client) (params : Dict String) (jkt x5t : Option String) (key : String)
    (code : AuthorizationCode) (s : AuthorizationServer) where
  redeem-used :
      code.used ≡ true
      → (redeem env c params jkt x5t key code s).1 ≡ with_store (replay_code code) s
  unfolding redeem
  redeem-used h = simp h

  redeem-err :
      {e : Exception}
      → code.used ≡ false
      → check_code env c params jkt s.now code ≡ err e
      → (redeem env c params jkt x5t key code s).1 ≡ s
  unfolding redeem
  redeem-err h k = simp (h, k)

  redeem-good :
      code.used ≡ false
      → check_code env c params jkt s.now code ≡ ok tt
      → (redeem env c params jkt x5t key code s).1
        ≡ (issue_token_set env (code_grant c code jkt x5t s) (with_store (use_code key code c) s)).1
  unfolding redeem
  redeem-good h k = simp (h, k)

  redeem-keeps :
      (family : String)
      → NeverDrawn env s.draws 16 family
      → IsDead family s.store.refresh_tokens
      → IsDead family (redeem env c params jkt x5t key code s).1.store.refresh_tokens
  unfolding use_code log
  redeem-keeps family fresh dead = elim (Bool-cases code.used) [
    | inl used ↦ rw (redeem-used used) (replay-keeps family code s.store dead)
    | inr unused ↦ go unused (check_code env c params jkt s.now code) refl
  ]
    where
      go :
          code.used ≡ false
          → (r : Result (Unit {0})) → check_code env c params jkt s.now code ≡ r
          → IsDead family (redeem env c params jkt x5t key code s).1.store.refresh_tokens
      go unused (err e) h = rw (redeem-err unused h) dead
      go unused (ok _) h = rw (redeem-good unused h) (
          mint-IsDead env (code_grant c code jkt x5t s) (with_store (use_code key code c) s) family
            fresh (λ e. cc) dead)

pub grant_authorization_code-keeps :
    (env : Env) (c : Client) (params : Dict String) (jkt x5t : Option String)
    (s : AuthorizationServer) (family : String)
    → NeverDrawn env s.draws 16 family
    → IsDead family s.store.refresh_tokens
    → IsDead family (grant_authorization_code env c params jkt x5t s).1.store.refresh_tokens
unfolding grant_authorization_code
grant_authorization_code-keeps env c params jkt x5t s family fresh dead =
    elim (Option-cases (given params "code")) [
      | inl missing ↦ rw (missing, grant_authorization_code) dead
      | inr (key, named) ↦ elim (Option-cases (get s.store.codes key)) [
        | inl unknown ↦ rw (named, unknown, grant_authorization_code) dead
        | inr (code, found) ↦
            rw (grant_authorization_code-redeem env c params jkt x5t s key code named found)
              (redeem-keeps env c params jkt x5t key code s family fresh dead)
      ]
    ]

pub grant_client_credentials-keeps :
    (env : Env) (c : Client) (params : Dict String) (jkt x5t : Option String)
    (s : AuthorizationServer) (family : String)
    → NeverDrawn env s.draws 16 family
    → IsDead family s.store.refresh_tokens
    → IsDead family (grant_client_credentials env c params jkt x5t s).1.store.refresh_tokens
unfolding grant_client_credentials
grant_client_credentials-keeps env c params jkt x5t s family fresh dead =
    go (machine_scope c params) refl
  where
    go :
        (r : Result (List String))
        → machine_scope c params ≡ r
        → IsDead family (grant_client_credentials env c params jkt x5t s).1.store.refresh_tokens
    go (err e) h = rw (h, grant_client_credentials) dead
    go (ok scope) h =
        rw (h, grant_client_credentials)
          (mint-IsDead env (machine_grant c scope jkt x5t s) s family fresh (λ e. cc) dead)

-- A poll mints after the code is taken out, or leaves the refresh tokens as they were.
poll-states :
    (env : Env) (c : Client) (jkt x5t : Option String) (value : String) (device : DeviceCode)
    (s : AuthorizationServer)
    → ((poll env c jkt x5t value device s).1
        ≡ (issue_token_set env
            (device_grant c device jkt x5t s)
            (with_store (λ st. record st { device_codes = remove st.device_codes value }) s)).1)
      ⊎ ((poll env c jkt x5t value device s).1.store.refresh_tokens ≡ s.store.refresh_tokens)
unfolding poll
poll-states env c jkt x5t value device s = ground arith

poll-keeps :
    (env : Env) (c : Client) (jkt x5t : Option String) (value : String) (device : DeviceCode)
    (s : AuthorizationServer) (family : String)
    → NeverDrawn env s.draws 16 family
    → IsDead family s.store.refresh_tokens
    → IsDead family (poll env c jkt x5t value device s).1.store.refresh_tokens
poll-keeps env c jkt x5t value device s family fresh dead =
    elim (poll-states env c jkt x5t value device s) [
      | inl minted ↦ rw minted (
          mint-IsDead env (device_grant c device jkt x5t s)
            (with_store (λ st. record st { device_codes = remove st.device_codes value }) s) family
            fresh (λ e. cc) dead)
      | inr same ↦ rw same dead
    ]

pub grant_device_code-keeps :
    (env : Env) (c : Client) (params : Dict String) (jkt x5t : Option String)
    (s : AuthorizationServer) (family : String)
    → NeverDrawn env s.draws 16 family
    → IsDead family s.store.refresh_tokens
    → IsDead family (grant_device_code env c params jkt x5t s).1.store.refresh_tokens
unfolding grant_device_code
grant_device_code-keeps env c params jkt x5t s family fresh dead =
    elim (Option-cases (given params "device_code")) [
      | inl missing ↦ rw (missing, grant_device_code) dead
      | inr (value, named) ↦ elim (Option-cases (get s.store.device_codes value)) [
        | inl unknown ↦ rw (named, unknown, grant_device_code) dead
        | inr (device, found) ↦ elim (Bool-cases (str_eq device.client_id c.client_id)) [
          | inl own ↦
              rw (named, found, own, grant_device_code)
                (poll-keeps env c jkt x5t value device s family fresh dead)
          | inr other ↦ rw (named, found, other, grant_device_code) dead
        ]
      ]
    ]
