-- ===== src/Oauth/Server/Grants/DeadFamilies.antt =====
-- Every grant leaves a dead family of refresh tokens dead.
use auth_lab.Prelude.{
  String, ◌≡◌, ◌≢◌, refl, true, false, Option, none, some, inl, inr, ◌||◌, arith, str_eq,
  if◌then◌else◌, Bool-cases, Option-cases, List,
}
use auth_lab.Dict.{Dict, get}
use auth_lab.Oauth.Env.{Env}
use auth_lab.Oauth.Errors.{Exception, Result, ok, err}
use auth_lab.Oauth.Models.{
  Client, RefreshToken, Store, log, in_family, revoke_refresh_family,
  revoke_access_for_family_subject,
}
use auth_lab.Oauth.Server.{AuthorizationServer, with_store}
use auth_lab.Oauth.Server.Authorize.{given}
use auth_lab.Oauth.Server.Mint.{issue_token_set}
use auth_lab.Oauth.Server.Grants.{
  check_refresh, refresh, rotate, reuse, grant_refresh_token, refresh_grant, mark_used,
  mark_rotated,
}
use auth_lab.Oauth.Server.Grants.Refresh.{grant_refresh_token-refresh}
use auth_lab.Oauth.Server.Grants.Family.{IsDead, NeverDrawn, map-IsDead, modify-IsDead, mint-IsDead}

-- The two revocation loops, and the marks that a rotation sets, are mild.
pub revoke_family-IsDead :
    (family other : String) (st : Store)
    → IsDead family st.refresh_tokens
    → IsDead family (revoke_refresh_family other st).0.refresh_tokens
unfolding revoke_refresh_family
revoke_family-IsDead family other st =
    map-IsDead family st.refresh_tokens
      (λ t. if in_family other t then record t { revoked = true } else t)
      ((λ t. ground arith), (λ t h. ground arith))

reuse-keeps :
    (family : String) (token : RefreshToken) (st : Store)
    → IsDead family st.refresh_tokens
    → IsDead family (reuse token st).refresh_tokens
unfolding reuse log revoke_access_for_family_subject
reuse-keeps family token st = revoke_family-IsDead family token.family_id st

mark_rotated-keeps :
    (family value : String) (new : Option String) (st : Store)
    → IsDead family st.refresh_tokens
    → IsDead family (mark_rotated value new st).refresh_tokens
mark_rotated-keeps family value none st dead = dead
mark_rotated-keeps family value (some new) st dead = elim (Bool-cases (str_eq new value)) [
  | inl same ↦ rw same dead
  | inr other ↦ rw other (
      modify-IsDead family st.refresh_tokens value (λ t. record t { rotated_to = some new })
        ((λ t. refl), (λ t h. h)) dead)
]

rotate-keeps :
    (env : Env) (c : Client) (jkt x5t : Option String) (value : String) (token : RefreshToken)
    (scope : List String) (s : AuthorizationServer) (family : String)
    → NeverDrawn env s.draws 16 family
    → token.family_id ≢ family
    → IsDead family s.store.refresh_tokens
    → IsDead family (rotate env c jkt x5t value token scope s).1.store.refresh_tokens
unfolding rotate
rotate-keeps env c jkt x5t value token scope s family fresh other dead =
    let g = refresh_grant c token scope jkt x5t true (some token.family_id) s in
    let marked = with_store (mark_used value) s in
    mark_rotated-keeps family value (issue_token_set env g marked).0.refresh_token
      (issue_token_set env g marked).1.store
      (mint-IsDead env g marked family fresh (λ e. other (ground arith))
        (modify-IsDead family s.store.refresh_tokens value (λ t. record t { used = true })
          ((λ t. refl), (λ t h. h)) dead))

-- The states that a refresh grant can leave.
module _ (env : Env) (c : Client) (params : Dict String) (jkt x5t : Option String) (value : String)
    (token : RefreshToken) (s : AuthorizationServer) where
  refresh-spent :
      (token.used || token.revoked) ≡ true
      → (refresh env c params jkt x5t value token s).1 ≡ with_store (reuse token) s
  unfolding refresh
  refresh-spent h = rw h

  refresh-err :
      {e : Exception}
      → (token.used || token.revoked) ≡ false
      → check_refresh c params jkt x5t s.now token ≡ err e
      → (refresh env c params jkt x5t value token s).1 ≡ s
  unfolding refresh
  refresh-err h k = rw (h, k)

  refresh-rotates :
      {scope : List String}
      → (token.used || token.revoked) ≡ false
      → check_refresh c params jkt x5t s.now token ≡ ok scope
      → c.rotate_refresh_tokens ≡ true
      → (refresh env c params jkt x5t value token s).1
        ≡ (rotate env c jkt x5t value token scope s).1
  unfolding refresh
  refresh-rotates h k r = simp (h, k, r)

  refresh-static :
      {scope : List String}
      → (token.used || token.revoked) ≡ false
      → check_refresh c params jkt x5t s.now token ≡ ok scope
      → c.rotate_refresh_tokens ≡ false
      → (refresh env c params jkt x5t value token s).1
        ≡ (issue_token_set env (refresh_grant c token scope jkt x5t false none s) s).1
  unfolding refresh
  refresh-static h k r = simp (h, k, r)

  refresh-keeps :
      (family : String)
      → NeverDrawn env s.draws 16 family
      → get s.store.refresh_tokens value ≡ some token
      → IsDead family s.store.refresh_tokens
      → IsDead family (refresh env c params jkt x5t value token s).1.store.refresh_tokens
  refresh-keeps family fresh found dead = elim (Bool-cases (token.used || token.revoked)) [
    | inl spent ↦ rw (refresh-spent spent) (reuse-keeps family token s.store dead)
    | inr good ↦
        go good (λ e. ground (arith, dead value token found e))
          (check_refresh c params jkt x5t s.now token) refl
  ]
    where
      go :
          (token.used || token.revoked) ≡ false
          → token.family_id ≢ family
          → (r : Result (List String)) → check_refresh c params jkt x5t s.now token ≡ r
          → IsDead family (refresh env c params jkt x5t value token s).1.store.refresh_tokens
      go good other (err e) h = rw (refresh-err good h) dead
      go good other (ok scope) h = elim (Bool-cases c.rotate_refresh_tokens) [
        | inl rotates ↦
            rw (refresh-rotates good h rotates)
              (rotate-keeps env c jkt x5t value token scope s family fresh other dead)
        | inr static ↦ rw (refresh-static good h static) (
            mint-IsDead env (refresh_grant c token scope jkt x5t false none s) s family fresh
              (λ e. cc) dead)
      ]

pub grant_refresh_token-keeps :
    (env : Env) (c : Client) (params : Dict String) (jkt x5t : Option String)
    (s : AuthorizationServer) (family : String)
    → NeverDrawn env s.draws 16 family
    → IsDead family s.store.refresh_tokens
    → IsDead family (grant_refresh_token env c params jkt x5t s).1.store.refresh_tokens
unfolding grant_refresh_token
grant_refresh_token-keeps env c params jkt x5t s family fresh dead =
    elim (Option-cases (given params "refresh_token")) [
      | inl missing ↦ rw (missing, grant_refresh_token) dead
      | inr (value, named) ↦ elim (Option-cases (get s.store.refresh_tokens value)) [
        | inl unknown ↦ rw (named, unknown, grant_refresh_token) dead
        | inr (token, found) ↦
            rw (grant_refresh_token-refresh env c params jkt x5t s value token named found)
              (refresh-keeps env c params jkt x5t value token s family fresh found dead)
      ]
    ]
