-- ===== src/Oauth/Server/Grants/Refusals.antt =====
-- A grant that is refused issues nothing: what is live afterwards was live before.
use mathlib.Core.Option
use auth_lab.Prelude.{
  String, ◌≡◌, refl, sym, ap, ◌∙◌, subst, Bool, true, false, Option, some, List, inl, inr, arith,
  Option-cases, Bool-cases, str_eq, ◌&&◌, ◌||◌, if◌then◌else◌,
}
use auth_lab.Dict.{Dict, get, map_values}
use auth_lab.Dict.Laws.{get-map_values}
use auth_lab.Oauth.Env.{Env}
use auth_lab.Oauth.Errors.{Exception, Result, ok, err}
use auth_lab.Oauth.Models.{
  Client, AccessToken, RefreshToken, AuthorizationCode, log, revoke_refresh_family, in_family,
  revoke_access_for_family_subject, of_grant,
}
use auth_lab.Oauth.Server.{AuthorizationServer, with_store}
use auth_lab.Oauth.Server.Authorize.{given}
use auth_lab.Oauth.Server.Grants.{
  grant_authorization_code, grant_refresh_token, grant_client_credentials, grant_device_code,
  redeem, refresh, reuse, replay_code, poll, check_code, check_refresh,
}

-- Every token of the second dict that is not revoked is in the first one, as it is.
abbrev pub AddsNone : {V : Type 0} → (V → Bool) → Dict V → Dict V → Type 0
AddsNone {V} revoked old new =
    (k : String) (v : V) → get new k ≡ some v → revoked v ≡ false → get old k ≡ some v

pub record IssuesNone (s t : AuthorizationServer) : Type 0 where
  pub access : AddsNone (λ (a : AccessToken). a.revoked) s.store.access_tokens t.store.access_tokens
  pub refresh :
      AddsNone (λ (a : RefreshToken). a.revoked) s.store.refresh_tokens t.store.refresh_tokens

pub IssuesNone-refl : (s : AuthorizationServer) → IssuesNone s s
IssuesNone-refl s = record { access = λ k v h live. h; refresh = λ k v h live. h }

pub IssuesNone-trans :
    (s t u : AuthorizationServer) → IssuesNone s t → IssuesNone t u → IssuesNone s u
IssuesNone-trans s t u p q = record {
  access = λ k v h live. p.access k v (q.access k v h live) live;
  refresh = λ k v h live. p.refresh k v (q.refresh k v h live) live;
}

pub same_tokens :
    (s t : AuthorizationServer)
    → t.store.access_tokens ≡ s.store.access_tokens
    → t.store.refresh_tokens ≡ s.store.refresh_tokens
    → IssuesNone s t
same_tokens s t same same' = record {
  access = λ k v h live. subst (λ (d : Dict AccessToken). get d k ≡ some v) same h;
  refresh = λ k v h live. subst (λ (d : Dict RefreshToken). get d k ≡ some v) same' h;
}

map-AddsNone :
    {V : Type 0} (revoked : V → Bool) (f : V → V) (d : Dict V)
    → ((v : V) → revoked (f v) ≡ false → f v ≡ v)
    → AddsNone revoked d (map_values f d)
map-AddsNone revoked f d only k v h live = elim (Option-cases (get d k)) [
  | inl missing ↦
      absurd (let bad = sym (get-map_values f d k ∙ ap (Option.map f) missing) ∙ h in cc)
  | inr (u, found) ↦
      let is : f u ≡ v = cc (sym (get-map_values f d k ∙ ap (Option.map f) found) ∙ h) in
      let same : f u ≡ u = only u (subst (λ x. revoked x ≡ false) (sym is) live) in
      found ∙ ap some (sym same ∙ is)
]

replay_code-IssuesNone :
    (code : AuthorizationCode) (s : AuthorizationServer)
    → IssuesNone s (with_store (replay_code code) s)
unfolding replay_code revoke_access_for_family_subject log
replay_code-IssuesNone code s = record {
  access =
      map-AddsNone (λ (a : AccessToken). a.revoked)
        (λ t.
          if of_grant code.client_id (some code.subject) t then record t { revoked = true } else t)
        s.store.access_tokens (λ t live. ground arith);
  refresh =
      map-AddsNone (λ (a : RefreshToken). a.revoked)
        (λ t.
          if str_eq t.client_id code.client_id && str_eq t.subject code.subject
          then record t { revoked = true }
          else t)
        s.store.refresh_tokens (λ t live. ground arith);
}

reuse-IssuesNone :
    (token : RefreshToken) (s : AuthorizationServer) → IssuesNone s (with_store (reuse token) s)
unfolding reuse revoke_refresh_family revoke_access_for_family_subject log
reuse-IssuesNone token s = record {
  access =
      map-AddsNone (λ (a : AccessToken). a.revoked)
        (λ t.
          if of_grant token.client_id (some token.subject) t
          then record t { revoked = true }
          else t)
        s.store.access_tokens (λ t live. ground arith);
  refresh =
      map-AddsNone (λ (a : RefreshToken). a.revoked)
        (λ t. if in_family token.family_id t then record t { revoked = true } else t)
        s.store.refresh_tokens (λ t live. ground arith);
}

module _ (env : Env) (c : Client) (params : Dict String) (jkt x5t : Option String) where
  redeem-refused :
      (value : String) (code : AuthorizationCode) (s : AuthorizationServer) {e : Exception}
      → (redeem env c params jkt x5t value code s).0 ≡ err e
      → IssuesNone s (redeem env c params jkt x5t value code s).1
  unfolding redeem replay_code
  redeem-refused value code s h = elim (Bool-cases code.used) [
    | inl used ↦ rw (used, redeem) (replay_code-IssuesNone code s)
    | inr fresh ↦ go (check_code env c params jkt s.now code) refl fresh
  ]
    where
      go :
          (r : Result (Unit {0}))
          → check_code env c params jkt s.now code ≡ r
          → code.used ≡ false
          → IssuesNone s (redeem env c params jkt x5t value code s).1
      go (err x) q fresh = rw (q, fresh, redeem) (IssuesNone-refl s)
      go (ok _) q fresh = let bad = rw (q, fresh, redeem) at h in cc

  pub grant_authorization_code-refused :
      (s : AuthorizationServer) {e : Exception}
      → (grant_authorization_code env c params jkt x5t s).0 ≡ err e
      → IssuesNone s (grant_authorization_code env c params jkt x5t s).1
  unfolding grant_authorization_code
  grant_authorization_code-refused s h = elim (Option-cases (given params "code")) [
    | inl missing ↦ rw (missing, grant_authorization_code) (IssuesNone-refl s)
    | inr (key, named) ↦ elim (Option-cases (get s.store.codes key)) [
      | inl unknown ↦ rw (named, unknown, grant_authorization_code) (IssuesNone-refl s)
      | inr (code, found) ↦
          rw (named, found, grant_authorization_code)
            (redeem-refused key code s (rw (named, found, grant_authorization_code) at h))
    ]
  ]

  refresh-refused :
      (value : String) (token : RefreshToken) (s : AuthorizationServer) {e : Exception}
      → (refresh env c params jkt x5t value token s).0 ≡ err e
      → IssuesNone s (refresh env c params jkt x5t value token s).1
  unfolding refresh
  refresh-refused value token s h = elim (Bool-cases (token.used || token.revoked)) [
    | inl spent ↦ rw (spent, refresh) (reuse-IssuesNone token s)
    | inr live ↦ go (check_refresh c params jkt x5t s.now token) refl live
  ]
    where
      go :
          (r : Result (List String))
          → check_refresh c params jkt x5t s.now token ≡ r
          → (token.used || token.revoked) ≡ false
          → IssuesNone s (refresh env c params jkt x5t value token s).1
      go (err x) q live = rw (live, q, refresh) (IssuesNone-refl s)
      go (ok scope) q live = let bad = rw (live, q, refresh) at h in cc

  pub grant_refresh_token-refused :
      (s : AuthorizationServer) {e : Exception}
      → (grant_refresh_token env c params jkt x5t s).0 ≡ err e
      → IssuesNone s (grant_refresh_token env c params jkt x5t s).1
  unfolding grant_refresh_token
  grant_refresh_token-refused s h = elim (Option-cases (given params "refresh_token")) [
    | inl missing ↦ rw (missing, grant_refresh_token) (IssuesNone-refl s)
    | inr (value, named) ↦ elim (Option-cases (get s.store.refresh_tokens value)) [
      | inl unknown ↦ rw (named, unknown, grant_refresh_token) (IssuesNone-refl s)
      | inr (token, found) ↦
          rw (named, found, grant_refresh_token)
            (refresh-refused value token s (rw (named, found, grant_refresh_token) at h))
    ]
  ]

  pub grant_client_credentials-refused :
      (s : AuthorizationServer) {e : Exception}
      → (grant_client_credentials env c params jkt x5t s).0 ≡ err e
      → IssuesNone s (grant_client_credentials env c params jkt x5t s).1
  unfolding grant_client_credentials
  grant_client_credentials-refused s h =
      same_tokens s (grant_client_credentials env c params jkt x5t s).1 (ground arith)
        (ground arith)

  pub grant_device_code-refused :
      (s : AuthorizationServer) {e : Exception}
      → (grant_device_code env c params jkt x5t s).0 ≡ err e
      → IssuesNone s (grant_device_code env c params jkt x5t s).1
  unfolding grant_device_code poll
  grant_device_code-refused s h =
      same_tokens s (grant_device_code env c params jkt x5t s).1 (ground arith) (ground arith)
