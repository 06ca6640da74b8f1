-- ===== src/Oauth/Server/Grants/Sender.antt =====
-- A grant that is given a sender's key issues a token for that key.
use auth_lab.Prelude.{
  String, ◌≡◌, refl, subst, ap, ◌∙◌, true, false, Option, none, some, arith, inl, inr, eq_iff,
  eq_refl, Bool-cases, List, if◌then◌else◌, str_eq,
}
use auth_lab.Prelude.Text.{truthy}
use auth_lab.Dict.{Dict, get}
use auth_lab.Dict.Laws.{get-set}
use auth_lab.Oauth.Env.{Env}
use auth_lab.Oauth.Errors.{Result, ok, err}
use auth_lab.Oauth.Models.{Client, AccessToken, RefreshToken, AuthorizationCode}
use auth_lab.Oauth.Server.{AuthorizationServer, with_store}
use auth_lab.Oauth.Server.Mint.{Grant, TokenSet, issue_token_set, new_access}
use auth_lab.Oauth.Server.Mint.Bearer.{access_tokens-issue_token_set, access_jti}
use auth_lab.Oauth.Server.Grants.{
  grant_authorization_code, grant_refresh_token, grant_client_credentials, grant_device_code,
  redeem, refresh, rotate, poll, code_grant, use_code, check_refresh, wrong_key, or_text,
  mark_rotated, mark_used, refresh_grant,
}

-- The tokens that are returned are DPoP tokens, and the access token is stored for the key.
pub record IsBound (key : Option String) (r : TokenSet) (t : AuthorizationServer) : Type 0 where
  pub proof_bound : r.token_type ≡ "DPoP"
  pub held :
      (a : AccessToken) × (get t.store.access_tokens r.access_token ≡ some a) × (a.cnf_jkt ≡ key)

-- An answer that, if it returns tokens, returns them for the key.
abbrev pub Binds : Option String → Result TokenSet × AuthorizationServer → Type 0
Binds key (ok r, t) = IsBound key r t
Binds key (err e, t) = Unit

token_type-issue_token_set :
    (env : Env) (g : Grant) (s : AuthorizationServer)
    → truthy g.cnf_jkt ≡ true
    → (issue_token_set env g s).0.token_type ≡ "DPoP"
unfolding issue_token_set
token_type-issue_token_set env g s bound = ground arith

issue_token_set-IsBound :
    (env : Env) (g : Grant) (s : AuthorizationServer)
    → truthy g.cnf_jkt ≡ true
    → IsBound g.cnf_jkt (issue_token_set env g s).0 (issue_token_set env g s).1
unfolding new_access
issue_token_set-IsBound env g s bound = record {
  proof_bound = token_type-issue_token_set env g s bound;
  held = (
    new_access g (issue_token_set env g s).0.access_token (access_jti env g s) s,
    ap (λ d. get d (issue_token_set env g s).0.access_token) (access_tokens-issue_token_set env g s)
        ∙ get-set s.store.access_tokens (issue_token_set env g s).0.access_token _
            (issue_token_set env g s).0.access_token
        ∙ ap
            (λ b.
              if b
              then some
                  (new_access g (issue_token_set env g s).0.access_token (access_jti env g s) s)
              else get s.store.access_tokens (issue_token_set env g s).0.access_token)
            (eq_refl (issue_token_set env g s).0.access_token),
    refl,
  );
}

-- The key that a refresh token is bound to is the one that is presented.
or_text-same :
    (held presented : Option String)
    → wrong_key held presented ≡ false
    → or_text held presented ≡ presented
or_text-same none presented h = refl
or_text-same (some String.[]) presented h = refl
or_text-same (some (String.◌∷◌ c s)) none h = cc
or_text-same (some (String.◌∷◌ c s)) (some t) h = ground (arith, eq_iff t (String.◌∷◌ c s))

mark_rotated-IsBound :
    (key : Option String) (value : String) (new : Option String) (r : TokenSet)
    (t : AuthorizationServer)
    → IsBound key r t
    → IsBound key r (with_store (mark_rotated value new) t)
mark_rotated-IsBound key value none r t b = record { proof_bound = b.proof_bound; held = b.held }
mark_rotated-IsBound key value (some new) r t b = elim (Bool-cases (str_eq new value)) [
  | inl same ↦ rw same (record { proof_bound = b.proof_bound; held = b.held })
  | inr other ↦ rw other (record { proof_bound = b.proof_bound; held = b.held })
]

check_refresh-key :
    (client : Client) (params : Dict String) (cnf_jkt cnf_x5t : Option String) (now : _)
    (token : RefreshToken) {scope : List String}
    → check_refresh client params cnf_jkt cnf_x5t now token ≡ ok scope
    → wrong_key token.cnf_jkt cnf_jkt ≡ false
unfolding check_refresh
check_refresh-key client params cnf_jkt cnf_x5t now token h = ground arith

module _ (env : Env) (c : Client) (params : Dict String) (jkt x5t : Option String)
    (bound : truthy jkt ≡ true) where
  redeem-Binds :
      (value : String) (code : AuthorizationCode) (s : AuthorizationServer)
      → Binds jkt (redeem env c params jkt x5t value code s)
  unfolding redeem
  redeem-Binds value code s = ground (
    arith,
    issue_token_set-IsBound env (code_grant c code jkt x5t s) (with_store (use_code value code c) s)
        bound,
  )

  pub grant_authorization_code-Binds :
      (s : AuthorizationServer) → Binds jkt (grant_authorization_code env c params jkt x5t s)
  unfolding grant_authorization_code
  grant_authorization_code-Binds s = grind (arith, redeem-Binds)

  rotate-IsBound :
      (value : String) (token : RefreshToken) (scope : List String) (s : AuthorizationServer)
      → wrong_key token.cnf_jkt jkt ≡ false
      → IsBound jkt
          (rotate env c jkt x5t value token scope s).0
          (rotate env c jkt x5t value token scope s).1
  unfolding rotate
  rotate-IsBound value token scope s right =
      let g = refresh_grant c token scope jkt x5t true (some token.family_id) s in
      let u = with_store (mark_used value) s in
      let (set, t) = issue_token_set env g u in
      let same = or_text-same token.cnf_jkt jkt right in
      mark_rotated-IsBound jkt value set.refresh_token set t (
        subst (λ k. IsBound k set t) same
          (issue_token_set-IsBound env g u (ap truthy same ∙ bound)))

  renew-IsBound :
      (token : RefreshToken) (scope : List String) (s : AuthorizationServer)
      → wrong_key token.cnf_jkt jkt ≡ false
      → IsBound jkt
          (issue_token_set env (refresh_grant c token scope jkt x5t false none s) s).0
          (issue_token_set env (refresh_grant c token scope jkt x5t false none s) s).1
  renew-IsBound token scope s right =
      let g = refresh_grant c token scope jkt x5t false none s in
      let same = or_text-same token.cnf_jkt jkt right in
      subst (λ k. IsBound k (issue_token_set env g s).0 (issue_token_set env g s).1) same
        (issue_token_set-IsBound env g s (ap truthy same ∙ bound))

  refresh-Binds :
      (value : String) (token : RefreshToken) (s : AuthorizationServer)
      → Binds jkt (refresh env c params jkt x5t value token s)
  unfolding refresh
  refresh-Binds value token s =
      grind (arith, rotate-IsBound, renew-IsBound, check_refresh-key c params jkt x5t s.now token)

  pub grant_refresh_token-Binds :
      (s : AuthorizationServer) → Binds jkt (grant_refresh_token env c params jkt x5t s)
  unfolding grant_refresh_token
  grant_refresh_token-Binds s = grind (arith, refresh-Binds)

  pub grant_client_credentials-Binds :
      (s : AuthorizationServer) → Binds jkt (grant_client_credentials env c params jkt x5t s)
  unfolding grant_client_credentials
  grant_client_credentials-Binds s = grind (arith, issue_token_set-IsBound)

  pub grant_device_code-Binds :
      (s : AuthorizationServer) → Binds jkt (grant_device_code env c params jkt x5t s)
  unfolding grant_device_code poll
  grant_device_code-Binds s = grind (arith, issue_token_set-IsBound)
