-- ===== src/Oauth/Server/Grants/Refresh.antt =====
-- The refresh grant: what it requires, how the scope narrows, and the end of a family.
use auth_lab.Prelude.{
  ℕ, ◌≤◌, String, ◌≡◌, subst, refl, true, false, Option, none, some, List, [], ◌∷◌, inl, inr, arith,
  eq_iff, Bool-cases, Option-cases, In, contains, contains→In, is_empty,
}
use auth_lab.Prelude.Text.{split, or_empty, join}
use auth_lab.Dict.{Dict, get}
use auth_lab.Oauth.Env.{Env}
use auth_lab.Oauth.Errors.{Result, ok, err}
use auth_lab.Oauth.Models.{Client, RefreshToken}
use auth_lab.Oauth.Server.{AuthorizationServer, with_store}
use auth_lab.Oauth.Server.Authorize.{given, outside}
use auth_lab.Oauth.Server.Mint.{Grant, TokenSet, issue_token_set}
use auth_lab.Oauth.Server.Grants.{
  narrow_scope, check_refresh, refresh, grant_refresh_token, wrong_key, rotate, refresh_grant,
  mark_used,
}

-- Every text of the first list is in the second.
abbrev pub Within : List String → List String → Type 0
Within scope held = (s : String) → In s scope → In s held

pub outside-Within :
    (held scope : List String) → is_empty (outside held scope) ≡ true → Within scope held
outside-Within held [] h s m = absurd m
outside-Within held (r ∷ scope) h s m = elim (Bool-cases (contains held r)) [
  | inl known ↦ elim m [
    | inl here ↦ subst (λ t. In t held) here (contains→In held r known)
    | inr later ↦ outside-Within held scope (ground arith) s later
  ]
  | inr unknown ↦ absurd (ground arith)
]

narrow_scope-Within :
    (held requested scope : List String)
    → narrow_scope held requested ≡ ok scope
    → Within scope held
unfolding narrow_scope
narrow_scope-Within held [] scope h = let same : held ≡ scope = cc in λ s m. rw same m
narrow_scope-Within held (r ∷ requested) scope h =
    let same : r ∷ requested ≡ scope = ground arith in
    subst (λ l. Within l held) same (outside-Within held (r ∷ requested) (ground arith))

-- What must hold of a refresh token that is honoured.
pub record Honoured (client : Client) (cnf_jkt cnf_x5t : Option String) (now : ℕ)
    (token : RefreshToken) (scope : List String) : Type 0 where
  pub own : token.client_id ≡ client.client_id
  pub alive : now ≤ token.expires_at
  pub same_key : wrong_key token.cnf_jkt cnf_jkt ≡ false
  pub same_certificate : wrong_key token.cnf_x5t cnf_x5t ≡ false
  pub narrowed : Within scope token.scope

check_refresh-ok :
    (client : Client) (params : Dict String) (cnf_jkt cnf_x5t : Option String) (now : ℕ)
    (token : RefreshToken) {scope : List String}
    → check_refresh client params cnf_jkt cnf_x5t now token ≡ ok scope
    → Honoured client cnf_jkt cnf_x5t now token scope
unfolding check_refresh
check_refresh-ok client params cnf_jkt cnf_x5t now token {scope} h = record {
  own = ground (arith, eq_iff token.client_id client.client_id);
  alive = ground arith;
  same_key = ground arith;
  same_certificate = ground arith;
  narrowed =
      narrow_scope-Within token.scope (split (or_empty (get params "scope"))) scope (ground arith);
}

-- The grant's early returns, and the step that is left.
pub grant_refresh_token-refresh :
    (env : Env) (client : Client) (params : Dict String) (cnf_jkt cnf_x5t : Option String)
    (s : AuthorizationServer) (value : String) (token : RefreshToken)
    → given params "refresh_token" ≡ some value
    → get s.store.refresh_tokens value ≡ some token
    → grant_refresh_token env client params cnf_jkt cnf_x5t s
      ≡ refresh env client params cnf_jkt cnf_x5t value token s
unfolding grant_refresh_token
grant_refresh_token-refresh env client params cnf_jkt cnf_x5t s value token e f =
    rw (e, f, grant_refresh_token)

grant_refresh_token-stored :
    (env : Env) (client : Client) (params : Dict String) (cnf_jkt cnf_x5t : Option String)
    (s : AuthorizationServer) {r : TokenSet}
    → (grant_refresh_token env client params cnf_jkt cnf_x5t s).0 ≡ ok r
    → (value : String) × (token : RefreshToken) × (given params "refresh_token" ≡ some value)
      × (get s.store.refresh_tokens value ≡ some token)
unfolding grant_refresh_token
grant_refresh_token-stored env client params cnf_jkt cnf_x5t s h =
    elim (Option-cases (given params "refresh_token")) [
      | inl missing ↦ ground arith
      | inr (value, e) ↦ elim (Option-cases (get s.store.refresh_tokens value)) [
        | inl unknown ↦ ground arith
        | inr (token, f) ↦ (value, token, e, f)
      ]
    ]

scope-issue_token_set :
    (env : Env) (g : Grant) (s : AuthorizationServer)
    → (issue_token_set env g s).0.scope ≡ join g.scope
unfolding issue_token_set
scope-issue_token_set env g s = refl

scope-rotate :
    (env : Env) (client : Client) (cnf_jkt cnf_x5t : Option String) (value : String)
    (token : RefreshToken) (scope : List String) (s : AuthorizationServer)
    → (rotate env client cnf_jkt cnf_x5t value token scope s).0.scope ≡ join scope
unfolding rotate
scope-rotate env client cnf_jkt cnf_x5t value token scope s =
    scope-issue_token_set env
      (refresh_grant client token scope cnf_jkt cnf_x5t true (some token.family_id) s)
      (with_store (mark_used value) s)

refresh-ok :
    (env : Env) (client : Client) (params : Dict String) (cnf_jkt cnf_x5t : Option String)
    (value : String) (token : RefreshToken) (s : AuthorizationServer) {r : TokenSet}
    → (refresh env client params cnf_jkt cnf_x5t value token s).0 ≡ ok r
    → (scope : List String) × (token.used ≡ false)
      × (token.revoked ≡ false)
      × Honoured client cnf_jkt cnf_x5t s.now token scope
      × (r.scope ≡ join scope)
unfolding refresh
refresh-ok env client params cnf_jkt cnf_x5t value token s {r} h =
    go (check_refresh client params cnf_jkt cnf_x5t s.now token) refl
  where
    go :
        (c : Result (List String))
        → check_refresh client params cnf_jkt cnf_x5t s.now token ≡ c
        → (scope : List String) × (token.used ≡ false)
          × (token.revoked ≡ false)
          × Honoured client cnf_jkt cnf_x5t s.now token scope
          × (r.scope ≡ join scope)
    go (err x) e = ground arith
    go (ok scope) e = (
      scope,
      ground arith,
      ground arith,
      check_refresh-ok client params cnf_jkt cnf_x5t s.now token e,
      ground (
        arith,
        scope-rotate env client cnf_jkt cnf_x5t value token scope s,
        scope-issue_token_set env (refresh_grant client token scope cnf_jkt cnf_x5t false none s) s,
      ),
    )

-- A refresh grant that returns tokens was given a stored refresh token that is neither used nor
-- revoked nor expired, by the client that it was issued to, under the key and the certificate that
-- it is bound to; the scope that is returned holds nothing that the token's scope does not.
pub grant_refresh_token-ok :
    (env : Env) (client : Client) (params : Dict String) (cnf_jkt cnf_x5t : Option String)
    (s : AuthorizationServer) {r : TokenSet}
    → (grant_refresh_token env client params cnf_jkt cnf_x5t s).0 ≡ ok r
    → (value : String) × (token : RefreshToken) × (given params "refresh_token" ≡ some value)
      × (get s.store.refresh_tokens value ≡ some token)
      × ((scope : List String) × (token.used ≡ false)
          × (token.revoked ≡ false)
          × Honoured client cnf_jkt cnf_x5t s.now token scope
          × (r.scope ≡ join scope))
grant_refresh_token-ok env client params cnf_jkt cnf_x5t s h =
    let (value, token, e, f) = grant_refresh_token-stored env client params cnf_jkt cnf_x5t s h in
    let same = grant_refresh_token-refresh env client params cnf_jkt cnf_x5t s value token e f in
    (value, token, e, f, refresh-ok env client params cnf_jkt cnf_x5t value token s (rw same at h))
