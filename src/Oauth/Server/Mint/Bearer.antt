-- ===== src/Oauth/Server/Mint/Bearer.antt =====
-- What minting a token set writes: the access token, perhaps a refresh token, and nothing else.
use auth_lab.Prelude.{
  ◌≤◌, String, ◌≡◌, refl, sym, ap, true, Option, none, some, arith, inl, inr, Bool-cases,
  Option-cases,
}
use mathlib.Core.Path.{subst₂}
use auth_lab.Dict.{Dict, set}
use auth_lab.Oauth.Env.{Env}
use auth_lab.Oauth.Models.{Store, RefreshToken}
use auth_lab.Oauth.Server.{AuthorizationServer, draw_token}
use auth_lab.Oauth.Server.Mint.{
  Grant, jwt_issue, access_value, mint_access, mint_refresh, maybe_refresh, maybe_id_token,
  issue_id_token, issue_token_set, new_access, new_refresh, family_of,
}

-- The parts of the server that minting leaves alone.
pub record SameRest (s t : AuthorizationServer) : Type 0 where
  pub clients : t.store.clients ≡ s.store.clients
  pub users : t.store.users ≡ s.store.users
  pub codes : t.store.codes ≡ s.store.codes
  pub device_codes : t.store.device_codes ≡ s.store.device_codes
  pub seen_jtis : t.store.seen_jtis ≡ s.store.seen_jtis
  pub now : t.now ≡ s.now
  pub dpop : t.dpop ≡ s.dpop
  pub issuer : t.issuer ≡ s.issuer
  pub draws : s.draws ≤ t.draws
  pub refresh_token_lifetime : t.refresh_token_lifetime ≡ s.refresh_token_lifetime

-- A draw, and a signature with its draw, write nothing into the store.
access_value-store :
    (env : Env) (g : Grant) (s : AuthorizationServer)
    → ((access_value env g s).1.store ≡ s.store) × SameRest s (access_value env g s).1
unfolding access_value jwt_issue draw_token
access_value-store env g s = ground arith

pub mint_access-SameRest :
    (env : Env) (g : Grant) (s : AuthorizationServer) → SameRest s (mint_access env g s).1
unfolding mint_access draw_token
mint_access-SameRest env g s = ground (arith, access_value-store env g s)

maybe_refresh-SameRest :
    (env : Env) (g : Grant) (s : AuthorizationServer) → SameRest s (maybe_refresh env g s).1
unfolding maybe_refresh mint_refresh draw_token
maybe_refresh-SameRest env g s = ground arith

maybe_id_token-SameRest :
    (env : Env) (g : Grant) (access : String) (s : AuthorizationServer)
    → SameRest s (maybe_id_token env g access s).1
      × ((maybe_id_token env g access s).1.store ≡ s.store)
unfolding maybe_id_token issue_id_token jwt_issue draw_token
maybe_id_token-SameRest env g access s = ground arith

pub issue_token_set-SameRest :
    (env : Env) (g : Grant) (s : AuthorizationServer) → SameRest s (issue_token_set env g s).1
unfolding issue_token_set
issue_token_set-SameRest env g s =
    let (value, t) = mint_access env g s in
    let (fresh, u) = maybe_refresh env g t in
    ground (
      arith,
      mint_access-SameRest env g s,
      maybe_refresh-SameRest env g t,
      maybe_id_token-SameRest env g value u,
    )

-- The `jti` of the access token's record.
pub access_jti : Env → Grant → AuthorizationServer → String
access_jti env g s = (draw_token env 16 (access_value env g s).1).0

-- The access token that is returned is stored, with what the grant says, and no other is.
pub access_tokens-issue_token_set :
    (env : Env) (g : Grant) (s : AuthorizationServer)
    → (issue_token_set env g s).1.store.access_tokens
      ≡ set s.store.access_tokens
          (issue_token_set env g s).0.access_token
          (new_access g (issue_token_set env g s).0.access_token (access_jti env g s) s)
unfolding issue_token_set mint_access maybe_refresh mint_refresh access_jti draw_token
access_tokens-issue_token_set env g s =
    let (value, t) = mint_access env g s in
    let (fresh, u) = maybe_refresh env g t in
    ground (arith, access_value-store env g s, maybe_id_token-SameRest env g value u)

-- The family that a new refresh token joins.
unfoldable pub refresh_family : Env → Grant → AuthorizationServer → String
refresh_family env g t = (family_of env g.family_id (draw_token env 32 t).1).0

-- What becomes of the refresh tokens `old` at the server `t`: nothing, or one more, of the grant's
-- subject, under the value that is returned.
abbrev pub Refreshed :
    Env
    → Grant
    → AuthorizationServer
    → Dict RefreshToken
    → Option String
    → Dict RefreshToken
    → Type 0
Refreshed env g t old none new = new ≡ old
Refreshed env g t old (some value) new =
    (subject : String) × (g.subject ≡ some subject)
    × (g.include_refresh ≡ true)
    × (new ≡ set old value (new_refresh g value subject (refresh_family env g t) t))

maybe_refresh-Refreshed :
    (env : Env) (g : Grant) (t : AuthorizationServer)
    → Refreshed env g t t.store.refresh_tokens
        (maybe_refresh env g t).0
        (maybe_refresh env g t).1.store.refresh_tokens
unfolding maybe_refresh
maybe_refresh-Refreshed env g t = elim (Option-cases g.subject) [
  | inl nobody ↦ rw (nobody, maybe_refresh) refl
  | inr (subject, someone) ↦ elim (Bool-cases g.include_refresh) [
    | inl wanted ↦
        rw (someone, wanted)
          (subject, refl, refl, unfold mint_refresh refresh_family draw_token in ground arith)
    | inr unwanted ↦ rw (someone, unwanted) refl
  ]
]

refresh_tokens-mint_access :
    (env : Env) (g : Grant) (s : AuthorizationServer)
    → (mint_access env g s).1.store.refresh_tokens ≡ s.store.refresh_tokens
unfolding mint_access draw_token
refresh_tokens-mint_access env g s = ground (arith, access_value-store env g s)

pub refresh_tokens-issue_token_set :
    (env : Env) (g : Grant) (s : AuthorizationServer)
    → Refreshed env g
        (mint_access env g s).1
        s.store.refresh_tokens
        (issue_token_set env g s).0.refresh_token
        (issue_token_set env g s).1.store.refresh_tokens
unfolding issue_token_set
refresh_tokens-issue_token_set env g s =
    let (value, t) = mint_access env g s in
    let (fresh, u) = maybe_refresh env g t in
    subst₂ (λ old new. Refreshed env g t old fresh new) (refresh_tokens-mint_access env g s)
      (sym (ap (λ (st : Store). st.refresh_tokens) (maybe_id_token-SameRest env g value u).1))
      (maybe_refresh-Refreshed env g t)
