-- ===== src/Oauth/Server/Grants/Family.antt =====
-- The end of a family of refresh tokens: from a detected reuse on, every one of its tokens is
-- revoked, whatever is minted.
use mathlib.Core.Option
use auth_lab.Prelude.{
  ℕ, ◌+◌, ◌≤◌, String, ◌≡◌, ◌≢◌, sym, ◌∙◌, ap, subst, refl, true, Option, none, some, ◌||◌, inl,
  inr, arith, eq_refl, str_eq, if◌then◌else◌, Bool-cases, Option-cases,
}
use native.Mathlib.Nat.{le_trans}
use auth_lab.Prelude.Text.{is_nonempty}
use auth_lab.Dict.{Dict, get, set, modify, map_values}
use auth_lab.Dict.Laws.{get-map_values, get-modify, get-set}
use auth_lab.Oauth.Env.{Env, random_token}
use auth_lab.Oauth.Errors.{err, oauth, invalid_grant}
use auth_lab.Oauth.Models.{
  Client, RefreshToken, Store, log, in_family, revoke_refresh_family,
  revoke_access_for_family_subject,
}
use auth_lab.Oauth.Server.{AuthorizationServer, draw_token}
use auth_lab.Oauth.Server.Authorize.{given}
use auth_lab.Oauth.Server.Mint.{Grant, issue_token_set, mint_access, new_refresh}
use auth_lab.Oauth.Server.Mint.Bearer.{
  Refreshed, mint_access-SameRest, refresh_family, refresh_tokens-issue_token_set,
}
use auth_lab.Oauth.Server.Grants.{reuse, refresh, grant_refresh_token}
use auth_lab.Oauth.Server.Grants.Refresh.{grant_refresh_token-refresh}

-- No token of the family is left that is not revoked.
abbrev pub IsDead : String → Dict RefreshToken → Type 0
IsDead family tokens =
    (k : String) (t : RefreshToken)
    → get tokens k ≡ some t
    → t.family_id ≡ family
    → t.revoked ≡ true

abbrev drop_member : String → RefreshToken → RefreshToken
drop_member family t = if in_family family t then record t { revoked = true } else t

dropped_member :
    (family : String) (o : Option RefreshToken) (t : RefreshToken)
    → Option.map (drop_member family) o ≡ some t
    → t.family_id ≡ family
    → t.revoked ≡ true
dropped_member family none t h e = cc
dropped_member family (some a) t h e = ground (arith, eq_refl family)

pub reuse-IsDead :
    (token : RefreshToken) (st : Store) → IsDead token.family_id (reuse token st).refresh_tokens
unfolding reuse revoke_refresh_family revoke_access_for_family_subject log
reuse-IsDead token st k t h =
    dropped_member token.family_id (get st.refresh_tokens k) t
      (sym (get-map_values (drop_member token.family_id) st.refresh_tokens k) ∙ h)

-- A refresh grant for a token that was rotated or revoked is refused as an invalid grant, and every
-- token of its family is revoked.
pub grant_refresh_token-reuse :
    (env : Env) (client : Client) (params : Dict String) (cnf_jkt cnf_x5t : Option String)
    (s : AuthorizationServer) (value : String) (token : RefreshToken)
    → given params "refresh_token" ≡ some value
    → get s.store.refresh_tokens value ≡ some token
    → (token.used || token.revoked) ≡ true
    → ((grant_refresh_token env client params cnf_jkt cnf_x5t s).0 ≡ err (oauth invalid_grant))
      × IsDead token.family_id
          (grant_refresh_token env client params cnf_jkt cnf_x5t s).1.store.refresh_tokens
unfolding refresh
grant_refresh_token-reuse env client params cnf_jkt cnf_x5t s value token e f spent =
    rw
      (
        grant_refresh_token-refresh env client params cnf_jkt cnf_x5t s value token e f,
        spent,
        refresh,
      )
      (refl, reuse-IsDead token s.store)

-- One more token, of another family or revoked, leaves a dead family dead.
set-IsDead :
    (family : String) (tokens : Dict RefreshToken) (value : String) (new : RefreshToken)
    → IsDead family tokens
    → new.family_id ≢ family
    → IsDead family (set tokens value new)
set-IsDead family tokens value new dead other k t h e =
    ground (arith, get-set tokens value new k, dead k t)

-- A change of tokens that keeps the family and the revocation.
abbrev pub IsMild : (RefreshToken → RefreshToken) → Type 0
IsMild f =
    ((t : RefreshToken) → (f t).family_id ≡ t.family_id)
    × ((t : RefreshToken) → t.revoked ≡ true → (f t).revoked ≡ true)

changed :
    (family : String) (f : RefreshToken → RefreshToken) (a t : RefreshToken)
    → IsMild f
    → (a.family_id ≡ family → a.revoked ≡ true)
    → some (f a) ≡ some t
    → t.family_id ≡ family
    → t.revoked ≡ true
changed family f a t (same, keeps) dead h e =
    let is : f a ≡ t = cc in
    subst (λ (x : RefreshToken). x.revoked ≡ true) is
      (keeps a (dead (sym (same a) ∙ ap (λ (x : RefreshToken). x.family_id) is ∙ e)))

pub map-IsDead :
    (family : String) (tokens : Dict RefreshToken) (f : RefreshToken → RefreshToken)
    → IsMild f
    → IsDead family tokens
    → IsDead family (map_values f tokens)
map-IsDead family tokens f mild dead k t h e = elim (Option-cases (get tokens k)) [
  | inl missing ↦ ground (arith, get-map_values f tokens k)
  | inr (a, found) ↦
      changed family f a t mild (dead k a found)
        (sym (ap (Option.map f) found) ∙ sym (get-map_values f tokens k) ∙ h) e
]

pub modify-IsDead :
    (family : String) (tokens : Dict RefreshToken) (key : String) (f : RefreshToken → RefreshToken)
    → IsMild f
    → IsDead family tokens
    → IsDead family (modify tokens key f)
modify-IsDead family tokens key f mild dead k t h e = elim (Bool-cases (str_eq key k)) [
  | inl here ↦ elim (Option-cases (get tokens k)) [
    | inl missing ↦ ground (arith, get-modify tokens key f k)
    | inr (a, found) ↦
        changed family f a t mild (dead k a found) (ground (arith, get-modify tokens key f k)) e
  ]
  | inr elsewhere ↦ dead k t (ground (arith, get-modify tokens key f k)) e
]

-- Minting leaves a dead family dead, unless the new token is of that family.
pub issue_token_set-IsDead :
    (env : Env) (g : Grant) (s : AuthorizationServer) (family : String)
    → refresh_family env g (mint_access env g s).1 ≢ family
    → IsDead family s.store.refresh_tokens
    → IsDead family (issue_token_set env g s).1.store.refresh_tokens
unfolding new_refresh
issue_token_set-IsDead env g s family other dead =
    go (issue_token_set env g s).0.refresh_token (refresh_tokens-issue_token_set env g s)
  where
    go :
        (o : Option String)
        → Refreshed env g
            (mint_access env g s).1
            s.store.refresh_tokens
            o
            (issue_token_set env g s).1.store.refresh_tokens
        → IsDead family (issue_token_set env g s).1.store.refresh_tokens
    go none same = rw same dead
    go (some value) (subject, _, _, same) =
        rw same (set-IsDead family s.store.refresh_tokens value _ dead (λ e. other e))

-- The draws from the `n`-th on never give the value again.
abbrev pub NeverDrawn : Env → ℕ → ℕ → String → Type 0
NeverDrawn env n n_bytes value = (i : ℕ) → n ≤ i → random_token env i n_bytes ≢ value

refresh_family-ne :
    (env : Env) (g : Grant) (t : AuthorizationServer) (family : String)
    → NeverDrawn env t.draws 16 family
    → g.family_id ≢ some family
    → refresh_family env g t ≢ family
unfolding refresh_family draw_token
refresh_family-ne env g t family fresh other same = elim (Option-cases g.family_id) [
  | inl unnamed ↦ fresh (t.draws + 1) (omega arith) (ground arith)
  | inr (f, named) ↦ elim (Bool-cases (is_nonempty f)) [
    | inl nonempty ↦ other (ground arith)
    | inr empty ↦ fresh (t.draws + 1) (omega arith) (ground arith)
  ]
]

-- So every grant whose token set names no family, or another one, leaves a dead family dead.
pub mint-IsDead :
    (env : Env) (g : Grant) (s : AuthorizationServer) (family : String)
    → NeverDrawn env s.draws 16 family
    → g.family_id ≢ some family
    → IsDead family s.store.refresh_tokens
    → IsDead family (issue_token_set env g s).1.store.refresh_tokens
mint-IsDead env g s family fresh other = issue_token_set-IsDead env g s family (
    refresh_family-ne env g (mint_access env g s).1 family
      (λ i le. fresh i (le_trans (mint_access-SameRest env g s).draws le)) other)
