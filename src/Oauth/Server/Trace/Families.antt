-- ===== src/Oauth/Server/Trace/Families.antt =====
-- A family of refresh tokens that was ended by a reuse stays ended.
use native.Mathlib.Nat.{le_trans}
use auth_lab.Prelude.{
  String, ◌≡◌, ◌≢◌, ap, refl, true, Option, some, ◌||◌, ◌⊎◌, inl, inr, arith, Bool-cases,
  Option-cases, str_eq,
}
use auth_lab.Dict.{Dict, get}
use auth_lab.Oauth.Env.{Env}
use auth_lab.Oauth.Errors.{ok}
use auth_lab.Oauth.Models.{Client, RefreshToken, log, revoke_refresh_family}
use auth_lab.Oauth.Server.{AuthorizationServer, advance, draw_token}
use auth_lab.Oauth.Server.Authorize.{given, register_user, issue_authorization_code}
use auth_lab.Oauth.Server.Mint.{TokenSet}
use auth_lab.Oauth.Server.Grants.{grant_refresh_token}
use auth_lab.Oauth.Server.Grants.Refresh.{grant_refresh_token-ok}
use auth_lab.Oauth.Server.Grants.Family.{IsDead, NeverDrawn, grant_refresh_token-reuse}
use auth_lab.Oauth.Server.Grants.Frames.{
  grant_authorization_code-draws, grant_refresh_token-SameCodes, grant_client_credentials-SameCodes,
  grant_device_code-SameCodes,
}
use auth_lab.Oauth.Server.Grants.DeadFamilies.{grant_refresh_token-keeps, revoke_family-IsDead}
use auth_lab.Oauth.Server.Grants.DeadOthers.{
  grant_authorization_code-keeps, grant_client_credentials-keeps, grant_device_code-keeps,
}
use auth_lab.Oauth.Server.Token.{TokenRequest, token}
use auth_lab.Oauth.Server.Inspect.{revoke, revoke_refresh}
use auth_lab.Oauth.Server.Trace.{
  Step, Reach, clock, client, user, code, tokens, device, approve, deny, revocation, here, next,
}
use auth_lab.Oauth.Server.Trace.Keeps.{SameTokens, token-keeps}
use auth_lab.Oauth.Server.Trace.Quiet.{
  register-SameTokens, device-SameTokens, approve-SameTokens, deny-SameTokens,
}
use auth_lab.Oauth.Server.Trace.Forever.{revoke-SameCodes}

-- A revocation leaves the refresh tokens alone, or revokes a family.
revoke_refresh-states :
    (s : AuthorizationServer) (value : String) (c : Client)
    → ((revoke_refresh value c s).store.refresh_tokens ≡ s.store.refresh_tokens)
      ⊎ ((other : String) × ((revoke_refresh value c s).store.refresh_tokens
            ≡ (revoke_refresh_family other s.store).0.refresh_tokens))
unfolding revoke_refresh log
revoke_refresh-states s value c = elim (Option-cases (get s.store.refresh_tokens value)) [
  | inl unknown ↦ inl (rw (unknown, revoke_refresh) refl)
  | inr (t, found) ↦ elim (Bool-cases (str_eq t.client_id c.client_id)) [
    | inl own ↦ inr (t.family_id, rw (found, own, revoke_refresh) refl)
    | inr foreign ↦ inl (rw (found, foreign, revoke_refresh) refl)
  ]
]

revoke-states :
    (s : AuthorizationServer) (value : String) (c : Client)
    → ((revoke value c s).store.refresh_tokens ≡ s.store.refresh_tokens)
      ⊎ ((revoke value c s).store.refresh_tokens ≡ (revoke_refresh value c s).store.refresh_tokens)
unfolding revoke log
revoke-states s value c = ground arith

revoke-IsDead :
    (family : String) (s : AuthorizationServer) (value : String) (c : Client)
    → IsDead family s.store.refresh_tokens
    → IsDead family (revoke value c s).store.refresh_tokens
revoke-IsDead family s value c dead = elim (revoke-states s value c) [
  | inl same ↦ rw same dead
  | inr further ↦ rw further (elim (revoke_refresh-states s value c) [
    | inl same ↦ rw same dead
    | inr (other, revoked) ↦ rw revoked (revoke_family-IsDead family other s.store dead)
  ])
]

module _ (env : Env) (family : String) where
  -- Every token of the family is revoked, and the family's name is not drawn again.
  abbrev pub IsEnded : AuthorizationServer → Type 0
  IsEnded s = IsDead family s.store.refresh_tokens × NeverDrawn env s.draws 16 family

  IsEnded-respects : (s t : AuthorizationServer) → SameTokens s t → IsEnded s → IsEnded t
  IsEnded-respects s t same (dead, fresh) =
      (rw same.refresh_tokens dead, λ i le. fresh i (le_trans same.draws le))

  token-IsEnded :
      (s : AuthorizationServer) (r : TokenRequest) → IsEnded s → IsEnded (token env r s).1
  token-IsEnded s r =
      token-keeps env IsEnded IsEnded-respects
        (λ c params jkt x5t t (dead, fresh). (
          (
            grant_authorization_code-keeps env c params jkt x5t t family fresh dead,
            λ i le. fresh i (le_trans (grant_authorization_code-draws env c params jkt x5t t) le),
          ),
          (
            grant_refresh_token-keeps env c params jkt x5t t family fresh dead,
            λ i le.
                fresh i (le_trans (grant_refresh_token-SameCodes env c params jkt x5t t).draws le),
          ),
          (
            grant_client_credentials-keeps env c params jkt x5t t family fresh dead,
            λ i le.
                fresh i
                  (le_trans (grant_client_credentials-SameCodes env c params jkt x5t t).draws le),
          ),
          (
            grant_device_code-keeps env c params jkt x5t t family fresh dead,
            λ i le.
                fresh i (le_trans (grant_device_code-SameCodes env c params jkt x5t t).draws le),
          ),
        ))
        r s

  Step-IsEnded : {s t : AuthorizationServer} → Step env s t → IsEnded s → IsEnded t
  unfolding advance register_user issue_authorization_code draw_token log
  Step-IsEnded (clock s seconds) p = p
  Step-IsEnded (client s t c h) p = IsEnded-respects s t (register-SameTokens s t c h) p
  Step-IsEnded (user s u) p = p
  Step-IsEnded (code s v subject amr auth_time) (dead, fresh) =
      (dead, λ i le. fresh i (omega arith))
  Step-IsEnded (tokens s r) p = token-IsEnded s r p
  Step-IsEnded (device s params) p = IsEnded-respects s _ (device-SameTokens env s params) p
  Step-IsEnded (approve s user_code subject amr) p =
      IsEnded-respects s _ (approve-SameTokens s user_code subject amr) p
  Step-IsEnded (deny s user_code) p = IsEnded-respects s _ (deny-SameTokens s user_code) p
  Step-IsEnded (revocation s v c) (dead, fresh) = (
    revoke-IsDead family s v c dead,
    λ i le. fresh i (le_trans (revoke-SameCodes s v c).draws le),
  )

  Reach-IsEnded : {s t : AuthorizationServer} → IsEnded s → Reach env s t → IsEnded t
  Reach-IsEnded p here = p
  Reach-IsEnded p (next r st) = Step-IsEnded st (Reach-IsEnded p r)

-- Once a refresh token that was rotated or revoked has been presented, no later refresh grant
-- returns tokens for any token of its family, also for one that was live until then, after whatever
-- calls of the server's operations, as long as the random draws of that time do not repeat the
-- family's name.
pub family_ended :
    (env : Env) (s t : AuthorizationServer) (c c' : Client) (params params' : Dict String)
    (jkt x5t jkt' x5t' : Option String) (value value' : String) (token token' : RefreshToken)
    (r : TokenSet)
    → given params "refresh_token" ≡ some value
    → get s.store.refresh_tokens value ≡ some token
    → (token.used || token.revoked) ≡ true
    → NeverDrawn env s.draws 16 token.family_id
    → Reach env (grant_refresh_token env c params jkt x5t s).1 t
    → given params' "refresh_token" ≡ some value'
    → get t.store.refresh_tokens value' ≡ some token'
    → token'.family_id ≡ token.family_id
    → (grant_refresh_token env c' params' jkt' x5t' t).0 ≢ ok r
family_ended env s t c c' params params' jkt x5t jkt' x5t' value value' tok tok' r named found spent
      fresh reach named' found' kin again =
    let ended =
      Reach-IsEnded env tok.family_id
        (
          (grant_refresh_token-reuse env c params jkt x5t s value tok named found spent).1,
          λ i le.
              fresh i (le_trans (grant_refresh_token-SameCodes env c params jkt x5t s).draws le),
        )
        reach in
    let dead = ended.0 value' tok' found' kin in
    let (v, tok2, asked, stored, (_, _, live, _, _)) =
      grant_refresh_token-ok env c' params' jkt' x5t' t again in
    let same : v ≡ value' = cc (asked, named') in
    let same_token : some tok2 ≡ some tok' =
      cc (stored, found', ap (λ k. get t.store.refresh_tokens k) same) in
    ground arith
