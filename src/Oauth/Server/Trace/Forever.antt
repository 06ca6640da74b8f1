-- ===== src/Oauth/Server/Trace/Forever.antt =====
-- A code that was redeemed is never redeemed again, whatever happens in between.
use native.Mathlib.Nat.{le_trans}
use auth_lab.Prelude.{
  ℕ, String, ◌≡◌, ◌≢◌, subst, true, Option, none, some, inl, inr, arith, eq_iff, str_eq, Bool-cases,
  List,
}
use auth_lab.Dict.{Dict, get}
use auth_lab.Dict.Laws.{get-set}
use auth_lab.Oauth.Env.{Env, random_token}
use auth_lab.Oauth.Errors.{ok}
use auth_lab.Oauth.Models.{Client, AuthorizationCode, log, revoke_refresh_family}
use auth_lab.Oauth.Server.{AuthorizationServer, advance, draw_token}
use auth_lab.Oauth.Server.Authorize.{
  Validated, given, register_user, issue_authorization_code, new_code,
}
use auth_lab.Oauth.Server.Mint.{TokenSet}
use auth_lab.Oauth.Server.Grants.{grant_authorization_code}
use auth_lab.Oauth.Server.Grants.Code.{IsUsed, grant_authorization_code-ok}
use auth_lab.Oauth.Server.Grants.Family.{NeverDrawn}
use auth_lab.Oauth.Server.Grants.Frames.{
  SameCodes, grant_authorization_code-draws, grant_authorization_code-IsUsed,
  grant_refresh_token-SameCodes, grant_client_credentials-SameCodes, grant_device_code-SameCodes,
}
use auth_lab.Oauth.Server.Token.{TokenRequest, token}
use auth_lab.Oauth.Server.Inspect.{revoke, revoke_refresh}
use auth_lab.Oauth.Server.Trace.{
  Step, Reach, clock, client, user, code, tokens, device, approve, deny, revocation, here, next,
}
use auth_lab.Oauth.Server.Trace.Keeps.{SameTokens, token-keeps}
use auth_lab.Oauth.Server.Trace.Quiet.{
  register-SameTokens, device-SameTokens, approve-SameTokens, deny-SameTokens,
}

pub revoke-SameCodes :
    (s : AuthorizationServer) (value : String) (c : Client) → SameCodes s (revoke value c s)
unfolding revoke revoke_refresh log revoke_refresh_family
revoke-SameCodes s value c = ground arith

module _ (env : Env) (value : String) where
  -- The code is used up, and its value is not drawn again.
  abbrev pub IsSpent : AuthorizationServer → Type 0
  IsSpent s = IsUsed (get s.store.codes value) × NeverDrawn env s.draws 32 value

  IsSpent-SameCodes : (s t : AuthorizationServer) → SameCodes s t → IsSpent s → IsSpent t
  IsSpent-SameCodes s t same (used, fresh) =
      (rw same.codes used, λ i le. fresh i (le_trans same.draws le))

  IsSpent-respects : (s t : AuthorizationServer) → SameTokens s t → IsSpent s → IsSpent t
  IsSpent-respects s t same =
      IsSpent-SameCodes s t (record { codes = same.codes; draws = same.draws })

  token-IsSpent :
      (s : AuthorizationServer) (r : TokenRequest) → IsSpent s → IsSpent (token env r s).1
  token-IsSpent s r =
      token-keeps env IsSpent IsSpent-respects
        (λ c params jkt x5t t p.
          let (used, le) = grant_authorization_code-IsUsed env c params jkt x5t t value p.0 in
          (
            (used, λ i h. p.1 i (le_trans le h)),
            IsSpent-SameCodes t _ (grant_refresh_token-SameCodes env c params jkt x5t t) p,
            IsSpent-SameCodes t _ (grant_client_credentials-SameCodes env c params jkt x5t t) p,
            IsSpent-SameCodes t _ (grant_device_code-SameCodes env c params jkt x5t t) p,
          ))
        r s

  code-IsSpent :
      (s : AuthorizationServer) (v : Validated) (subject : String) (amr : List String)
      (auth_time : Option ℕ)
      → IsSpent s
      → IsSpent (issue_authorization_code env v subject amr auth_time s).1
  unfolding issue_authorization_code draw_token log
  code-IsSpent s v subject amr auth_time (used, fresh) =
      let drawn = random_token env s.draws 32 in
      (
        rw (get-set s.store.codes drawn (new_code drawn v subject amr auth_time s) value)
            (elim (Bool-cases (str_eq drawn value)) [
              | inl same ↦ absurd (fresh s.draws (omega arith) ((eq_iff drawn value).0 same))
              | inr other ↦ rw other used
            ]),
        λ i le. fresh i (omega arith),
      )

  Step-IsSpent : {s t : AuthorizationServer} → Step env s t → IsSpent s → IsSpent t
  unfolding advance register_user
  Step-IsSpent (clock s seconds) p = p
  Step-IsSpent (client s t c h) p = IsSpent-respects s t (register-SameTokens s t c h) p
  Step-IsSpent (user s u) p = p
  Step-IsSpent (code s v subject amr auth_time) p = code-IsSpent s v subject amr auth_time p
  Step-IsSpent (tokens s r) p = token-IsSpent s r p
  Step-IsSpent (device s params) p = IsSpent-respects s _ (device-SameTokens env s params) p
  Step-IsSpent (approve s user_code subject amr) p =
      IsSpent-respects s _ (approve-SameTokens s user_code subject amr) p
  Step-IsSpent (deny s user_code) p = IsSpent-respects s _ (deny-SameTokens s user_code) p
  Step-IsSpent (revocation s v c) p = IsSpent-SameCodes s _ (revoke-SameCodes s v c) p

  Reach-IsSpent : {s t : AuthorizationServer} → IsSpent s → Reach env s t → IsSpent t
  Reach-IsSpent p here = p
  Reach-IsSpent p (next r st) = Step-IsSpent st (Reach-IsSpent p r)

IsUsed-ne :
    (o : Option AuthorizationCode) (c : AuthorizationCode) → IsUsed o → o ≡ some c → c.used ≡ true
IsUsed-ne none c h e = absurd h
IsUsed-ne (some x) c h e = ground arith

-- Once a code grant has returned tokens for a code, no later code grant returns tokens for it, by
-- whichever client, after whatever calls of the server's operations, as long as the random draws of
-- that time do not repeat the code.
pub code_once :
    (env : Env) (value : String) (s t : AuthorizationServer) (c c' : Client)
    (params params' : Dict String) (jkt x5t jkt' x5t' : Option String) (r r' : TokenSet)
    → given params "code" ≡ some value
    → given params' "code" ≡ some value
    → (grant_authorization_code env c params jkt x5t s).0 ≡ ok r
    → NeverDrawn env s.draws 32 value
    → Reach env (grant_authorization_code env c params jkt x5t s).1 t
    → (grant_authorization_code env c' params' jkt' x5t' t).0 ≢ ok r'
code_once env value s t c c' params params' jkt x5t jkt' x5t' r r' asked asked' first fresh reach
      again =
    let (v, record1, named, _, _, used) =
      grant_authorization_code-ok env c params jkt x5t s first in
    let (v', record2, named', found, redeemable, _) =
      grant_authorization_code-ok env c' params' jkt' x5t' t again in
    let same : v ≡ value = cc (named, asked) in
    let same' : v' ≡ value = cc (named', asked') in
    let spent =
      Reach-IsSpent env value
        (
          subst
              (λ x. IsUsed (get (grant_authorization_code env c params jkt x5t s).1.store.codes x))
              same used,
          λ i le. fresh i (le_trans (grant_authorization_code-draws env c params jkt x5t s) le),
        )
        reach in
    let still =
      IsUsed-ne _ record2 spent.0 (subst (λ x. get t.store.codes x ≡ some record2) same' found) in
    cc (still, redeemable.fresh)
