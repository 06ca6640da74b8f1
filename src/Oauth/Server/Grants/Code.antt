-- ===== src/Oauth/Server/Grants/Code.antt =====
-- The authorization code grant: what a redemption requires, and that it happens once.
use auth_lab.Prelude.{
  ℕ, ◌≤◌, String, ◌≡◌, inl, inr, refl, true, false, Option, none, some, arith, eq_iff, eq_refl,
  Option-cases,
}
use auth_lab.Dict.{Dict, get, modify}
use auth_lab.Dict.Laws.{get-modify}
use auth_lab.Oauth.Env.{Env, b64u_encode}
use auth_lab.Oauth.Errors.{ok}
use auth_lab.Oauth.Models.{Client, AuthorizationCode, log, code_redeemed}
use auth_lab.Oauth.Pkce.{matches_pattern}
use auth_lab.Oauth.Pkce.Shape.{matches_pattern_iff}
use auth_lab.Oauth.Pkce.Binding.{verify_iff}
use auth_lab.Oauth.Server.{AuthorizationServer}
use auth_lab.Oauth.Server.Authorize.{given, get_or}
use auth_lab.Oauth.Server.Mint.{TokenSet}
use auth_lab.Oauth.Server.Mint.Bearer.{issue_token_set-SameRest}
use auth_lab.Oauth.Server.Grants.{
  check_pkce, check_code, use_code, code_grant, redeem, grant_authorization_code, wrong_key,
}

-- The verifier that goes with a challenge that is not empty: well formed, and hashed to it by S256.
abbrev pub Proved : Env → Dict String → AuthorizationCode → Option String → Type 0
Proved env params code none = Unit
Proved env params code (some String.[]) = Unit
Proved env params code (some (String.◌∷◌ c s)) =
    (code.code_challenge_method ≡ "S256")
    × (matches_pattern (get_or (get params "code_verifier") "") ≡ true)
    × (b64u_encode (env.sha256 (get_or (get params "code_verifier") "")) ≡ String.◌∷◌ c s)

-- What must hold of a code that is redeemed.
pub record Redeemable (env : Env) (client : Client) (params : Dict String) (cnf_jkt : Option String)
    (now : ℕ) (code : AuthorizationCode) : Type 0 where
  pub fresh : code.used ≡ false
  pub own : code.client_id ≡ client.client_id
  pub alive : now ≤ code.expires_at
  pub same_uri : get params "redirect_uri" ≡ some code.redirect_uri
  pub proved : Proved env params code code.code_challenge
  pub same_key : wrong_key code.dpop_jkt cnf_jkt ≡ false

check_pkce-ok :
    (env : Env) (client : Client) (params : Dict String) (code : AuthorizationCode)
    → check_pkce env client params code ≡ ok tt
    → Proved env params code code.code_challenge
unfolding check_pkce
check_pkce-ok env client params code h = go code.code_challenge refl
  where
    go : (o : Option String) → code.code_challenge ≡ o → Proved env params code o
    go none e = tt
    go (some String.[]) e = tt
    go (some (String.◌∷◌ c s)) e =
        let verifier = get_or (get params "code_verifier") "" in
        let (s256, shaped, bound) =
          (verify_iff env verifier (String.◌∷◌ c s) code.code_challenge_method).0
            (rw (e, check_pkce) at h) in
        (s256, (matches_pattern_iff verifier).1 shaped, bound)

check_code-ok :
    (env : Env) (client : Client) (params : Dict String) (cnf_jkt : Option String) (now : ℕ)
    (code : AuthorizationCode)
    → code.used ≡ false
    → check_code env client params cnf_jkt now code ≡ ok tt
    → Redeemable env client params cnf_jkt now code
unfolding check_code
check_code-ok env client params cnf_jkt now code fresh h = record {
  fresh = fresh;
  own = ground (arith, eq_iff code.client_id client.client_id);
  alive = ground arith;
  same_uri = elim (Option-cases (get params "redirect_uri")) [
    | inl missing ↦ ground arith
    | inr (uri, named) ↦ ground (arith, eq_iff uri code.redirect_uri)
  ];
  proved = check_pkce-ok env client params code (ground arith);
  same_key = ground arith;
}

-- A code that was redeemed.
abbrev pub IsUsed : Option AuthorizationCode → Type 0
IsUsed none = ⊥
IsUsed (some c) = c.used ≡ true

redeem-ok :
    (env : Env) (client : Client) (params : Dict String) (cnf_jkt cnf_x5t : Option String)
    (value : String) (code : AuthorizationCode) (s : AuthorizationServer) {r : TokenSet}
    → get s.store.codes value ≡ some code
    → (redeem env client params cnf_jkt cnf_x5t value code s).0 ≡ ok r
    → Redeemable env client params cnf_jkt s.now code
      × IsUsed (get (redeem env client params cnf_jkt cnf_x5t value code s).1.store.codes value)
unfolding redeem use_code log
redeem-ok env client params cnf_jkt cnf_x5t value code s found h = (
  check_code-ok env client params cnf_jkt s.now code (ground arith) (ground arith),
  ground (
    arith,
    issue_token_set-SameRest env (code_grant client code cnf_jkt cnf_x5t s) (record s {
      store =
          log (code_redeemed code.subject client.client_id) (record (s.store) {
            codes = modify s.store.codes value (λ c. record c { used = true });
          });
    }),
    get-modify s.store.codes value (λ c. record c { used = true }) value,
    eq_refl value,
  ),
)

-- The grant's early returns, and the redemption that is left.
pub grant_authorization_code-redeem :
    (env : Env) (client : Client) (params : Dict String) (cnf_jkt cnf_x5t : Option String)
    (s : AuthorizationServer) (value : String) (code : AuthorizationCode)
    → given params "code" ≡ some value
    → get s.store.codes value ≡ some code
    → grant_authorization_code env client params cnf_jkt cnf_x5t s
      ≡ redeem env client params cnf_jkt cnf_x5t value code s
unfolding grant_authorization_code
grant_authorization_code-redeem env client params cnf_jkt cnf_x5t s value code e f =
    rw (e, f, grant_authorization_code)

grant_authorization_code-stored :
    (env : Env) (client : Client) (params : Dict String) (cnf_jkt cnf_x5t : Option String)
    (s : AuthorizationServer) {r : TokenSet}
    → (grant_authorization_code env client params cnf_jkt cnf_x5t s).0 ≡ ok r
    → (value : String) × (code : AuthorizationCode) × (given params "code" ≡ some value)
      × (get s.store.codes value ≡ some code)
unfolding grant_authorization_code
grant_authorization_code-stored env client params cnf_jkt cnf_x5t s h =
    elim (Option-cases (given params "code")) [
      | inl missing ↦ ground arith
      | inr (value, e) ↦ elim (Option-cases (get s.store.codes value)) [
        | inl unknown ↦ ground arith
        | inr (code, f) ↦ (value, code, e, f)
      ]
    ]

-- A code grant that returns tokens was given a stored code that is unused and not expired, by the
-- client that it was issued to, with the redirect URI of the request, the verifier of its
-- challenge and the DPoP key that it names, if it names one; afterwards that code is used.
pub grant_authorization_code-ok :
    (env : Env) (client : Client) (params : Dict String) (cnf_jkt cnf_x5t : Option String)
    (s : AuthorizationServer) {r : TokenSet}
    → (grant_authorization_code env client params cnf_jkt cnf_x5t s).0 ≡ ok r
    → (value : String) × (code : AuthorizationCode) × (given params "code" ≡ some value)
      × (get s.store.codes value ≡ some code)
      × Redeemable env client params cnf_jkt s.now code
      × IsUsed
          (get (grant_authorization_code env client params cnf_jkt cnf_x5t s).1.store.codes value)
grant_authorization_code-ok env client params cnf_jkt cnf_x5t s h =
    let (value, code, e, f) =
      grant_authorization_code-stored env client params cnf_jkt cnf_x5t s h in
    let same = grant_authorization_code-redeem env client params cnf_jkt cnf_x5t s value code e f in
    let (redeemable, used) =
      redeem-ok env client params cnf_jkt cnf_x5t value code s f (rw same at h) in
    (value, code, e, f, redeemable, rw same used)
