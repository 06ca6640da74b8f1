-- ===== src/Oauth/Server/Token/Proven.antt =====
-- The sender's key at the token endpoint is one that the request proves.
use auth_lab.Prelude.{
  ℕ, String, subst, ◌≡◌, refl, true, Option, none, some, sym, ap, ◌∙◌, subst, inl, inr, arith,
  Option-cases,
}
use auth_lab.Json.{Fields}
use auth_lab.Oauth.Env.{Env}
use auth_lab.Oauth.Errors.{Result, ok, err}
use auth_lab.Oauth.Exec.{Exec, continue}
use auth_lab.Oauth.Models.{Client}
use auth_lab.Oauth.Dpop.{DPoPVerifier, verify, admit, remember, purge, check_proof}
use auth_lab.Oauth.Dpop.Fresh.{IsFor, check_proof-IsFor}
use auth_lab.Oauth.Dpop.Signed.{IsSigned, check_proof-IsSigned}
use auth_lab.Dict.{Dict}
use auth_lab.Oauth.Server.{AuthorizationServer}
use auth_lab.Oauth.Server.Authenticate.{
  authenticate_client, authenticate_as, verify_client_assertion,
}
use auth_lab.Oauth.Server.Token.{TokenRequest, endpoint_url, verify_dpop, sender_key}

-- A call that went on is the call of what follows, where the first part left the server.
pub continue-eq-ok :
    {A B : Type 0} (x : Result A × AuthorizationServer) (f : A → Exec AuthorizationServer B) {b : B}
    → (continue x f).0 ≡ ok b
    → (a : A) × (x.0 ≡ ok a) × (continue x f ≡ f a x.1)
continue-eq-ok (ok a, t) f h = (a, refl, refl)
continue-eq-ok (err e, t) f h = cc

-- Authentication leaves the clock, the issuer and the checker of proofs as they are.
pub record SameChecker (s t : AuthorizationServer) : Type 0 where
  pub now : t.now ≡ s.now
  pub issuer : t.issuer ≡ s.issuer
  pub dpop : t.dpop ≡ s.dpop

authenticate_as-SameChecker :
    (env : Env) (client : Client) (secret : String) (params : Dict String) (tls : Option String)
    (s : AuthorizationServer)
    → SameChecker s (authenticate_as env client secret params tls s).1
unfolding authenticate_as verify_client_assertion
authenticate_as-SameChecker env client secret params tls s = ground arith

pub authenticate_client-SameChecker :
    (env : Env) (params : Dict String) (basic : Option (String × String)) (tls : Option String)
    (s : AuthorizationServer)
    → SameChecker s (authenticate_client env params basic tls s).1
unfolding authenticate_client
authenticate_client-SameChecker env params basic tls s = grind (arith, authenticate_as-SameChecker)

-- The request carries a proof for this endpoint and this moment, signed by the key `jwk`.
pub record Proves (env : Env) (r : TokenRequest) (s : AuthorizationServer) (jwk : Fields)
    : Type 0 where
  pub proof : String
  pub payload : Fields
  pub jti : String
  pub sent : r.dpop_proof ≡ some proof
  pub checked :
      check_proof env s.dpop.max_age s.now proof "POST" (endpoint_url r s.issuer)
      ≡ ok (jwk, payload, jti)
  pub fits : IsFor s.dpop.max_age s.now (endpoint_url r s.issuer) payload jti
  pub signed : IsSigned env proof jwk payload

pub Proves-SameChecker :
    (env : Env) (r : TokenRequest) (s t : AuthorizationServer) (jwk : Fields)
    → SameChecker s t
    → Proves env r t jwk
    → Proves env r s jwk
Proves-SameChecker env r s t jwk same p =
    let moved : (t.dpop.max_age, t.now, t.issuer) ≡ (s.dpop.max_age, s.now, s.issuer) =
      λ i. ((same.dpop i).max_age, same.now i, same.issuer i) in
    record {
      proof = p.proof;
      payload = p.payload;
      jti = p.jti;
      sent = p.sent;
      checked =
          subst
            (λ (x : ℕ × ℕ × String).
              check_proof env x.0 x.1 p.proof "POST" (endpoint_url r x.2)
              ≡ ok (jwk, p.payload, p.jti))
            moved p.checked;
      fits =
          subst (λ (x : ℕ × ℕ × String). IsFor x.0 x.1 (endpoint_url r x.2) p.payload p.jti) moved
            p.fits;
      signed = p.signed;
    }

remember-key :
    (env : Env) (now : ℕ) (jwk payload : Fields) (jti : String) (access key : Option String)
    (v : DPoPVerifier) {t : String}
    → (remember env now jwk payload jti access key v).0 ≡ ok t
    → env.thumbprint jwk ≡ t
unfolding remember
remember-key env now jwk payload jti access key v h = ground arith

admit-key :
    (env : Env) (now : ℕ) (x : Result (Fields × Fields × String)) (v : DPoPVerifier) {t : String}
    → (admit env now none none x v).0 ≡ ok t
    → (jwk : Fields) × (payload : Fields) × (jti : String) × (x ≡ ok (jwk, payload, jti))
      × (env.thumbprint jwk ≡ t)
unfolding admit
admit-key env now (ok (jwk, payload, jti)) v h =
    (jwk, payload, jti, refl, remember-key env now jwk payload jti none none (purge now v) h)
admit-key env now (err e) v h = cc

verify_dpop-key :
    (env : Env) (proof url : String) (s : AuthorizationServer) {jkt : String}
    → (verify_dpop env proof url s).0 ≡ ok jkt
    → (jwk : Fields) × (payload : Fields) × (jti : String) × (check_proof env s.dpop.max_age s.now
          proof "POST" url
        ≡ ok (jwk, payload, jti))
      × (env.thumbprint jwk ≡ jkt)
unfolding verify_dpop verify
verify_dpop-key env proof url s h =
    admit-key env s.now (check_proof env s.dpop.max_age s.now proof "POST" url) s.dpop h

pub sender_key-Proves :
    (env : Env) (c : Client) (r : TokenRequest) (s : AuthorizationServer) {jkt : Option String}
    → c.require_dpop ≡ true
    → (sender_key env c r s).0 ≡ ok jkt
    → (jwk : Fields) × Proves env r s jwk × (jkt ≡ some (env.thumbprint jwk))
unfolding sender_key
sender_key-Proves env c r s strict h = elim (Option-cases r.dpop_proof) [
  | inl missing ↦ let bad = rw (missing, strict, sender_key) at h in cc
  | inr (proof, sent) ↦
      let url = endpoint_url r s.issuer in
      let now = rw (sent, sender_key) at h in
      let (key, proven, goes) = continue-eq-ok (verify_dpop env proof url s) _ now in
      let (jwk, payload, jti, checked, is) = verify_dpop-key env proof url s proven in
      let named = ap (λ x. x.0) (sym goes) ∙ now in
      (
        jwk,
        record {
          proof = proof;
          payload = payload;
          jti = jti;
          sent = sent;
          checked = checked;
          fits = check_proof-IsFor env s.dpop.max_age s.now proof url checked;
          signed = check_proof-IsSigned env s.dpop.max_age s.now proof "POST" url checked;
        },
        ground arith,
      )
]
