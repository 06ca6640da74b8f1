-- ===== src/Oauth/Server/Token/Constrained.antt =====
-- Sender-constrained tokens: what `require_dpop` enforces at the token endpoint.
use auth_lab.Prelude.{
  String, subst, ◌≡◌, true, Option, some, sym, ap, ◌∙◌, subst, inl, inr, arith, Option-cases,
  Bool-cases, contains,
}
use auth_lab.Prelude.Text.{truthy, is_nonempty}
use auth_lab.Json.{Fields}
use auth_lab.Oauth.Env.{Env}
use auth_lab.Oauth.Errors.{Result, ok, err}
use auth_lab.Oauth.Models.{Client}
use auth_lab.Oauth.Server.{AuthorizationServer}
use auth_lab.Oauth.Server.Authorize.{given}
use auth_lab.Oauth.Server.Authenticate.{authenticate_client}
use auth_lab.Oauth.Server.Mint.{TokenSet}
use auth_lab.Oauth.Server.Grants.Sender.{
  IsBound, Binds, grant_authorization_code-Binds, grant_refresh_token-Binds,
  grant_client_credentials-Binds, grant_device_code-Binds,
}
use auth_lab.Oauth.Server.Token.{
  TokenRequest, sender_certificate, sender_key, dispatch, serve_client, serve, token,
}
use auth_lab.Oauth.Server.Token.Proven.{
  continue-eq-ok, authenticate_client-SameChecker, Proves, Proves-SameChecker, sender_key-Proves,
}

Binds-ok :
    (key : Option String) (x : Result TokenSet × AuthorizationServer) {set : TokenSet}
    → Binds key x
    → x.0 ≡ ok set
    → IsBound key set x.1
Binds-ok key (ok r, t) b h = let same : r ≡ _ = ground arith in subst (λ q. IsBound key q t) same b
Binds-ok key (err e, t) b h = cc

dispatch-Binds :
    (env : Env) (grant_type : String) (c : Client) (r : TokenRequest) (jkt : Option String)
    (s : AuthorizationServer)
    → truthy jkt ≡ true
    → Binds jkt (dispatch env grant_type c r jkt s)
unfolding dispatch
dispatch-Binds env grant_type c r jkt s bound =
    let x5t = sender_certificate c r in
    ground (
      arith,
      grant_authorization_code-Binds env c r.params jkt x5t bound s,
      grant_refresh_token-Binds env c r.params jkt x5t bound s,
      grant_client_credentials-Binds env c r.params jkt x5t bound s,
      grant_device_code-Binds env c r.params jkt x5t bound s,
    )

serve_client-IsBound :
    (env : Env) (digests : (jwk : Fields) → is_nonempty (env.thumbprint jwk) ≡ true)
    (grant_type : String) (r : TokenRequest) (c : Client) (s : AuthorizationServer) {set : TokenSet}
    → c.require_dpop ≡ true
    → (serve_client env grant_type r c s).0 ≡ ok set
    → (jwk : Fields) × Proves env r s jwk
      × IsBound (some (env.thumbprint jwk)) set (serve_client env grant_type r c s).1
unfolding serve_client
serve_client-IsBound env digests grant_type r c s {set} strict h =
    elim (Bool-cases (contains c.grant_types grant_type)) [
      | inr barred ↦ let bad = rw (barred, serve_client) at h in cc
      | inl allowed ↦
          let now = rw (allowed, serve_client) at h in
          let (jkt, proven, goes) = continue-eq-ok (sender_key env c r s) _ now in
          let (jwk, proves, is) = sender_key-Proves env c r s strict proven in
          let bound = ap truthy is ∙ digests jwk in
          let answer = dispatch-Binds env grant_type c r jkt (sender_key env c r s).1 bound in
          let held = Binds-ok jkt _ answer (ap (λ x. x.0) (sym goes) ∙ now) in
          (
            jwk,
            proves,
            rw (allowed, serve_client)
                (subst (λ x. IsBound (some (env.thumbprint jwk)) set x.1) (sym goes)
                  (subst
                    (λ k.
                      IsBound k set (dispatch env grant_type c r jkt (sender_key env c r s).1).1)
                    is held)),
          )
    ]

-- The token endpoint answers a client that must use DPoP, in every grant, only if the request
-- carries a proof that passes: it is for a POST to this endpoint, its time is at most the
-- allowed age from the clock, it has an identifier, and it is signed, with ES256, by the public
-- key that its header names. The type of the tokens is DPoP, and the access token that is
-- returned is stored as bound to the thumbprint of that very key; a thumbprint is not empty.
pub token-IsBound :
    (env : Env) (digests : (jwk : Fields) → is_nonempty (env.thumbprint jwk) ≡ true)
    (r : TokenRequest) (s : AuthorizationServer) (c : Client) (set : TokenSet)
    → (authenticate_client env r.params r.basic_auth r.tls_client_cert_thumbprint s).0 ≡ ok c
    → c.require_dpop ≡ true
    → (token env r s).0 ≡ ok set
    → (jwk : Fields) × Proves env r s jwk
      × IsBound (some (env.thumbprint jwk)) set (token env r s).1
unfolding token serve
token-IsBound env digests r s c set known strict h =
    elim (Option-cases (given r.params "grant_type")) [
      | inl missing ↦ let bad = rw (missing, token, serve) at h in cc
      | inr (grant_type, asked) ↦
          let now = rw (asked, token, serve) at h in
          let t =
            (authenticate_client env r.params r.basic_auth r.tls_client_cert_thumbprint s).1 in
          let (client, found, goes) =
            continue-eq-ok
              (authenticate_client env r.params r.basic_auth r.tls_client_cert_thumbprint s) _
              now in
          let same =
            authenticate_client-SameChecker env r.params r.basic_auth r.tls_client_cert_thumbprint
              s in
          let (jwk, proves, held) =
            serve_client-IsBound env digests grant_type r client t (ground arith)
              (ap (λ x. x.0) (sym goes) ∙ now) in
          (
            jwk,
            Proves-SameChecker env r s t jwk same proves,
            rw (asked, token, serve)
                (subst (λ x. IsBound (some (env.thumbprint jwk)) set x.1) (sym goes) held),
          )
    ]
