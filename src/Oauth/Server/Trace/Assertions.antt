-- ===== src/Oauth/Server/Trace/Assertions.antt =====
-- An assertion that has authenticated a client never authenticates one again.
use auth_lab.Prelude.{ℕ, String, ◌≡◌, ◌≢◌, refl, ap, true, false, Option, some, arith, eq_iff}
use auth_lab.Json.{Fields, member, as_str}
use auth_lab.Dict.{Dict, get, has}
use auth_lab.Dict.Laws.{get-set}
use auth_lab.Oauth.Env.{Env}
use auth_lab.Oauth.Errors.{Result, ok, err, >>=-eq-ok}
use auth_lab.Oauth.Models.{Client, log, revoke_refresh_family}
use auth_lab.Oauth.Server.{AuthorizationServer, draw_token, advance}
use auth_lab.Oauth.Server.Authorize.{register_client, register_user, issue_authorization_code}
use auth_lab.Oauth.Server.Authenticate.{
  open_assertion, check_claims, check_assertion, verify_client_assertion, authenticate_as,
  authenticate_client, credentials, named_client,
}
use auth_lab.Oauth.Server.Grants.{
  grant_authorization_code, grant_refresh_token, grant_client_credentials, grant_device_code,
}
use auth_lab.Oauth.Server.Grants.Cache.{
  grant_authorization_code-seen, grant_refresh_token-seen, grant_client_credentials-seen,
  grant_device_code-seen,
}
use auth_lab.Oauth.Server.Token.{TokenRequest, token, sender_key, verify_dpop}
use auth_lab.Oauth.Server.Device.{device_authorization, approve_device, deny_device}
use auth_lab.Oauth.Server.Inspect.{revoke, revoke_refresh}
use auth_lab.Oauth.Server.Trace.{
  Step, clock, client, user, code, tokens, device, approve, deny, revocation, Reach, here, next,
}
use auth_lab.Oauth.Server.Trace.Keeps.{each_keeps}

-- The `jti` is in the cache of the server.
abbrev pub HasSeen : String → AuthorizationServer → Type 0
HasSeen jti s = has s.store.seen_jtis jti ≡ true

check_claims-fresh :
    (s : AuthorizationServer) (c : Client) (claims : Fields) (jti : String) (exp : ℕ)
    → check_claims s c claims ≡ ok (jti, exp)
    → (as_str (member "jti" claims) ≡ some jti) × (has s.store.seen_jtis jti ≡ false)
unfolding check_claims
check_claims-fresh s c claims jti exp h = (ground arith, ground arith)

-- An accepted assertion carries a `jti` that was not seen, and is seen afterwards.
verify_client_assertion-ok :
    (env : Env) (c : Client) (params : Dict String) (s : AuthorizationServer)
    → (verify_client_assertion env c params s).0 ≡ ok tt
    → (claims : Fields) × (jti : String) × (open_assertion env c params ≡ ok claims)
      × (as_str (member "jti" claims) ≡ some jti)
      × (has s.store.seen_jtis jti ≡ false)
      × HasSeen jti (verify_client_assertion env c params s).1
unfolding verify_client_assertion check_assertion
verify_client_assertion-ok env c params s h = go (check_assertion env c params s) refl
  where
    go :
        (r : Result (String × ℕ))
        → check_assertion env c params s ≡ r
        → (claims : Fields) × (jti : String) × (open_assertion env c params ≡ ok claims)
          × (as_str (member "jti" claims) ≡ some jti)
          × (has s.store.seen_jtis jti ≡ false)
          × HasSeen jti (verify_client_assertion env c params s).1
    go (err e) q = ground arith
    go (ok (jti, exp)) q =
        let (claims, opened, checked) = >>=-eq-ok (open_assertion env c params) _ q in
        let (named, fresh) = check_claims-fresh s c claims jti exp checked in
        (
          claims,
          jti,
          opened,
          named,
          fresh,
          ground (arith, get-set s.store.seen_jtis jti exp jti, eq_iff jti jti),
        )

-- The same assertion under the same keys has the same claims.
open_assertion-same :
    (env : Env) (c c' : Client) (params params' : Dict String) (claims claims' : Fields)
    → get params "client_assertion" ≡ get params' "client_assertion"
    → c.jwks ≡ c'.jwks
    → open_assertion env c params ≡ ok claims
    → open_assertion env c' params' ≡ ok claims'
    → claims ≡ claims'
unfolding open_assertion
open_assertion-same env c c' params params' claims claims' same keys h h' = ground arith

module _ (env : Env) (jti : String) where
  verify_client_assertion-HasSeen :
      (c : Client) (params : Dict String) (s : AuthorizationServer)
      → HasSeen jti s
      → HasSeen jti (verify_client_assertion env c params s).1
  unfolding verify_client_assertion
  verify_client_assertion-HasSeen c params s p = go (check_assertion env c params s) refl
    where
      go :
          (r : Result (String × ℕ))
          → check_assertion env c params s ≡ r
          → HasSeen jti (verify_client_assertion env c params s).1
      go (err e) q = ground arith
      go (ok (j, exp)) q = ground (arith, get-set s.store.seen_jtis j exp jti)

  authenticate_as-HasSeen :
      (c : Client) (secret : String) (params : Dict String) (tls : Option String)
      (s : AuthorizationServer)
      → HasSeen jti s
      → HasSeen jti (authenticate_as env c secret params tls s).1
  unfolding authenticate_as
  authenticate_as-HasSeen c secret params tls s p =
      ground (arith, verify_client_assertion-HasSeen c params s p)

  authenticate_client-HasSeen :
      (params : Dict String) (basic : Option (String × String)) (tls : Option String)
      (s : AuthorizationServer)
      → HasSeen jti s
      → HasSeen jti (authenticate_client env params basic tls s).1
  unfolding authenticate_client
  authenticate_client-HasSeen params basic tls s p =
      let (id, secret) = credentials params basic in go (named_client id s) refl
    where
      go :
          (r : Result Client)
          → named_client (credentials params basic).0 s ≡ r
          → HasSeen jti (authenticate_client env params basic tls s).1
      go (err e) q = ground arith
      go (ok c) q =
          ground (arith, authenticate_as-HasSeen c (credentials params basic).1 params tls s p)

sender_key-seen :
    (env : Env) (c : Client) (r : TokenRequest) (s : AuthorizationServer)
    → (sender_key env c r s).1.store.seen_jtis ≡ s.store.seen_jtis
unfolding sender_key verify_dpop
sender_key-seen env c r s = ground arith

module _ (env : Env) (jti : String) where
  SameCache-HasSeen :
      (s t : AuthorizationServer)
      → t.store.seen_jtis ≡ s.store.seen_jtis
      → HasSeen jti s
      → HasSeen jti t
  SameCache-HasSeen s t same p = ground arith

  token-HasSeen :
      (s : AuthorizationServer) (r : TokenRequest) → HasSeen jti s → HasSeen jti (token env r s).1
  token-HasSeen s r =
      each_keeps env (HasSeen jti) (authenticate_client-HasSeen env jti)
        (λ c r s. SameCache-HasSeen s (sender_key env c r s).1 (sender_key-seen env c r s))
        (λ c params jkt x5t s p. (
          SameCache-HasSeen s (grant_authorization_code env c params jkt x5t s).1
              (grant_authorization_code-seen env c params jkt x5t s) p,
          SameCache-HasSeen s (grant_refresh_token env c params jkt x5t s).1
              (grant_refresh_token-seen env c params jkt x5t s) p,
          SameCache-HasSeen s (grant_client_credentials env c params jkt x5t s).1
              (grant_client_credentials-seen env c params jkt x5t s) p,
          SameCache-HasSeen s (grant_device_code env c params jkt x5t s).1
              (grant_device_code-seen env c params jkt x5t s) p,
        ))
        r s

  Step-HasSeen : {s t : AuthorizationServer} → Step env s t → HasSeen jti s → HasSeen jti t
  unfolding advance register_client register_user issue_authorization_code draw_token
      device_authorization approve_device deny_device revoke revoke_refresh revoke_refresh_family
      log
  Step-HasSeen (clock s seconds) p = p
  Step-HasSeen (client s t c h) p = ground arith
  Step-HasSeen (user s u) p = p
  Step-HasSeen (code s v subject amr auth_time) p = ground arith
  Step-HasSeen (tokens s r) p = token-HasSeen s r p
  Step-HasSeen (device s params) p = ground arith
  Step-HasSeen (approve s user_code subject amr) p = grind arith
  Step-HasSeen (deny s user_code) p = grind arith
  Step-HasSeen (revocation s v c) p = grind arith

  Reach-HasSeen : {s t : AuthorizationServer} → HasSeen jti s → Reach env s t → HasSeen jti t
  Reach-HasSeen p here = p
  Reach-HasSeen p (next r st) = Step-HasSeen st (Reach-HasSeen p r)

-- A client assertion that was accepted is refused from then on, also where it is presented for
-- another client with the same keys, after whatever calls of the server's operations.
pub assertion_once :
    (env : Env) (s t : AuthorizationServer) (c c' : Client) (params params' : Dict String)
    → get params "client_assertion" ≡ get params' "client_assertion"
    → c.jwks ≡ c'.jwks
    → (verify_client_assertion env c params s).0 ≡ ok tt
    → Reach env (verify_client_assertion env c params s).1 t
    → (verify_client_assertion env c' params' t).0 ≢ ok tt
assertion_once env s t c c' params params' same keys first reach again =
    let (claims, jti, opened, named, _, seen) = verify_client_assertion-ok env c params s first in
    let (claims', jti', opened', named', fresh, _) =
      verify_client_assertion-ok env c' params' t again in
    let one = open_assertion-same env c c' params params' claims claims' same keys opened opened' in
    let still = Reach-HasSeen env jti seen reach in
    let id : some jti ≡ some jti' =
      cc (named, named', ap (λ (o : Fields). as_str (member "jti" o)) one) in
    ground arith
