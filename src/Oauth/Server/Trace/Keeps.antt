-- ===== src/Oauth/Server/Trace/Keeps.antt =====
-- A rule for invariants of the server: what the grants and the other writers keep, every call keeps.
use auth_lab.Prelude.{
  ◌≤◌, String, ◌≡◌, refl, Bool, true, false, Option, none, some, arith, contains, str_eq,
  if◌then◌else◌,
}
use auth_lab.Dict.{Dict}
use auth_lab.Oauth.Env.{Env}
use auth_lab.Oauth.Errors.{Result, ok, err, oauth, unsupported_grant_type, unauthorized_client}
use auth_lab.Oauth.Exec.{Exec, continue}
use auth_lab.Oauth.Models.{Client}
use auth_lab.Oauth.Server.{AuthorizationServer}
use auth_lab.Oauth.Server.Authorize.{given}
use auth_lab.Oauth.Server.Authenticate.{
  authenticate_client, authenticate_as, credentials, verify_client_assertion, named_client,
}
use auth_lab.Oauth.Server.Grants.{
  grant_authorization_code, grant_refresh_token, grant_client_credentials, grant_device_code,
}
use auth_lab.Oauth.Server.Mint.{TokenSet}
use auth_lab.Oauth.Server.Token.{
  TokenRequest, token, serve, serve_client, dispatch, sender_certificate, sender_key, verify_dpop,
}

-- The two states hold the same codes and tokens, and no draw was taken back.
pub record SameTokens (s t : AuthorizationServer) : Type 0 where
  pub codes : t.store.codes ≡ s.store.codes
  pub access_tokens : t.store.access_tokens ≡ s.store.access_tokens
  pub refresh_tokens : t.store.refresh_tokens ≡ s.store.refresh_tokens
  pub draws : s.draws ≤ t.draws

verify_client_assertion-SameTokens :
    (env : Env) (client : Client) (params : Dict String) (s : AuthorizationServer)
    → SameTokens s (verify_client_assertion env client params s).1
unfolding verify_client_assertion
verify_client_assertion-SameTokens env client params s = ground arith

authenticate_as-SameTokens :
    (env : Env) (client : Client) (secret : String) (params : Dict String) (tls : Option String)
    (s : AuthorizationServer)
    → SameTokens s (authenticate_as env client secret params tls s).1
unfolding authenticate_as
authenticate_as-SameTokens env client secret params tls s =
    ground (arith, verify_client_assertion-SameTokens env client params s)

pub authenticate_client-SameTokens :
    (env : Env) (params : Dict String) (basic : Option (String × String)) (tls : Option String)
    (s : AuthorizationServer)
    → SameTokens s (authenticate_client env params basic tls s).1
unfolding authenticate_client
authenticate_client-SameTokens env params basic tls s =
    let (id, secret) = credentials params basic in
    elim (named_client id s)
      as (λ r.
        SameTokens s
          (elim r as (λ _. Result Client × AuthorizationServer) [
            | ok client ↦ authenticate_as env client secret params tls s
            | err e ↦ (err e, s)
          ]).1) [
            | ok client ↦ authenticate_as-SameTokens env client secret params tls s
            | err e ↦ record {
              codes = refl;
              access_tokens = refl;
              refresh_tokens = refl;
              draws = omega arith;
            }
          ]

pub sender_key-SameTokens :
    (env : Env) (client : Client) (r : TokenRequest) (s : AuthorizationServer)
    → SameTokens s (sender_key env client r s).1
unfolding sender_key verify_dpop
sender_key-SameTokens env client r s = ground arith

-- What is said of the state that a call leaves, whatever it answers.
module _ (env : Env) (P : AuthorizationServer → Type 0)
    (authenticates : (params : Dict String) (basic : Option (String × String)) (tls : Option String)
        (s : AuthorizationServer)
      → P s
      → P (authenticate_client env params basic tls s).1)
    (sends : (client : Client) (r : TokenRequest) (s : AuthorizationServer)
      → P s
      → P (sender_key env client r s).1)
    (grants : (client : Client) (params : Dict String) (jkt x5t : Option String)
        (s : AuthorizationServer)
      → P s
      → P (grant_authorization_code env client params jkt x5t s).1
        × P (grant_refresh_token env client params jkt x5t s).1
        × P (grant_client_credentials env client params jkt x5t s).1
        × P (grant_device_code env client params jkt x5t s).1) where
  if-keeps :
      (b : Bool) (x y : Result TokenSet × AuthorizationServer)
      → P x.1
      → P y.1
      → P (if b then x else y).1
  if-keeps true x y p q = p
  if-keeps false x y p q = q

  bind-keeps :
      {A : Type 0} (x : Result A × AuthorizationServer) (f : A → Exec AuthorizationServer TokenSet)
      → P x.1
      → ((a : A) (t : AuthorizationServer) → P t → P (f a t).1)
      → P (continue x f).1
  bind-keeps (ok a, t) f p k = k a t p
  bind-keeps (err e, t) f p k = p

  dispatch-keeps :
      (grant_type : String) (client : Client) (r : TokenRequest) (jkt : Option String)
      (s : AuthorizationServer)
      → P s
      → P (dispatch env grant_type client r jkt s).1
  unfolding dispatch
  dispatch-keeps grant_type client r jkt s p =
      let x5t = sender_certificate client r in
      let (a, b, c, d) = grants client r.params jkt x5t s p in
      let code = grant_authorization_code env client r.params jkt x5t s in
      let refresh = grant_refresh_token env client r.params jkt x5t s in
      let machine = grant_client_credentials env client r.params jkt x5t s in
      let device = grant_device_code env client r.params jkt x5t s in
      let nothing : Result TokenSet × AuthorizationServer =
        (err (oauth unsupported_grant_type), s) in
      let is_device = str_eq grant_type "urn:ietf:params:oauth:grant-type:device_code" in
      let or_device = if is_device then device else nothing in
      let is_machine = str_eq grant_type "client_credentials" in
      let or_machine = if is_machine then machine else or_device in
      let is_refresh = str_eq grant_type "refresh_token" in
      if-keeps (str_eq grant_type "authorization_code") code
        (if is_refresh then refresh else or_machine) a
        (if-keeps is_refresh refresh or_machine b
          (if-keeps is_machine machine or_device c (if-keeps is_device device nothing d p)))

  serve_client-keeps :
      (grant_type : String) (r : TokenRequest) (client : Client) (s : AuthorizationServer)
      → P s
      → P (serve_client env grant_type r client s).1
  unfolding serve_client
  serve_client-keeps grant_type r client s p =
      let goes_on = λ (jkt : Option String). dispatch env grant_type client r jkt in
      if-keeps (contains client.grant_types grant_type)
        (continue (sender_key env client r s) goes_on) (err (oauth unauthorized_client), s)
        (bind-keeps (sender_key env client r s) goes_on (sends client r s p)
          (λ jkt. dispatch-keeps grant_type client r jkt))
        p

  serve-keeps :
      (r : TokenRequest) (o : Option String) (s : AuthorizationServer) → P s → P (serve env r o s).1
  unfolding serve
  serve-keeps r none s p = p
  serve-keeps r (some grant_type) s p =
      let basic = r.basic_auth in
      let tls = r.tls_client_cert_thumbprint in
      bind-keeps (authenticate_client env r.params basic tls s) (serve_client env grant_type r)
        (authenticates r.params basic tls s p) (λ client. serve_client-keeps grant_type r client)

  pub each_keeps : (r : TokenRequest) (s : AuthorizationServer) → P s → P (token env r s).1
  unfolding token
  each_keeps r = serve-keeps r (given r.params "grant_type")

-- For what only depends on codes and tokens, the grants are left.
pub token-keeps :
    (env : Env) (P : AuthorizationServer → Type 0)
    → ((s t : AuthorizationServer) → SameTokens s t → P s → P t)
    → ((client : Client) (params : Dict String) (jkt x5t : Option String) (s : AuthorizationServer)
        → P s
        → P (grant_authorization_code env client params jkt x5t s).1
          × P (grant_refresh_token env client params jkt x5t s).1
          × P (grant_client_credentials env client params jkt x5t s).1
          × P (grant_device_code env client params jkt x5t s).1)
    → (r : TokenRequest) (s : AuthorizationServer) → P s
    → P (token env r s).1
token-keeps env P respects grants =
    each_keeps env P
      (λ params basic tls s.
        respects s (authenticate_client env params basic tls s).1
          (authenticate_client-SameTokens env params basic tls s))
      (λ client r s.
        respects s (sender_key env client r s).1 (sender_key-SameTokens env client r s))
      grants
