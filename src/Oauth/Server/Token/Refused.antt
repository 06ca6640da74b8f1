-- ===== src/Oauth/Server/Token/Refused.antt =====
-- What a token request that is refused leaves behind.
use auth_lab.Prelude.{
  ◌≡◌, String, Bool, true, false, Option, none, some, contains, str_eq, if◌then◌else◌,
}
use auth_lab.Oauth.Env.{Env}
use auth_lab.Oauth.Errors.{
  Exception, Result, ok, err, oauth, unsupported_grant_type, unauthorized_client,
}
use auth_lab.Oauth.Exec.{Exec, continue}
use auth_lab.Oauth.Models.{Client}
use auth_lab.Oauth.Server.{AuthorizationServer}
use auth_lab.Oauth.Server.Authorize.{given}
use auth_lab.Oauth.Server.Authenticate.{authenticate_client}
use auth_lab.Oauth.Server.Mint.{TokenSet}
use auth_lab.Oauth.Server.Grants.{
  grant_authorization_code, grant_refresh_token, grant_client_credentials, grant_device_code,
}
use auth_lab.Oauth.Server.Grants.Refusals.{
  IssuesNone, IssuesNone-refl, IssuesNone-trans, same_tokens, grant_authorization_code-refused,
  grant_refresh_token-refused, grant_client_credentials-refused, grant_device_code-refused,
}
use auth_lab.Oauth.Server.Token.{
  TokenRequest, token, serve, serve_client, dispatch, sender_certificate, sender_key,
}
use auth_lab.Oauth.Server.Trace.Keeps.{
  SameTokens, authenticate_client-SameTokens, sender_key-SameTokens,
}

-- The call started at `s`, and it issued nothing if it was refused with `e`.
abbrev Refuses :
    {A : Type 0} → AuthorizationServer → Exception → Result A × AuthorizationServer → Type 0
Refuses s e x = x.0 ≡ err e → IssuesNone s x.1

if-Refuses :
    (s : AuthorizationServer) (e : Exception) (b : Bool)
    (x y : Result TokenSet × AuthorizationServer)
    → Refuses s e x
    → Refuses s e y
    → Refuses s e (if b then x else y)
if-Refuses s e true x y p q = p
if-Refuses s e false x y p q = q

SameTokens-IssuesNone : (s t : AuthorizationServer) → SameTokens s t → IssuesNone s t
SameTokens-IssuesNone s t same = same_tokens s t same.access_tokens same.refresh_tokens

bind-Refuses :
    {A : Type 0} (s : AuthorizationServer) (e : Exception) (x : Result A × AuthorizationServer)
    (f : A → Exec AuthorizationServer TokenSet)
    → SameTokens s x.1
    → ((a : A) (t : AuthorizationServer) → Refuses t e (f a t))
    → Refuses s e (continue x f)
bind-Refuses s e (ok a, t) f same k h =
    IssuesNone-trans s t (f a t).1 (SameTokens-IssuesNone s t same) (k a t h)
bind-Refuses s e (err e', t) f same k h = SameTokens-IssuesNone s t same

module _ (env : Env) (e : Exception) where
  dispatch-refused :
      (grant_type : String) (client : Client) (r : TokenRequest) (jkt : Option String)
      (s : AuthorizationServer)
      → Refuses s e (dispatch env grant_type client r jkt s)
  unfolding dispatch
  dispatch-refused grant_type client r jkt s =
      let x5t = sender_certificate client r in
      let nothing : Result TokenSet × AuthorizationServer =
        (err (oauth unsupported_grant_type), s) in
      let device = grant_device_code env client r.params jkt x5t s in
      let is_device = str_eq grant_type "urn:ietf:params:oauth:grant-type:device_code" in
      let or_device = if is_device then device else nothing in
      let machine = grant_client_credentials env client r.params jkt x5t s in
      let is_machine = str_eq grant_type "client_credentials" in
      let or_machine = if is_machine then machine else or_device in
      let refresh = grant_refresh_token env client r.params jkt x5t s in
      let is_refresh = str_eq grant_type "refresh_token" in
      if-Refuses s e (str_eq grant_type "authorization_code")
        (grant_authorization_code env client r.params jkt x5t s)
        (if is_refresh then refresh else or_machine)
        (grant_authorization_code-refused env client r.params jkt x5t s)
        (if-Refuses s e is_refresh refresh or_machine
          (grant_refresh_token-refused env client r.params jkt x5t s)
          (if-Refuses s e is_machine machine or_device
            (grant_client_credentials-refused env client r.params jkt x5t s)
            (if-Refuses s e is_device device nothing
              (grant_device_code-refused env client r.params jkt x5t s) (λ h. IssuesNone-refl s))))

  serve_client-refused :
      (grant_type : String) (r : TokenRequest) (client : Client) (s : AuthorizationServer)
      → Refuses s e (serve_client env grant_type r client s)
  unfolding serve_client
  serve_client-refused grant_type r client s =
      let goes_on = λ (jkt : Option String). dispatch env grant_type client r jkt in
      if-Refuses s e (contains client.grant_types grant_type)
        (continue (sender_key env client r s) goes_on) (err (oauth unauthorized_client), s)
        (bind-Refuses s e (sender_key env client r s) goes_on (sender_key-SameTokens env client r s)
          (λ jkt. dispatch-refused grant_type client r jkt))
        (λ h. IssuesNone-refl s)

  serve-refused :
      (r : TokenRequest) (o : Option String) (s : AuthorizationServer)
      → Refuses s e (serve env r o s)
  unfolding serve
  serve-refused r none s = λ h. IssuesNone-refl s
  serve-refused r (some grant_type) s =
      let basic = r.basic_auth in
      let tls = r.tls_client_cert_thumbprint in
      bind-Refuses s e (authenticate_client env r.params basic tls s)
        (serve_client env grant_type r) (authenticate_client-SameTokens env r.params basic tls s)
        (λ client. serve_client-refused grant_type r client)

  -- A token request that is refused, for whatever reason, issues nothing: every access and refresh
  -- token that is stored and not revoked afterwards was stored before, as it is.
  pub token-refused :
      (r : TokenRequest) (s : AuthorizationServer)
      → (token env r s).0 ≡ err e
      → IssuesNone s (token env r s).1
  unfolding token
  token-refused r s = serve-refused r (given r.params "grant_type") s
