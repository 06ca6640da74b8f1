-- ===== src/Oauth/Server/Token.antt =====
-- `token`, the token endpoint: authentication, the sender's key, and the dispatch on the grant.
pub mod Proven
pub mod Constrained
pub mod Refused
use Prim.Native.String.{◌++◌}
use auth_lab.Prelude.{String, Option, none, some, contains, str_eq, if◌then◌else◌}
use auth_lab.Prelude.Text.{is_nonempty}
use auth_lab.Dict.{Dict}
use auth_lab.Oauth.Env.{Env}
use auth_lab.Oauth.Errors.{
  invalid_request, unauthorized_client, invalid_dpop_proof, unsupported_grant_type, ok, err, oauth,
}
use auth_lab.Oauth.Exec.{Exec, pure, raise, ◌>>=◌}
use auth_lab.Oauth.Models.{Client}
use auth_lab.Oauth.Dpop
use auth_lab.Oauth.Server.{AuthorizationServer}
use auth_lab.Oauth.Server.Authorize.{given}
use auth_lab.Oauth.Server.Authenticate.{authenticate_client}
use auth_lab.Oauth.Server.Mint.{TokenSet}
use auth_lab.Oauth.Server.Grants.{
  grant_authorization_code, grant_refresh_token, grant_client_credentials, grant_device_code,
}

-- A token request: the form, and what the transport adds to it.
pub record TokenRequest : Type 0 where
  pub params : Dict String
  pub basic_auth : Option (String × String)
  pub dpop_proof : Option String
  pub token_endpoint_url : Option String
  pub tls_client_cert_thumbprint : Option String

-- `token_endpoint_url or f"{self.issuer}/token"`
abbrev pub endpoint_url : TokenRequest → String → String
endpoint_url r issuer = url r.token_endpoint_url
  where
    url : Option String → String
    url none = issuer ++ "/token"
    url (some u) = if is_nonempty u then u else issuer ++ "/token"

-- `self.dpop.verify(proof, "POST", url)`
unfoldable pub verify_dpop : Env → String → String → Exec AuthorizationServer String
verify_dpop env proof url s =
    let (r, v) = Dpop.verify env s.now proof "POST" url none none s.dpop in
    (r, record s { dpop = v })

-- The thumbprint of the key that the request proves, if it proves one.
unfoldable pub sender_key : Env → Client → TokenRequest → Exec AuthorizationServer (Option String)
sender_key env client r s = elim r.dpop_proof [
  | none ↦ if client.require_dpop then (err (oauth invalid_dpop_proof), s) else (ok none, s)
  | some proof ↦ (do jkt ← verify_dpop env proof (endpoint_url r s.issuer); pure (some jkt)) s
]

abbrev pub sender_certificate : Client → TokenRequest → Option String
sender_certificate client r =
    if client.tls_client_certificate_bound_access_tokens then r.tls_client_cert_thumbprint else none

unfoldable pub dispatch :
    Env → String → Client → TokenRequest → Option String → Exec AuthorizationServer TokenSet
dispatch env grant_type client r cnf_jkt s =
    let cnf_x5t = sender_certificate client r in
    if str_eq grant_type "authorization_code"
    then grant_authorization_code env client r.params cnf_jkt cnf_x5t s
    else if str_eq grant_type "refresh_token"
    then grant_refresh_token env client r.params cnf_jkt cnf_x5t s
    else if str_eq grant_type "client_credentials"
    then grant_client_credentials env client r.params cnf_jkt cnf_x5t s
    else if str_eq grant_type "urn:ietf:params:oauth:grant-type:device_code"
    then grant_device_code env client r.params cnf_jkt cnf_x5t s
    else (err (oauth unsupported_grant_type), s)

-- The lines behind authentication.
unfoldable pub serve_client :
    Env → String → TokenRequest → Client → Exec AuthorizationServer TokenSet
serve_client env grant_type r client s =
    if contains client.grant_types grant_type
    then (do cnf_jkt ← sender_key env client r; dispatch env grant_type client r cnf_jkt) s
    else (err (oauth unauthorized_client), s)

unfoldable pub serve : Env → TokenRequest → Option String → Exec AuthorizationServer TokenSet
serve env r none = raise invalid_request
serve env r (some grant_type) = do
  client ← authenticate_client env r.params r.basic_auth r.tls_client_cert_thumbprint
  serve_client env grant_type r client

-- `token`
unfoldable pub token : Env → TokenRequest → Exec AuthorizationServer TokenSet
token env r = serve env r (given r.params "grant_type")
