-- ===== src/Oauth/Server/Trace.antt =====
-- A server at work: every operation that changes its state, in any order, while the clock goes on.
pub mod Keeps
pub mod Quiet
pub mod Forever
pub mod Families
pub mod Assertions
use auth_lab.Prelude.{ℕ, String, Option, List, ◌≡◌}
use auth_lab.Dict.{Dict}
use auth_lab.Oauth.Env.{Env}
use auth_lab.Oauth.Errors.{Result, ok}
use auth_lab.Oauth.Models.{Client, User}
use auth_lab.Oauth.Dpop
use auth_lab.Oauth.Server.{AuthorizationServer, advance}
use auth_lab.Oauth.Server.Authorize.{
  Validated, register_client, register_user, issue_authorization_code,
}
use auth_lab.Oauth.Server.Token.{TokenRequest, token}
use auth_lab.Oauth.Server.Device.{device_authorization, approve_device, deny_device}
use auth_lab.Oauth.Server.Inspect.{revoke}

-- One call, whether it returns or raises.
pub data Step (env : Env) : AuthorizationServer → AuthorizationServer → Type 0 where
  clock : (s : AuthorizationServer) (seconds : ℕ) → Step env s (advance seconds s)
  client : (s t : AuthorizationServer) (c : Client) → register_client c s ≡ ok t → Step env s t
  user : (s : AuthorizationServer) (u : User) → Step env s (register_user u s)
  code :
      (s : AuthorizationServer) (v : Validated) (subject : String) (amr : List String)
      (auth_time : Option ℕ)
      → Step env s (issue_authorization_code env v subject amr auth_time s).1
  tokens : (s : AuthorizationServer) (r : TokenRequest) → Step env s (token env r s).1
  device :
      (s : AuthorizationServer) (params : Dict String)
      → Step env s (device_authorization env params s).1
  approve :
      (s : AuthorizationServer) (user_code subject : String) (amr : List String)
      → Step env s (approve_device user_code subject amr s).1
  deny : (s : AuthorizationServer) (user_code : String) → Step env s (deny_device user_code s).1
  revocation :
      (s : AuthorizationServer) (value : String) (c : Client) → Step env s (revoke value c s)

pub data Reach (env : Env) (s : AuthorizationServer) : AuthorizationServer → Type 0 where
  here : Reach env s s
  next : {t u : AuthorizationServer} → Reach env s t → Step env t u → Reach env s u
