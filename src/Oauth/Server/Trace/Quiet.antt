-- ===== src/Oauth/Server/Trace/Quiet.antt =====
-- The calls that touch neither codes nor tokens.
use auth_lab.Prelude.{String, List, ◌≡◌, arith}
use auth_lab.Dict.{Dict}
use auth_lab.Oauth.Env.{Env}
use auth_lab.Oauth.Errors.{ok}
use auth_lab.Oauth.Models.{Client}
use auth_lab.Oauth.Server.{AuthorizationServer, draw_token}
use auth_lab.Oauth.Server.Authorize.{register_client}
use auth_lab.Oauth.Server.Device.{device_authorization, approve_device, deny_device}
use auth_lab.Oauth.Server.Trace.Keeps.{SameTokens}

pub register-SameTokens :
    (s t : AuthorizationServer) (c : Client) → register_client c s ≡ ok t → SameTokens s t
unfolding register_client
register-SameTokens s t c h = ground arith

pub device-SameTokens :
    (env : Env) (s : AuthorizationServer) (params : Dict String)
    → SameTokens s (device_authorization env params s).1
unfolding device_authorization draw_token
device-SameTokens env s params = ground arith

pub approve-SameTokens :
    (s : AuthorizationServer) (user_code subject : String) (amr : List String)
    → SameTokens s (approve_device user_code subject amr s).1
unfolding approve_device
approve-SameTokens s user_code subject amr = grind arith

pub deny-SameTokens :
    (s : AuthorizationServer) (user_code : String) → SameTokens s (deny_device user_code s).1
unfolding deny_device
deny-SameTokens s user_code = grind arith
