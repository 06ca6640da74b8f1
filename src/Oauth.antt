-- ===== src/Oauth.antt =====
-- authlab/oauth: the authorization server and the checks that it is made of.
pub mod Errors
pub mod Exec
pub mod Env
pub mod Models
pub mod Dpop
pub mod Pkce
pub mod Rar
pub mod Server
