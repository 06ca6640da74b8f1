-- ===== src/Tests/Sender.antt =====
-- The token endpoint's theorems, on sender-constrained tokens and on refused requests, at the toy
-- server.
use auth_lab.Prelude.{refl, true, some}
use auth_lab.Prelude.Text.{split, is_space}
use auth_lab.Dict.{get, modify, set, drop_values}
use auth_lab.Json.{Fields, member}
use auth_lab.Url.{
  urlsplit, upper, lower, to_upper, to_lower, unsplit_base, split_scheme, split_netloc, is_scheme,
  all_scheme_chars, strip_left, drop_unsafe, span_until,
}
use auth_lab.Oauth.Dpop
use auth_lab.Oauth.Models.{log}
use auth_lab.Oauth.Server.{draw_token}
use auth_lab.Oauth.Server.Authenticate.{authenticate_client, authenticate_as, named_client}
use auth_lab.Oauth.Server.Mint.{
  access_value, new_access, mint_access, mint_refresh, maybe_refresh, maybe_id_token,
  issue_token_set,
}
use auth_lab.Oauth.Server.Grants.{rotate, refresh, check_refresh, narrow_scope, grant_refresh_token}
use auth_lab.Oauth.Server.Token.{token, serve, serve_client, dispatch, sender_key, verify_dpop}
use auth_lab.Oauth.Server.Token.Constrained.{token-IsBound}
use auth_lab.Oauth.Server.Token.Proven.{Proves}
use auth_lab.Oauth.Server.Grants.Sender.{IsBound}
use auth_lab.Oauth.Server.Token.Refused.{token-refused}
use auth_lab.Oauth.Server.Grants.Refusals.{IssuesNone}
use auth_lab.Oauth.Errors.{oauth, invalid_grant}
use auth_lab.Oauth.Env.{random_token, b64u_encode}
use auth_lab.Tests.Toy.{
  toy, strict_app, strict_server, strict_request, strict_tokens, toy_server, reused_request,
}

token-IsBound_example :
    (jwk : Fields) × Proves toy strict_request strict_server jwk
    × IsBound (some (toy.thumbprint jwk)) strict_tokens (token toy strict_request strict_server).1
unfolding token serve serve_client dispatch sender_key verify_dpop authenticate_client
    authenticate_as named_client grant_refresh_token refresh rotate check_refresh narrow_scope
    issue_token_set mint_access access_value new_access mint_refresh maybe_refresh maybe_id_token
    draw_token random_token b64u_encode log split is_space Dpop.verify Dpop.check_proof
    Dpop.open_proof Dpop.open_segments Dpop.split_dots Dpop.check_header Dpop.ec_public_from_jwk
    Dpop.check_payload Dpop.normalize_htu Dpop.admit Dpop.remember Dpop.purge Dpop.check_nonce
    Dpop.check_ath Dpop.check_binding member urlsplit upper lower to_upper to_lower unsplit_base
    split_scheme split_netloc is_scheme all_scheme_chars strip_left drop_unsafe span_until get set
    modify drop_values
token-IsBound_example =
    token-IsBound toy (λ jwk. refl) strict_request strict_server strict_app strict_tokens refl refl
      refl

token-refused_example : IssuesNone (toy_server true) (token toy reused_request (toy_server true)).1
unfolding token serve serve_client dispatch sender_key authenticate_client authenticate_as
    named_client grant_refresh_token refresh get
token-refused_example =
    token-refused toy (oauth invalid_grant) reused_request (toy_server true) refl
