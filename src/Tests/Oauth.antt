-- ===== src/Tests/Oauth.antt =====
-- The authorization server's theorems at the toy server.
use auth_lab.Prelude.{String, true, false, none, some, List, ◌≡◌, ◌≢◌, ◌↔◌, refl, arith}
use auth_lab.Dict.{get, modify, set, map_values, drop_values}
use auth_lab.Json.{member}
use auth_lab.Url.{
  urlsplit, upper, lower, to_upper, to_lower, unsplit_base, split_scheme, split_netloc, is_scheme,
  all_scheme_chars, strip_left, drop_unsafe, span_until,
}
use auth_lab.Oauth.Env.{random_token, b64u_encode}
use auth_lab.Oauth.Errors.{ok, err, oauth, invalid_grant}
use auth_lab.Oauth.Dpop
use auth_lab.Oauth.Dpop.Replay.{verify_once, rest}
use auth_lab.Oauth.Pkce
use auth_lab.Oauth.Pkce.Shape.{IsVerifier}
use auth_lab.Oauth.Pkce.Binding.{verify_iff}
use auth_lab.Oauth.Models.{
  AuthorizationCode, RefreshToken, count_values, log, revoke_refresh_family,
  revoke_access_for_family_subject,
}
use auth_lab.Oauth.Pkce.{matches_from, matches_pattern}
use auth_lab.Prelude.Text.{split, join}
use auth_lab.Oauth.Server.{draw_token}
use auth_lab.Oauth.Server.Authorize.{
  given, validate_authorization_request, check_redirect_uri, check_scope, check_challenge,
  check_resources, check_details,
}
use auth_lab.Oauth.Server.Authorize.Accepts.{IsAccepted, validate_authorization_request-ok}
use auth_lab.Oauth.Server.Mint.{
  access_value, new_access, mint_access, mint_refresh, maybe_refresh, maybe_id_token,
  issue_token_set,
}
use auth_lab.Oauth.Server.Grants.{
  check_pkce, check_code, use_code, redeem, grant_authorization_code, narrow_scope, check_refresh,
  reuse, rotate, refresh, grant_refresh_token,
}
use auth_lab.Oauth.Server.Grants.Code.{Redeemable, IsUsed, grant_authorization_code-ok}
use auth_lab.Oauth.Server.Grants.Replay.{AllRevoked, grant_authorization_code-replay}
use auth_lab.Oauth.Server.Grants.Refresh.{Honoured, grant_refresh_token-ok}
use auth_lab.Oauth.Server.Grants.Family.{IsDead, grant_refresh_token-reuse}
use auth_lab.Oauth.Server.Trace.{here}
use auth_lab.Oauth.Server.Trace.Forever.{code_once}
use auth_lab.Oauth.Server.Trace.Families.{family_ended}
use auth_lab.Tests.Toy.{
  toy, toy_verifier, app, toy_server, code_record, refresh_record, code_params, refresh_params,
  authorize_params, the_verifier, toy_tokens, accepted,
}

verify_once_example :
    (Dpop.verify toy 1200 "h.p.s" "POST" "https://as.example/token" none none
      (Dpop.verify toy 1000 "h.p.s" "POST" "https://as.example/token" none none toy_verifier).1).0
    ≢ ok "thumb"
unfolding Dpop.verify Dpop.check_proof Dpop.open_proof Dpop.open_segments Dpop.split_dots
    Dpop.check_header Dpop.ec_public_from_jwk Dpop.check_payload Dpop.normalize_htu Dpop.admit
    Dpop.remember Dpop.purge Dpop.check_nonce Dpop.check_ath Dpop.check_binding member urlsplit
    upper lower to_upper to_lower unsplit_base split_scheme split_netloc is_scheme all_scheme_chars
    strip_left drop_unsafe span_until get set drop_values
verify_once_example =
    verify_once toy toy_verifier _ 1000 1200 "h.p.s" "POST" "https://as.example/token" "POST"
      "https://as.example/token" none none none none "thumb" "thumb" refl (rest (omega arith))

verify_iff_example : (Pkce.verify toy the_verifier "AQID" "S256" false ≡ ok tt) ↔ (
    (◌≡◌ {A = String} "S256" "S256")
    × IsVerifier the_verifier
    × (b64u_encode (toy.sha256 the_verifier) ≡ "AQID"))
verify_iff_example = verify_iff toy the_verifier "AQID" "S256"

grant_authorization_code-ok_example :
    (value : String) × (code : AuthorizationCode) × (given code_params "code" ≡ some value)
    × (get (toy_server false).store.codes value ≡ some code)
    × Redeemable toy app code_params none 1000 code
    × IsUsed (
        get
          (grant_authorization_code toy app code_params none none (toy_server false)).1.store.codes
          value)
unfolding grant_authorization_code redeem use_code check_code check_pkce Pkce.verify matches_pattern
    matches_from issue_token_set mint_access access_value new_access mint_refresh maybe_refresh
    maybe_id_token draw_token random_token b64u_encode get modify set log
grant_authorization_code-ok_example =
    grant_authorization_code-ok toy app code_params none none (toy_server false) refl

grant_authorization_code-replay_example :
    ((grant_authorization_code toy app code_params none none (toy_server true)).0
      ≡ err (oauth invalid_grant))
    × AllRevoked "app" "u1"
        (grant_authorization_code toy app code_params none none (toy_server true)).1.store
unfolding get
grant_authorization_code-replay_example =
    grant_authorization_code-replay toy app code_params none none (toy_server true) "the-code"
      (code_record true) refl refl refl

code_once_example :
    (grant_authorization_code toy app code_params none none
      (grant_authorization_code toy app code_params none none (toy_server false)).1).0
    ≢ ok toy_tokens
unfolding grant_authorization_code redeem use_code check_code check_pkce Pkce.verify matches_pattern
    matches_from issue_token_set mint_access access_value new_access mint_refresh maybe_refresh
    maybe_id_token draw_token random_token b64u_encode get modify set log
code_once_example =
    code_once toy "the-code" (toy_server false) _ app app code_params code_params none none none
      none _ toy_tokens refl refl refl (λ i le e. cc) here

grant_refresh_token-ok_example :
    (value : String) × (token : RefreshToken) × (given refresh_params "refresh_token" ≡ some value)
    × (get (toy_server false).store.refresh_tokens value ≡ some token)
    × ((scope : List String) × (token.used ≡ false)
        × (token.revoked ≡ false)
        × Honoured app none none 1000 token scope
        × ("read" ≡ join scope))
unfolding grant_refresh_token refresh rotate check_refresh narrow_scope split issue_token_set
    mint_access access_value new_access mint_refresh maybe_refresh maybe_id_token draw_token get
    modify set log
grant_refresh_token-ok_example =
    grant_refresh_token-ok toy app refresh_params none none (toy_server false) refl

grant_refresh_token-reuse_example :
    ((grant_refresh_token toy app refresh_params none none (toy_server true)).0
      ≡ err (oauth invalid_grant))
    × IsDead "family-1"
        (grant_refresh_token toy app refresh_params none none
          (toy_server true)).1.store.refresh_tokens
unfolding get
grant_refresh_token-reuse_example =
    grant_refresh_token-reuse toy app refresh_params none none (toy_server true) "the-refresh"
      (refresh_record true) refl refl refl

family_ended_example :
    (grant_refresh_token toy app refresh_params none none
      (grant_refresh_token toy app refresh_params none none (toy_server true)).1).0
    ≢ ok toy_tokens
unfolding get grant_refresh_token refresh reuse revoke_refresh_family
    revoke_access_for_family_subject map_values count_values log random_token b64u_encode
family_ended_example =
    family_ended toy (toy_server true) _ app app refresh_params refresh_params none none none none
      "the-refresh" "the-refresh" (refresh_record true) _ toy_tokens refl refl refl (λ i le e. cc)
      here refl refl refl

validate_authorization_request-ok_example :
    IsAccepted toy authorize_params (toy_server false) accepted
unfolding validate_authorization_request check_redirect_uri check_scope check_challenge
    check_resources check_details split get
validate_authorization_request-ok_example =
    validate_authorization_request-ok toy authorize_params (toy_server false) accepted refl
