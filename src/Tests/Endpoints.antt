-- ===== src/Tests/Endpoints.antt =====
-- The other endpoints' theorems at the toy server.
use auth_lab.Prelude.{
  ◌≤◌, String, true, false, none, some, [], ◌∷◌, ◌≡◌, ◌≢◌, refl, arith, length, All,
}
use auth_lab.Dict.{get, set, remove}
use auth_lab.Json.{member, arr, items}
use auth_lab.Oauth.Errors.{ok, err, oauth, slow_down}
use auth_lab.Oauth.Models.{DeviceCode}
use auth_lab.Oauth.Rar.{
  validate_authorization_details, validate_value, check_details, check_detail, is_ascii,
  count_items, all_texts, texts_or_missing,
}
use auth_lab.Oauth.Rar.Details.{IsDetail, validate_authorization_details-ok}
use auth_lab.Oauth.Server.{draw_token, advance}
use auth_lab.Oauth.Server.Authenticate.{
  open_assertion, bad_lifetime, check_claims, check_assertion, verify_client_assertion,
}
use auth_lab.Oauth.Server.Authorize.{given}
use auth_lab.Oauth.Server.Mint.{
  access_value, new_access, mint_access, mint_refresh, maybe_refresh, maybe_id_token,
  issue_token_set,
}
use auth_lab.Oauth.Server.Mint.Bearer.{access_jti}
use auth_lab.Oauth.Server.Grants.{poll, grant_device_code}
use auth_lab.Oauth.Server.Grants.Devices.{IsApproved, grant_device_code-ok, grant_device_code-slow}
use auth_lab.Oauth.Server.Inspect.{Report, active, inactive, introspect, revoke}
use auth_lab.Oauth.Server.Inspect.Active.{
  Describes, introspect-issue_token_set, introspect-revoke, introspect-revoke_foreign,
}
use auth_lab.Oauth.Server.Trace.{here}
use auth_lab.Oauth.Server.Trace.Assertions.{assertion_once}
use auth_lab.Tests.Toy.{
  toy, app, toy_server, access_record, signing_app, assertion_params, device_record, device_server,
  device_params, toy_grant, payment,
}

assertion_once_example :
    (verify_client_assertion toy signing_app assertion_params
      (verify_client_assertion toy signing_app assertion_params (toy_server false)).1).0
    ≢ ok tt
unfolding verify_client_assertion check_assertion open_assertion check_claims bad_lifetime member
    get set
assertion_once_example =
    assertion_once toy (toy_server false)
      (verify_client_assertion toy signing_app assertion_params (toy_server false)).1 signing_app
      signing_app assertion_params assertion_params refl refl refl here

introspect-issue_token_set_example :
    (r : Report) × (introspect
        (issue_token_set toy toy_grant (toy_server false)).0.access_token
        (issue_token_set toy toy_grant (toy_server false)).1
      ≡ active r)
    × Describes toy_grant (access_jti toy toy_grant (toy_server false)) (toy_server false) r
introspect-issue_token_set_example = introspect-issue_token_set toy toy_grant (toy_server false)

introspect-revoke_example :
    introspect "the-access" (revoke "the-access" app (toy_server false)) ≡ inactive
unfolding get
introspect-revoke_example =
    introspect-revoke (toy_server false) "the-access" app access_record refl refl

introspect-revoke_foreign_example :
    introspect "the-access"
      (revoke "the-access" (record app { client_id = "other" }) (toy_server false))
    ≡ introspect "the-access" (toy_server false)
unfolding get
introspect-revoke_foreign_example =
    introspect-revoke_foreign (toy_server false) "the-access" "the-access"
      (record app { client_id = "other" }) access_record refl (λ e. cc)

grant_device_code-ok_example :
    (value : String) × (device : DeviceCode) × (given device_params "device_code" ≡ some value)
    × (get (device_server true).store.device_codes value ≡ some device)
    × IsApproved app 1000 device
    × (get
          (grant_device_code toy app device_params none none
            (device_server true)).1.store.device_codes
          value
        ≡ none)
unfolding grant_device_code poll issue_token_set mint_access access_value new_access mint_refresh
    maybe_refresh maybe_id_token draw_token get set remove
grant_device_code-ok_example =
    grant_device_code-ok toy app device_params none none (device_server true) refl

grant_device_code-slow_example :
    (grant_device_code toy app device_params none none
      (advance 2 (grant_device_code toy app device_params none none (device_server false)).1)).0
    ≡ err (oauth slow_down)
unfolding get
grant_device_code-slow_example =
    grant_device_code-slow toy app device_params none none (device_server false) "the-device"
      (device_record false) 2 refl refl refl
      (record { alive = omega arith; pending = refl; undenied = refl }) (omega arith) (omega arith)

validate_authorization_details-ok_example :
    (toy.json_loads "details" ≡ some (arr (items (payment ∷ []))))
    × All (IsDetail ("payment" ∷ [])) (payment ∷ [])
    × (1 ≤ length (payment ∷ []))
    × (length (payment ∷ []) ≤ 16)
unfolding validate_authorization_details validate_value check_details check_detail is_ascii
    count_items all_texts texts_or_missing member
validate_authorization_details-ok_example =
    validate_authorization_details-ok toy ("payment" ∷ []) "details" (payment ∷ []) refl
