-- ===== src/Oauth/Server/Grants/ByOthers.antt =====
-- `_grant_client_credentials` and `_grant_device_code`.
use auth_lab.Prelude.{
  ℕ, ◌+◌, String, Bool, true, false, Option, none, some, List, [], ◌&&◌, not, ltb, ◌==◌, is_empty,
  str_eq, if◌then◌else◌,
}
use auth_lab.Prelude.Text.{split, join}
use auth_lab.Dict.{Dict, get, modify, remove}
use auth_lab.Oauth.Env.{Env}
use auth_lab.Oauth.Errors.{
  invalid_request, invalid_grant, invalid_scope, unauthorized_client, expired_token, access_denied,
  slow_down, authorization_pending, Result, ok, err, oauth, refuse_if, ◌>>◌,
}
use auth_lab.Oauth.Exec.{Exec}
use auth_lab.Oauth.Models.{Client, is_public, DeviceCode, Store}
use auth_lab.Oauth.Server.{AuthorizationServer, with_store}
use auth_lab.Oauth.Server.Authorize.{given, get_or, outside}
use auth_lab.Oauth.Server.Mint.{Grant, TokenSet, issue_token_set}
use auth_lab.Oauth.Server.Grants.Parts.{first_of_list, return_set}

abbrev pub machine_grant :
    Client → List String → Option String → Option String → AuthorizationServer → Grant
machine_grant client scope cnf_jkt cnf_x5t s = record {
  client = client;
  subject = none;
  scope = scope;
  nonce = none;
  amr = [];
  auth_time = 0;
  audience = first_of_list s.known_resources;
  cnf_jkt = cnf_jkt;
  cnf_x5t = cnf_x5t;
  include_refresh = false;
  family_id = none;
  issue_id_token = false;
  authorization_details = [];
}

-- The scope of a machine client: what it asks for, or all that it is registered for.
unfoldable pub machine_scope : Client → Dict String → Result (List String)
machine_scope client params = do
  refuse_if (is_public client) unauthorized_client
  let scope = split (get_or (given params "scope") (join client.scopes))
  refuse_if (not (is_empty client.scopes) && not (is_empty (outside client.scopes scope)))
      invalid_scope
  ok scope

-- `_grant_client_credentials`
unfoldable pub grant_client_credentials :
    Env → Client → Dict String → Option String → Option String → Exec AuthorizationServer TokenSet
grant_client_credentials env client params cnf_jkt cnf_x5t s = elim (machine_scope client params) [
  | err e ↦ (err e, s)
  | ok scope ↦ return_set (issue_token_set env (machine_grant client scope cnf_jkt cnf_x5t s) s)
]

abbrev pub device_grant :
    Client → DeviceCode → Option String → Option String → AuthorizationServer → Grant
device_grant client device cnf_jkt cnf_x5t s = record {
  client = client;
  subject = device.subject;
  scope = device.scope;
  nonce = none;
  amr = device.amr;
  auth_time = s.now;
  audience = first_of_list s.known_resources;
  cnf_jkt = cnf_jkt;
  cnf_x5t = cnf_x5t;
  include_refresh = true;
  family_id = none;
  issue_id_token = true;
  authorization_details = [];
}

abbrev pub polled_at : String → ℕ → Store → Store
polled_at value now st = record st {
  device_codes = modify st.device_codes value (λ d. record d { last_polled_at = now });
}

abbrev pub too_soon : ℕ → DeviceCode → Bool
too_soon now d = not (d.last_polled_at == 0) && ltb now (d.last_polled_at + d.interval)

-- One poll for a device code that is in the store and belongs to the client.
unfoldable pub poll :
    Env
    → Client
    → Option String
    → Option String
    → String
    → DeviceCode
    → Exec AuthorizationServer TokenSet
poll env client cnf_jkt cnf_x5t value device s =
    if ltb device.expires_at s.now
    then (err (oauth expired_token), s)
    else if device.denied
    then (err (oauth access_denied), s)
    else if device.approved
    then return_set (
        issue_token_set env (device_grant client device cnf_jkt cnf_x5t s)
          (with_store (λ st. record st { device_codes = remove st.device_codes value }) s))
    else if too_soon s.now device
    then (err (oauth slow_down), with_store (polled_at value s.now) s)
    else (err (oauth authorization_pending), with_store (polled_at value s.now) s)

-- `_grant_device_code`
unfoldable pub grant_device_code :
    Env → Client → Dict String → Option String → Option String → Exec AuthorizationServer TokenSet
grant_device_code env client params cnf_jkt cnf_x5t s = elim (given params "device_code") [
  | none ↦ (err (oauth invalid_request), s)
  | some value ↦ elim (get s.store.device_codes value) [
    | none ↦ (err (oauth invalid_grant), s)
    | some device ↦
        if str_eq device.client_id client.client_id
        then poll env client cnf_jkt cnf_x5t value device s
        else (err (oauth invalid_grant), s)
  ]
]
