-- ===== src/Oauth/Server/Grants/ByCode.antt =====
-- `_grant_authorization_code`: the checks, and what redeeming a code writes.
use auth_lab.Prelude.{
  ℕ, String, true, false, Option, none, some, ◌&&◌, not, ltb, str_eq, if◌then◌else◌,
}
use auth_lab.Prelude.Text.{is_nonempty}
use auth_lab.Dict.{Dict, get, modify, map_values}
use auth_lab.Oauth.Env.{Env, constant_time_equals}
use auth_lab.Oauth.Errors.{
  invalid_request, invalid_grant, invalid_dpop_proof, Result, ok, err, oauth, or_raise, refuse_if,
  ◌>>=◌, ◌>>◌,
}
use auth_lab.Oauth.Exec.{Exec}
use auth_lab.Oauth.Models.{
  Client, is_public, AuthorizationCode, Store, code_redeemed, code_replay, log,
  revoke_access_for_family_subject,
}
use auth_lab.Oauth.Pkce
use auth_lab.Oauth.Server.{AuthorizationServer, with_store}
use auth_lab.Oauth.Server.Authorize.{given, get_or}
use auth_lab.Oauth.Server.Mint.{Grant, TokenSet, issue_token_set}
use auth_lab.Oauth.Server.Grants.Parts.{first_of_list, or_else, wrong_key, return_set}

-- The checks of a code that was not used before.
unfoldable pub check_pkce : Env → Client → Dict String → AuthorizationCode → Result (Unit {0})
check_pkce env client params code = elim code.code_challenge [
  | none ↦ refuse_if (is_public client) invalid_grant
  | some challenge ↦
      if is_nonempty challenge
      then Pkce.verify env (get_or (get params "code_verifier") "") challenge
          code.code_challenge_method false
      else refuse_if (is_public client) invalid_grant
]

unfoldable pub check_code :
    Env → Client → Dict String → Option String → ℕ → AuthorizationCode → Result (Unit {0})
check_code env client params cnf_jkt now code = do
  refuse_if (not (str_eq code.client_id client.client_id)) invalid_grant
  refuse_if (ltb code.expires_at now) invalid_grant
  redirect_uri ← or_raise (get params "redirect_uri") invalid_grant
  refuse_if (not (constant_time_equals redirect_uri code.redirect_uri)) invalid_grant
  check_pkce env client params code
  refuse_if (wrong_key code.dpop_jkt cnf_jkt) invalid_dpop_proof

-- A second presentation: everything that the code's client and subject hold is revoked.
unfoldable pub replay_code : AuthorizationCode → Store → Store
replay_code code st =
    let (st', _) =
      revoke_access_for_family_subject code.client_id code.subject
        (log (code_replay code.subject) st) in
    record st' {
      refresh_tokens =
          map_values
            (λ t.
              if str_eq t.client_id code.client_id && str_eq t.subject code.subject
              then record t { revoked = true }
              else t)
            st'.refresh_tokens;
    }

-- `code.used = True`, and the entry of the audit trail
unfoldable pub use_code : String → AuthorizationCode → Client → Store → Store
use_code value code client st =
    log (code_redeemed code.subject client.client_id)
      (record st { codes = modify st.codes value (λ c. record c { used = true }) })

abbrev pub code_grant :
    Client → AuthorizationCode → Option String → Option String → AuthorizationServer → Grant
code_grant client code cnf_jkt cnf_x5t s = record {
  client = client;
  subject = some code.subject;
  scope = code.scope;
  nonce = code.nonce;
  amr = code.amr;
  auth_time = code.auth_time;
  audience = or_else code.resource (first_of_list s.known_resources);
  cnf_jkt = cnf_jkt;
  cnf_x5t = cnf_x5t;
  include_refresh = true;
  family_id = none;
  issue_id_token = true;
  authorization_details = code.authorization_details;
}

-- What is done with a code that is in the store.
unfoldable pub redeem :
    Env
    → Client
    → Dict String
    → Option String
    → Option String
    → String
    → AuthorizationCode
    → Exec AuthorizationServer TokenSet
redeem env client params cnf_jkt cnf_x5t value code s =
    if code.used
    then (err (oauth invalid_grant), with_store (replay_code code) s)
    else elim (check_code env client params cnf_jkt s.now code) [
      | err e ↦ (err e, s)
      | ok _ ↦ return_set (
          issue_token_set env (code_grant client code cnf_jkt cnf_x5t s)
            (with_store (use_code value code client) s))
    ]

-- `_grant_authorization_code`
unfoldable pub grant_authorization_code :
    Env → Client → Dict String → Option String → Option String → Exec AuthorizationServer TokenSet
grant_authorization_code env client params cnf_jkt cnf_x5t s = elim (given params "code") [
  | none ↦ (err (oauth invalid_request), s)
  | some value ↦ elim (get s.store.codes value) [
    | none ↦ (err (oauth invalid_grant), s)
    | some code ↦ redeem env client params cnf_jkt cnf_x5t value code s
  ]
]
