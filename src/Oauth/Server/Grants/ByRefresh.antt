-- ===== src/Oauth/Server/Grants/ByRefresh.antt =====
-- `_grant_refresh_token`: the checks, the detection of reuse, and rotation.
use auth_lab.Prelude.{
  ℕ, String, Bool, true, false, Option, none, some, List, [], ◌∷◌, ◌||◌, not, ltb, is_empty, str_eq,
  if◌then◌else◌,
}
use auth_lab.Prelude.Text.{or_empty, split}
use auth_lab.Dict.{Dict, get, modify}
use auth_lab.Oauth.Env.{Env}
use auth_lab.Oauth.Errors.{
  invalid_request, invalid_grant, invalid_scope, invalid_dpop_proof, Result, ok, err, oauth,
  refuse_if, ◌>>◌,
}
use auth_lab.Oauth.Exec.{Exec}
use auth_lab.Oauth.Models.{
  Client, RefreshToken, Store, refresh_reuse, log, revoke_refresh_family,
  revoke_access_for_family_subject,
}
use auth_lab.Oauth.Server.{AuthorizationServer, with_store}
use auth_lab.Oauth.Server.Authorize.{given, outside}
use auth_lab.Oauth.Server.Mint.{Grant, TokenSet, issue_token_set}
use auth_lab.Oauth.Server.Grants.Parts.{first_of_list, wrong_key, return_set, or_text}

-- Scope may be narrowed on refresh, never widened.
unfoldable pub narrow_scope : List String → List String → Result (List String)
narrow_scope held [] = ok held
narrow_scope held (r ∷ requested) = do
  refuse_if (not (is_empty (outside held (r ∷ requested)))) invalid_scope
  ok (r ∷ requested)

-- The checks of a refresh token that is neither used nor revoked; the answer is the scope.
unfoldable pub check_refresh :
    Client → Dict String → Option String → Option String → ℕ → RefreshToken → Result (List String)
check_refresh client params cnf_jkt cnf_x5t now token = do
  refuse_if (not (str_eq token.client_id client.client_id)) invalid_grant
  refuse_if (ltb token.expires_at now) invalid_grant
  refuse_if (wrong_key token.cnf_jkt cnf_jkt) invalid_dpop_proof
  refuse_if (wrong_key token.cnf_x5t cnf_x5t) invalid_grant
  narrow_scope token.scope (split (or_empty (get params "scope")))

-- A token that was rotated or revoked is seen again: the family ends.
unfoldable pub reuse : RefreshToken → Store → Store
reuse token st =
    let (st', count) = revoke_refresh_family token.family_id st in
    log (refresh_reuse token.family_id count)
      (revoke_access_for_family_subject token.client_id token.subject st').0

abbrev pub refresh_grant :
    Client
    → RefreshToken
    → List String
    → Option String
    → Option String
    → Bool
    → Option String
    → AuthorizationServer
    → Grant
refresh_grant client token scope cnf_jkt cnf_x5t rotate family_id s = record {
  client = client;
  subject = some token.subject;
  scope = scope;
  nonce = none;
  amr = [];
  auth_time = 0;
  audience = first_of_list s.known_resources;
  cnf_jkt = or_text token.cnf_jkt cnf_jkt;
  cnf_x5t = or_text token.cnf_x5t cnf_x5t;
  include_refresh = rotate;
  family_id = family_id;
  issue_id_token = false;
  authorization_details = token.authorization_details;
}

abbrev pub mark_used : String → Store → Store
mark_used value st = record st {
  refresh_tokens = modify st.refresh_tokens value (λ t. record t { used = true });
}

-- `token.rotated_to = result["refresh_token"]`: the object that was read, which the dict still holds
-- unless the new value is its key.
abbrev pub mark_rotated : String → Option String → Store → Store
mark_rotated value none st = st
mark_rotated value (some new) st = if str_eq new value then st else record st {
  refresh_tokens = modify st.refresh_tokens value (λ t. record t { rotated_to = some new });
}

-- Rotation: the old token is used up, and a new one of its family takes its place.
unfoldable pub rotate :
    Env
    → Client
    → Option String
    → Option String
    → String
    → RefreshToken
    → List String
    → AuthorizationServer
    → TokenSet × AuthorizationServer
rotate env client cnf_jkt cnf_x5t value token scope s =
    let (result, t) =
      issue_token_set env
        (refresh_grant client token scope cnf_jkt cnf_x5t true (some token.family_id) s)
        (with_store (mark_used value) s) in
    (result, with_store (mark_rotated value result.refresh_token) t)

-- What is done with a refresh token that is in the store.
unfoldable pub refresh :
    Env
    → Client
    → Dict String
    → Option String
    → Option String
    → String
    → RefreshToken
    → Exec AuthorizationServer TokenSet
refresh env client params cnf_jkt cnf_x5t value token s =
    if token.used || token.revoked
    then (err (oauth invalid_grant), with_store (reuse token) s)
    else elim (check_refresh client params cnf_jkt cnf_x5t s.now token) [
      | err e ↦ (err e, s)
      | ok scope ↦ return_set (
          if client.rotate_refresh_tokens
          then rotate env client cnf_jkt cnf_x5t value token scope s
          else issue_token_set env (refresh_grant client token scope cnf_jkt cnf_x5t false none s)
              s)
    ]

-- `_grant_refresh_token`
unfoldable pub grant_refresh_token :
    Env → Client → Dict String → Option String → Option String → Exec AuthorizationServer TokenSet
grant_refresh_token env client params cnf_jkt cnf_x5t s = elim (given params "refresh_token") [
  | none ↦ (err (oauth invalid_request), s)
  | some value ↦ elim (get s.store.refresh_tokens value) [
    | none ↦ (err (oauth invalid_grant), s)
    | some token ↦ refresh env client params cnf_jkt cnf_x5t value token s
  ]
]
