-- ===== src/Oauth/Models.antt =====
-- authlab/oauth/models.py: the records of the authorization server and its in-memory store.
-- Fields that no operation of the server reads are left out (names, roles, notification endpoints).
use auth_lab.Prelude.{
  ℕ, ◌+◌, String, Bool, true, false, not, Option, none, some, List, [], ◌∷◌, ◌++◌, ◌&&◌, str_eq,
  if◌then◌else◌,
}
use auth_lab.Dict.{Dict, map_values}
use auth_lab.Json.{Json}

pub record Client : Type 0 where
  pub client_id : String
  pub client_secret : Option String
  pub redirect_uris : List String
  pub grant_types : List String
  pub response_types : List String
  pub scopes : List String
  pub token_endpoint_auth_method : String
  pub require_pkce : Bool
  pub tls_client_certificate_bound_access_tokens : Bool
  pub require_dpop : Bool
  pub jwks : Option Json
  pub rotate_refresh_tokens : Bool

abbrev pub is_public : Client → Bool
is_public c = str_eq c.token_endpoint_auth_method "none"

pub record User : Type 0 where
  pub subject : String
  pub username : String
  pub email : String
  pub name : String
  pub email_verified : Bool

pub record AuthorizationCode : Type 0 where
  pub code : String
  pub client_id : String
  pub subject : String
  pub redirect_uri : String
  pub scope : List String
  pub expires_at : ℕ
  pub code_challenge : Option String
  pub code_challenge_method : String
  pub nonce : Option String
  pub amr : List String
  pub auth_time : ℕ
  pub used : Bool
  pub resource : List String
  pub dpop_jkt : Option String
  pub authorization_details : List Json

pub record AccessToken : Type 0 where
  pub token : String
  pub client_id : String
  pub subject : Option String
  pub scope : List String
  pub expires_at : ℕ
  pub issued_at : ℕ
  pub token_type : String
  pub audience : List String
  pub revoked : Bool
  pub cnf_jkt : Option String
  pub cnf_x5t : Option String
  pub jti : String
  pub authorization_details : List Json

pub record RefreshToken : Type 0 where
  pub token : String
  pub client_id : String
  pub subject : String
  pub scope : List String
  pub expires_at : ℕ
  pub family_id : String
  pub used : Bool
  pub revoked : Bool
  pub rotated_to : Option String
  pub cnf_jkt : Option String
  pub cnf_x5t : Option String
  pub authorization_details : List Json

pub record DeviceCode : Type 0 where
  pub device_code : String
  pub user_code : String
  pub client_id : String
  pub scope : List String
  pub expires_at : ℕ
  pub interval : ℕ
  pub approved : Bool
  pub denied : Bool
  pub subject : Option String
  pub last_polled_at : ℕ
  pub amr : List String

-- The audit trail: the kind of an entry, and the values that its text shows.
pub data Event : Type 0 where
  code_issued code_redeemed : String → String → Event
  code_replay : String → Event
  refresh_reuse : String → ℕ → Event
  access_revoked : Option String → Event
  family_revoked : String → ℕ → Event

pub record Store : Type 0 where
  pub clients : Dict Client
  pub users : Dict User
  pub codes : Dict AuthorizationCode
  pub access_tokens : Dict AccessToken
  pub refresh_tokens : Dict RefreshToken
  pub device_codes : Dict DeviceCode
  pub seen_jtis : Dict ℕ
  pub events : List Event

unfoldable pub log : Event → Store → Store
log e s = record s { events = s.events ++ e ∷ [] }

-- How many values of a dict pass the test.
unfoldable pub count_values {ℓ} : {V : Type ℓ} → (V → Bool) → Dict V → ℕ
count_values p [] = 0
count_values p ((k, v) ∷ d) = (if p v then 1 else 0) + count_values p d

-- The tests of the two revocation loops.
abbrev pub in_family : String → RefreshToken → Bool
in_family family_id t = str_eq t.family_id family_id && not t.revoked

abbrev pub same_subject : Option String → Option String → Bool
same_subject none none = true
same_subject (some s) (some t) = str_eq s t
same_subject _ _ = false

abbrev pub of_grant : String → Option String → AccessToken → Bool
of_grant client_id subject t =
    str_eq t.client_id client_id && same_subject t.subject subject && not t.revoked

-- `revoke_refresh_family`: the store, and how many tokens were revoked
unfoldable pub revoke_refresh_family : String → Store → Store × ℕ
revoke_refresh_family family_id s = (
  record s {
    refresh_tokens =
        map_values (λ t. if in_family family_id t then record t { revoked = true } else t)
          s.refresh_tokens;
  },
  count_values (in_family family_id) s.refresh_tokens,
)

-- `revoke_access_for_family_subject`
unfoldable pub revoke_access_for_family_subject : String → String → Store → Store × ℕ
revoke_access_for_family_subject client_id subject s = (
  record s {
    access_tokens =
        map_values
          (λ t. if of_grant client_id (some subject) t then record t { revoked = true } else t)
          s.access_tokens;
  },
  count_values (of_grant client_id (some subject)) s.access_tokens,
)

-- `user_by_username`
unfoldable pub user_by_username : Dict User → String → Option User
user_by_username [] username = none
user_by_username ((k, u) ∷ d) username =
    if str_eq u.username username then some u else user_by_username d username
