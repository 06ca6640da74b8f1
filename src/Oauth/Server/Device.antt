-- ===== src/Oauth/Server/Device.antt =====
-- The device flow's other half: the codes are issued, and the user approves or denies.
use Prim.Native.String.{◌++◌, slice, len}
use auth_lab.Prelude.{
  ℕ, ◌+◌, String, Bool, true, false, Option, none, some, List, [], ◌∷◌, ltb, if◌then◌else◌,
}
use auth_lab.Prelude.Text.{or_empty, split, strip}
use auth_lab.Url.{upper}
use auth_lab.Dict.{Dict, get, set, modify}
use auth_lab.Oauth.Env.{Env, constant_time_equals}
use auth_lab.Oauth.Errors.{invalid_client, expired_token, ok, err, oauth}
use auth_lab.Oauth.Exec.{Exec}
use auth_lab.Oauth.Models.{DeviceCode}
use auth_lab.Oauth.Server.{AuthorizationServer, with_store, draw_token}
use auth_lab.Oauth.Server.Authorize.{amr_or_pwd}

-- The parts of the response that are drawn; the rest are the server's constants.
pub record DeviceAuthorization : Type 0 where
  pub device_code : String
  pub user_code : String
  pub expires_in : ℕ
  pub interval : ℕ

-- `device_authorization`: eight letters are drawn, then the code
unfoldable pub device_authorization :
    Env → Dict String → Exec AuthorizationServer DeviceAuthorization
device_authorization env params s = elim (get s.store.clients (or_empty (get params "client_id"))) [
  | none ↦ (err (oauth invalid_client), s)
  | some client ↦
      let letters = env.choose_letters s.draws in
      let user_code = slice letters 0 4 ++ ("-" ++ slice letters 4 (len letters)) in
      let (value, t) = draw_token env 32 (record s { draws = s.draws + 1 }) in
      (
        ok (record {
          device_code = value;
          user_code = user_code;
          expires_in = s.device_code_lifetime;
          interval = 5;
        }),
        with_store
            (λ st. record st {
              device_codes = set st.device_codes value (record {
                device_code = value;
                user_code = user_code;
                client_id = client.client_id;
                scope = split (or_empty (get params "scope"));
                expires_at = s.now + s.device_code_lifetime;
                interval = 5;
                approved = false;
                denied = false;
                subject = none;
                last_polled_at = 0;
                amr = [];
              });
            })
            t,
      )
]

-- `user_code.strip().upper()`
unfoldable pub normalized : String → String
unfolding strip
normalized user_code = upper (strip user_code)

-- The key of the first device whose user code is the text.
unfoldable pub find_device : Dict DeviceCode → String → Option (String × DeviceCode)
find_device [] user_code = none
find_device ((k, d) ∷ devices) user_code =
    if constant_time_equals d.user_code user_code
    then some (k, d)
    else find_device devices user_code

-- `approve_device`
unfoldable pub approve_device : String → String → List String → Exec AuthorizationServer Bool
approve_device user_code subject amr s =
    elim (find_device s.store.device_codes (normalized user_code)) [
      | none ↦ (ok false, s)
      | some (k, d) ↦ if ltb d.expires_at s.now then (err (oauth expired_token), s) else (
        ok true,
        with_store
            (λ st. record st {
              device_codes =
                  modify st.device_codes k (λ e. record e {
                    approved = true;
                    subject = some subject;
                    amr = amr_or_pwd amr;
                  });
            })
            s,
      )
    ]

-- `deny_device`
unfoldable pub deny_device : String → AuthorizationServer → Bool × AuthorizationServer
deny_device user_code s = elim (find_device s.store.device_codes (normalized user_code)) [
  | none ↦ (false, s)
  | some (k, d) ↦ (
    true,
    with_store
        (λ st. record st {
          device_codes = modify st.device_codes k (λ e. record e { denied = true });
        })
        s,
  )
]
