-- ===== src/Oauth/Server/Grants/Devices.antt =====
-- The device code grant: what an answer with tokens requires, and how polls are paced.
use auth_lab.Prelude.{
  ℕ, ◌+◌, ◌≤◌, ◌<◌, String, ◌≡◌, refl, true, false, Option, none, some, inl, inr, arith, eq_iff,
  eq_refl, Option-cases,
}
use auth_lab.Dict.{Dict, get, remove}
use auth_lab.Dict.Laws.{get-modify, get-remove}
use auth_lab.Oauth.Env.{Env}
use auth_lab.Oauth.Errors.{ok, err, oauth, slow_down}
use auth_lab.Oauth.Models.{Client, DeviceCode}
use auth_lab.Oauth.Server.{AuthorizationServer, with_store, advance}
use auth_lab.Oauth.Server.Authorize.{given}
use auth_lab.Oauth.Server.Mint.{TokenSet}
use auth_lab.Oauth.Server.Mint.Bearer.{issue_token_set-SameRest}
use auth_lab.Oauth.Server.Grants.{poll, grant_device_code, device_grant}

-- What must hold of a device code that is answered with tokens.
pub record IsApproved (client : Client) (now : ℕ) (device : DeviceCode) : Type 0 where
  pub own : device.client_id ≡ client.client_id
  pub alive : now ≤ device.expires_at
  pub granted : device.approved ≡ true
  pub undenied : device.denied ≡ false

-- The grant's early returns, and the poll that is left.
grant_device_code-poll :
    (env : Env) (client : Client) (params : Dict String) (cnf_jkt cnf_x5t : Option String)
    (s : AuthorizationServer) (value : String) (device : DeviceCode)
    → given params "device_code" ≡ some value
    → get s.store.device_codes value ≡ some device
    → device.client_id ≡ client.client_id
    → grant_device_code env client params cnf_jkt cnf_x5t s
      ≡ poll env client cnf_jkt cnf_x5t value device s
unfolding grant_device_code
grant_device_code-poll env client params cnf_jkt cnf_x5t s value device e f own =
    rw (e, f, own, eq_refl client.client_id, grant_device_code) refl

grant_device_code-stored :
    (env : Env) (client : Client) (params : Dict String) (cnf_jkt cnf_x5t : Option String)
    (s : AuthorizationServer) {r : TokenSet}
    → (grant_device_code env client params cnf_jkt cnf_x5t s).0 ≡ ok r
    → (value : String) × (device : DeviceCode) × (given params "device_code" ≡ some value)
      × (get s.store.device_codes value ≡ some device)
      × (device.client_id ≡ client.client_id)
unfolding grant_device_code
grant_device_code-stored env client params cnf_jkt cnf_x5t s h =
    elim (Option-cases (given params "device_code")) [
      | inl missing ↦ ground arith
      | inr (value, e) ↦ elim (Option-cases (get s.store.device_codes value)) [
        | inl unknown ↦ ground arith
        | inr (device, f) ↦
            (value, device, e, f, ground (arith, eq_iff device.client_id client.client_id))
      ]
    ]

poll-ok :
    (env : Env) (client : Client) (cnf_jkt cnf_x5t : Option String) (value : String)
    (device : DeviceCode) (s : AuthorizationServer) {r : TokenSet}
    → device.client_id ≡ client.client_id
    → (poll env client cnf_jkt cnf_x5t value device s).0 ≡ ok r
    → IsApproved client s.now device
      × (get (poll env client cnf_jkt cnf_x5t value device s).1.store.device_codes value ≡ none)
unfolding poll
poll-ok env client cnf_jkt cnf_x5t value device s own h = (
  record { own = own; alive = ground arith; granted = ground arith; undenied = ground arith },
  ground (
    arith,
    issue_token_set-SameRest env (device_grant client device cnf_jkt cnf_x5t s)
        (with_store (λ st. record st { device_codes = remove st.device_codes value }) s),
    get-remove s.store.device_codes value value,
    eq_refl value,
  ),
)

-- A device code grant that returns tokens was given a stored device code of the client that has not
-- expired and that a user has approved and not denied; afterwards that code is gone.
pub grant_device_code-ok :
    (env : Env) (client : Client) (params : Dict String) (cnf_jkt cnf_x5t : Option String)
    (s : AuthorizationServer) {r : TokenSet}
    → (grant_device_code env client params cnf_jkt cnf_x5t s).0 ≡ ok r
    → (value : String) × (device : DeviceCode) × (given params "device_code" ≡ some value)
      × (get s.store.device_codes value ≡ some device)
      × IsApproved client s.now device
      × (get (grant_device_code env client params cnf_jkt cnf_x5t s).1.store.device_codes value
          ≡ none)
grant_device_code-ok env client params cnf_jkt cnf_x5t s h =
    let (value, device, e, f, own) =
      grant_device_code-stored env client params cnf_jkt cnf_x5t s h in
    let same = grant_device_code-poll env client params cnf_jkt cnf_x5t s value device e f own in
    let (approved, gone) = poll-ok env client cnf_jkt cnf_x5t value device s own (rw same at h) in
    (value, device, e, f, approved, rw same gone)

-- A device that still waits for its user.
pub record IsWaiting (now : ℕ) (device : DeviceCode) : Type 0 where
  pub alive : now ≤ device.expires_at
  pub pending : device.approved ≡ false
  pub undenied : device.denied ≡ false

poll-waits :
    (env : Env) (client : Client) (cnf_jkt cnf_x5t : Option String) (value : String)
    (device : DeviceCode) (s : AuthorizationServer)
    → IsWaiting s.now device
    → get s.store.device_codes value ≡ some device
    → get (poll env client cnf_jkt cnf_x5t value device s).1.store.device_codes value
      ≡ some (record device { last_polled_at = s.now })
unfolding poll
poll-waits env client cnf_jkt cnf_x5t value device s w found = ground (
  arith,
  get-modify s.store.device_codes value (λ d. record d { last_polled_at = s.now }) value,
  eq_refl value,
)

poll-now :
    (env : Env) (client : Client) (cnf_jkt cnf_x5t : Option String) (value : String)
    (device : DeviceCode) (s : AuthorizationServer)
    → IsWaiting s.now device
    → (poll env client cnf_jkt cnf_x5t value device s).1.now ≡ s.now
unfolding poll
poll-now env client cnf_jkt cnf_x5t value device s w = ground arith

poll-slow :
    (env : Env) (client : Client) (cnf_jkt cnf_x5t : Option String) (value : String)
    (device : DeviceCode) (t : AuthorizationServer)
    → IsWaiting t.now device
    → 0 < device.last_polled_at
    → t.now < device.last_polled_at + device.interval
    → (poll env client cnf_jkt cnf_x5t value device t).0 ≡ err (oauth slow_down)
unfolding poll
poll-slow env client cnf_jkt cnf_x5t value device t w polled soon = ground arith

-- A device of the client, whose code is stored and whose user has not answered yet, and that
-- polls again before its interval is over, is told to slow down, as long as its code has not
-- expired by the second poll; the clock stands behind zero.
pub grant_device_code-slow :
    (env : Env) (client : Client) (params : Dict String) (cnf_jkt cnf_x5t : Option String)
    (s : AuthorizationServer) (value : String) (device : DeviceCode) (seconds : ℕ)
    → given params "device_code" ≡ some value
    → get s.store.device_codes value ≡ some device
    → device.client_id ≡ client.client_id
    → IsWaiting (s.now + seconds) device
    → 0 < s.now
    → seconds < device.interval
    → (grant_device_code env client params cnf_jkt cnf_x5t
        (advance seconds (grant_device_code env client params cnf_jkt cnf_x5t s).1)).0
      ≡ err (oauth slow_down)
unfolding advance
grant_device_code-slow env client params cnf_jkt cnf_x5t s value device seconds e f own w late
      soon =
    let waiting : IsWaiting s.now device = record {
      alive = ground arith;
      pending = w.pending;
      undenied = w.undenied;
    } in
    let first = (poll env client cnf_jkt cnf_x5t value device s).1 in
    let polled = record device { last_polled_at = s.now } in
    let stands = poll-now env client cnf_jkt cnf_x5t value device s waiting in
    rw (grant_device_code-poll env client params cnf_jkt cnf_x5t s value device e f own) (
      rw
        (grant_device_code-poll env client params cnf_jkt cnf_x5t
          (record first { now = first.now + seconds }) value polled e
          (poll-waits env client cnf_jkt cnf_x5t value device s waiting f) own)
        (poll-slow env client cnf_jkt cnf_x5t value polled
          (record first { now = first.now + seconds })
          (record { alive = ground arith; pending = w.pending; undenied = w.undenied }) late
          (ground arith)))
