-- ===== src/Mfa/Totp.antt =====
-- authlab/mfa/totp.py: codes of the current time step, each accepted once. `t0` is the epoch, as in
-- every call of the class. A call that raises is `none`.
pub mod Steps
use auth_lab.Prelude.{
  ℕ, zero, suc, ◌+◌, ◌-◌, ◌*◌, ◌/◌, ◌%◌, String, Bool, true, false, Option, none, some, List, ltb,
  leb, if◌then◌else◌,
}
use auth_lab.Prelude.Text.{strip, drop_char}
use auth_lab.Mfa.Hotp.{hotp, hotp_verify}

pub record Totp : Type 0 where
  pub secret : List ℕ
  pub period : ℕ
  pub digits : ℕ
  pub window : ℕ
  pub last_step : Option ℕ

-- `timecode`
abbrev pub timecode : ℕ → ℕ → ℕ
timecode now period = now / period

-- `seconds_remaining`
abbrev pub seconds_remaining : Totp → ℕ → ℕ
seconds_remaining t now = t.period - now % t.period

abbrev pub burned : Option ℕ → ℕ → Bool
burned none step = false
burned (some last) step = leb step last

-- What `TOTP.verify` does with the step that was found.
unfoldable pub consume_step : Totp → Option (Option ℕ) → Option Bool × Totp
consume_step t none = (none, t)
consume_step t (some none) = (some false, t)
consume_step t (some (some step)) =
    if burned t.last_step step
    then (some false, t)
    else (some true, record t { last_step = some step })

-- the text that is compared
unfoldable pub cleaned : String → String
unfolding strip drop_char
cleaned code = drop_char b' ' (strip code)

module _ (hmac : List ℕ → ℕ → List ℕ) where
  -- The loop of `totp_verify` from the drift `drift - window` on, for the drifts that are left.
  unfoldable pub scan : List ℕ → String → ℕ → ℕ → ℕ → ℕ → ℕ → Option (Option ℕ)
  scan secret code current digits window drift zero = some none
  scan secret code current digits window drift (suc left) = elim (ltb (current + drift) window) [
    | true ↦ scan secret code current digits window (suc drift) left
    | false ↦ elim (hotp_verify hmac secret code (current + drift - window) digits 0) [
      | none ↦ none
      | some found ↦ elim found [
        | some _ ↦ some (some (current + drift - window))
        | none ↦ scan secret code current digits window (suc drift) left
      ]
    ]
  ]

  -- `totp_verify`
  unfoldable pub totp_verify : List ℕ → String → ℕ → ℕ → ℕ → ℕ → Option (Option ℕ)
  totp_verify secret code now period digits window =
      scan secret code (timecode now period) digits window 0 (2 * window + 1)

  -- `TOTP.verify`
  unfoldable pub verify : String → ℕ → Totp → Option Bool × Totp
  verify code now t =
      consume_step t (totp_verify t.secret (cleaned code) now t.period t.digits t.window)
