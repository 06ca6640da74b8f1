-- ===== src/Tests/Factors.antt =====
-- The second factors' theorems at small validators.
use auth_lab.Prelude.{
  ℕ, zero, suc, ◌+◌, ◌≤◌, String, true, false, none, some, List, [], ◌∷◌, ◌≡◌, ◌⊎◌, refl, str_eq,
  if◌then◌else◌,
}
use auth_lab.Prelude.Text.{strip, drop_char, is_space}
use auth_lab.Mfa.Hotp.{hotp, hotp_scan, hotp_verify}
use auth_lab.Mfa.Totp
use auth_lab.Mfa.Totp.{Totp, timecode, totp_verify, consume_step, cleaned}
use auth_lab.Mfa.Totp.Steps.{Older, verify_accepted, steps_increase}
use auth_lab.Mfa.Totp.Steps
use auth_lab.Mfa.Recovery
use auth_lab.Mfa.Recovery.{Entry, RecoveryCodes, fits, normalise, consume, is_used}
use auth_lab.Mfa.Recovery.Single.{
  entry_at, FitsOnce, consume-Found, recovery_once, IsValid, Attempts-IsValid,
}
use auth_lab.Mfa.Recovery.Single

-- A digest that shows the counter.
abbrev toy_hmac : List ℕ → ℕ → List ℕ
toy_hmac secret counter = 0 ∷ 0 ∷ 0 ∷ counter ∷ 0 ∷ []

abbrev toy_totp : Totp
toy_totp = record { secret = []; period = 30; digits = 6; window = 1; last_step = none }

verify_accepted_example :
    (step : ℕ) × ((Totp.verify toy_hmac " 000 042" 1260 toy_totp).1
      ≡ record toy_totp { last_step = some step })
    × (hotp toy_hmac [] step 6 ≡ some (cleaned " 000 042"))
    × (timecode 1260 30 ≤ step + 1)
    × (step ≤ timecode 1260 30 + 1)
    × Older none (some step)
unfolding Totp.verify totp_verify Totp.scan hotp_verify hotp_scan hotp consume_step cleaned strip
    drop_char is_space
verify_accepted_example = verify_accepted toy_hmac " 000 042" 1260 toy_totp refl

steps_increase_example :
    Older
      (Totp.verify toy_hmac "000042" 1260 toy_totp).1.last_step
      (Totp.verify toy_hmac "000043" 1270
        (Totp.verify toy_hmac "000042" 1260 toy_totp).1).1.last_step
unfolding Totp.verify totp_verify Totp.scan hotp_verify hotp_scan hotp consume_step cleaned strip
    drop_char is_space
steps_increase_example =
    steps_increase toy_hmac "000042" "000043" 1260 1270 toy_totp
      (Totp.verify toy_hmac "000042" 1260 toy_totp).1 refl Steps.start refl

abbrev toy_digest : List ℕ → String → List ℕ
toy_digest salt code = if str_eq code "ABCDE12345" then 1 ∷ [] else 0 ∷ []

abbrev toy_codes : RecoveryCodes
toy_codes = record { hashes = record { salt = []; digest = 1 ∷ [] } ∷ []; used = [] }

toy_codes-FitsOnce : FitsOnce toy_digest "abcde-12345" toy_codes.hashes
toy_codes-FitsOnce zero zero e e' at at' fit fit' = refl
toy_codes-FitsOnce zero (suc j) e e' at at' fit fit' = cc
toy_codes-FitsOnce (suc i) j e e' at at' fit fit' = cc

consume-Found_example :
    (((consume toy_digest "abcde-12345" toy_codes).0 ≡ true)
      × ((n : ℕ) × (e : Entry) × (entry_at toy_codes.hashes n ≡ some e)
          × (fits toy_digest "abcde-12345" e ≡ true)
          × (is_used [] n ≡ false)
          × ((consume toy_digest "abcde-12345" toy_codes).1 ≡ record toy_codes { used = n ∷ [] })))
    ⊎ (((consume toy_digest "abcde-12345" toy_codes).0 ≡ false)
        × ((consume toy_digest "abcde-12345" toy_codes).1 ≡ toy_codes))
consume-Found_example = consume-Found toy_digest "abcde-12345" toy_codes

recovery_once_example :
    (consume toy_digest "abcde-12345" (consume toy_digest "abcde-12345" toy_codes).1).0 ≡ false
unfolding consume Recovery.scan fits normalise is_space
recovery_once_example =
    recovery_once toy_digest "abcde-12345" toy_codes (consume toy_digest "abcde-12345" toy_codes).1
      toy_codes-FitsOnce refl Single.start

Attempts-IsValid_example :
    IsValid (consume toy_digest "abcde-12345" (consume toy_digest "abcde-12345" toy_codes).1).1
Attempts-IsValid_example =
    Attempts-IsValid toy_digest toy_codes
      (consume toy_digest "abcde-12345" (consume toy_digest "abcde-12345" toy_codes).1).1
      (record { distinct = tt; known = tt })
      (Single.attempt (Single.attempt Single.start "abcde-12345") "abcde-12345")
