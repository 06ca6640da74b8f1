-- ===== src/Mfa/Totp/Steps.antt =====
-- A code is accepted for a step near the clock, and each step once.
use auth_lab.Prelude.{
  ℕ, zero, suc, ◌+◌, ◌-◌, ◌≤◌, ◌<◌, String, ◌≡◌, inl, inr, refl, true, false, Option, none, some,
  List, arith, ltb, eq_iff, Bool-cases, Option-cases,
}
use auth_lab.Mfa.Hotp.{hotp, hotp_scan, hotp_verify}
use auth_lab.Mfa.Totp.{Totp, timecode, scan, totp_verify, consume_step, cleaned, verify}

-- The first step is older than the second, if there is a first.
abbrev pub Older : Option ℕ → Option ℕ → Type 0
Older old none = ⊥
Older none (some new) = Unit
Older (some old) (some new) = old < new

module _ (hmac : List ℕ → ℕ → List ℕ) where
  hotp_verify-exact :
      (secret : List ℕ) (code : String) (counter digits : ℕ) (found : ℕ)
      → hotp_verify hmac secret code counter digits 0 ≡ some (some found)
      → hotp hmac secret counter digits ≡ some code
  unfolding hotp_verify hotp_scan
  hotp_verify-exact secret code counter digits found h =
      elim (Option-cases (hotp hmac secret counter digits)) [
        | inl raises ↦ ground arith
        | inr (expected, e) ↦ ground (arith, eq_iff expected code)
      ]

  -- What the loop answers is a step within the window whose value is the code.
  scan-ok :
      (secret : List ℕ) (code : String) (current digits window drift left step : ℕ)
      → scan hmac secret code current digits window drift left ≡ some (some step)
      → (hotp hmac secret step digits ≡ some code)
        × (current + drift ≤ step + window)
        × (step + window < current + drift + left)
  unfolding scan
  scan-ok secret code current digits window drift zero step h = cc
  scan-ok secret code current digits window drift (suc left) step h =
      elim (Bool-cases (ltb (current + drift) window)) [
        | inl early ↦
            let (valued, low, high) =
              scan-ok secret code current digits window (suc drift) left step
                (rw (early, scan) at h) in
            (valued, omega arith, omega arith)
        | inr reached ↦
            go (hotp_verify hmac secret code (current + drift - window) digits 0) refl
              (scan-ok secret code current digits window (suc drift) left step) reached
      ]
    where
      go :
          (r : Option (Option ℕ))
          → hotp_verify hmac secret code (current + drift - window) digits 0 ≡ r
          → (scan hmac secret code current digits window (suc drift) left ≡ some (some step)
              → (hotp hmac secret step digits ≡ some code)
                × (current + suc drift ≤ step + window)
                × (step + window < current + suc drift + left))
          → ltb (current + drift) window ≡ false
          → (hotp hmac secret step digits ≡ some code)
            × (current + drift ≤ step + window)
            × (step + window < current + drift + suc left)
      go none e rest reached = absurd (ground arith)
      go (some none) e rest reached =
          let (valued, low, high) = rest (rw (reached, e, scan) at h) in
          (valued, omega arith, omega arith)
      go (some (some found)) e rest reached =
          let same : current + drift - window ≡ step = ground arith in
          let value = hotp_verify-exact secret code (current + drift - window) digits found e in
          (rw (← same) value, ground arith, ground arith)

  -- A code that is accepted is the value of a step at most `window` away from the clock's; that step
  -- is later than every step that was accepted before, and is remembered.
  pub verify_accepted :
      (code : String) (now : ℕ) (t : Totp)
      → (verify hmac code now t).0 ≡ some true
      → (step : ℕ) × ((verify hmac code now t).1 ≡ record t { last_step = some step })
        × (hotp hmac t.secret step t.digits ≡ some (cleaned code))
        × (timecode now t.period ≤ step + t.window)
        × (step ≤ timecode now t.period + t.window)
        × Older t.last_step (some step)
  unfolding verify totp_verify consume_step
  verify_accepted code now t h =
      go (totp_verify hmac t.secret (cleaned code) now t.period t.digits t.window) refl
    where
      go :
          (r : Option (Option ℕ))
          → totp_verify hmac t.secret (cleaned code) now t.period t.digits t.window ≡ r
          → (step : ℕ) × ((verify hmac code now t).1 ≡ record t { last_step = some step })
            × (hotp hmac t.secret step t.digits ≡ some (cleaned code))
            × (timecode now t.period ≤ step + t.window)
            × (step ≤ timecode now t.period + t.window)
            × Older t.last_step (some step)
      go none e = absurd (ground arith)
      go (some none) e = absurd (ground arith)
      go (some (some step)) e =
          let (valued, low, high) =
            scan-ok t.secret (cleaned code) (timecode now t.period) t.digits t.window 0 _ step e in
          (step, ground arith, valued, omega arith, omega arith, ground arith)

  -- A validator at work: codes are checked, at any times.
  pub data Checks (t : Totp) : Totp → Type 0 where
    start : Checks t t
    check :
        {u : Totp} → Checks t u → (code : String) (now : ℕ) → Checks t (verify hmac code now u).1

  abbrev NotBefore : Option ℕ → Option ℕ → Type 0
  NotBefore none new = Unit
  NotBefore (some old) none = ⊥
  NotBefore (some old) (some new) = old ≤ new

  verify-NotBefore :
      (old : Option ℕ) (code : String) (now : ℕ) (u : Totp)
      → NotBefore old u.last_step
      → NotBefore old (verify hmac code now u).1.last_step
  unfolding verify consume_step
  verify-NotBefore old code now u p = ground arith

  Checks-NotBefore :
      (old : Option ℕ) {t u : Totp}
      → NotBefore old t.last_step
      → Checks t u
      → NotBefore old u.last_step
  Checks-NotBefore old p start = p
  Checks-NotBefore old p (check {u} c code now) =
      verify-NotBefore old code now u (Checks-NotBefore old p c)

  -- Of two codes that are accepted, the later one is of a later step, whatever codes are checked in
  -- between and whatever the clock says: no step is accepted twice.
  pub steps_increase :
      (code code' : String) (now now' : ℕ) (t u : Totp)
      → (verify hmac code now t).0 ≡ some true
      → Checks (verify hmac code now t).1 u
      → (verify hmac code' now' u).0 ≡ some true
      → Older (verify hmac code now t).1.last_step (verify hmac code' now' u).1.last_step
  steps_increase code code' now now' t u first between second =
      let (step, is, _, _, _, _) = verify_accepted code now t first in
      let (step', is', _, _, _, later) = verify_accepted code' now' u second in
      let kept : NotBefore (some step) u.last_step =
        Checks-NotBefore (some step) (rw (is) (omega arith)) between in
      rw (is, is') (increasing step step' u.last_step kept later)
    where
      increasing :
          (step step' : ℕ) (last : Option ℕ)
          → NotBefore (some step) last
          → Older last (some step')
          → step < step'
      increasing step step' none kept later = absurd kept
      increasing step step' (some last) kept later = omega arith
