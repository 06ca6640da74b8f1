-- ===== src/Mfa/Recovery.antt =====
-- authlab/mfa/recovery.py: codes that work once. The digest of a salt and a normalised code is the
-- parameter `sha256`; `used` is the set as a list. The model is of ASCII codes: any other raises a
-- UnicodeEncodeError.
pub mod Single
use auth_lab.Prelude.{
  ℕ, suc, ◌+◌, ◌-◌, ◌==◌, String, Bool, true, false, List, [], ◌∷◌, ◌&&◌, ◌||◌, not, length,
}
use auth_lab.Prelude.Text.{strip, drop_char}
use auth_lab.Url.{upper}

pub record Entry : Type 0 where
  pub salt : List ℕ
  pub digest : List ℕ

pub record RecoveryCodes : Type 0 where
  pub hashes : List Entry
  pub used : List ℕ

-- `_normalise`
unfoldable pub normalise : String → String
unfolding strip drop_char upper
normalise code = drop_char b' ' (drop_char b'-' (upper (strip code)))

-- `index in self.used`
abbrev pub is_used : List ℕ → ℕ → Bool
is_used [] i = false
is_used (j ∷ used) i = j == i || is_used used i

-- `constant_time_equals` of two byte strings
abbrev pub same_bytes : List ℕ → List ℕ → Bool
same_bytes [] [] = true
same_bytes (a ∷ xs) (b ∷ ys) = a == b && same_bytes xs ys
same_bytes _ _ = false

-- `remaining`
abbrev pub remaining : RecoveryCodes → ℕ
remaining r = length r.hashes - length r.used

module _ (sha256 : List ℕ → String → List ℕ) where
  -- `_digest(salt, code)` is the stored digest
  unfoldable pub fits : String → Entry → Bool
  unfolding normalise
  fits code e = same_bytes (sha256 e.salt (normalise code)) e.digest

  -- The loop of `consume` from the entry with the index `i` on.
  unfoldable pub scan : String → List Entry → ℕ → Bool → List ℕ → Bool × List ℕ
  scan code [] i matched used = (matched, used)
  scan code (e ∷ entries) i matched used =
      elim (fits code e && not (is_used used i) && not matched) [
        | true ↦ scan code entries (suc i) true (i ∷ used)
        | false ↦ scan code entries (suc i) matched used
      ]

  -- `consume`
  unfoldable pub consume : String → RecoveryCodes → Bool × RecoveryCodes
  consume code r =
      let (matched, used) = scan code r.hashes 0 false r.used in (matched, record r { used = used })
