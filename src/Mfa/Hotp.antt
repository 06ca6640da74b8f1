-- ===== src/Mfa/Hotp.antt =====
-- authlab/mfa/hotp.py: the value for a counter, and the check with look-ahead. A call that raises is
-- `none`. `hmac.new(secret, counter_bytes, …).digest()` is the parameter `hmac`.
use Prim.Native.String.{String, char_at, ◌++◌}
use auth_lab.Prelude.{
  ℕ, zero, suc, ◌+◌, ◌*◌, ◌/◌, ◌%◌, ◌^◌, true, false, Option, none, some, List, [], ◌∷◌, ◌&&◌, leb,
  str_eq, if◌then◌else◌,
}

-- `mac[i]` and `mac[-1]`
unfoldable pub byte_at : List ℕ → ℕ → Option ℕ
byte_at [] i = none
byte_at (b ∷ bytes) zero = some b
byte_at (b ∷ bytes) (suc i) = byte_at bytes i

unfoldable pub last_byte : List ℕ → Option ℕ
last_byte [] = none
last_byte (b ∷ []) = some b
last_byte (b ∷ c ∷ bytes) = last_byte (c ∷ bytes)

-- `mac[offset : offset + 4]` read as a big-endian number, without its top bit
unfoldable pub word_at : List ℕ → ℕ → Option ℕ
word_at mac offset = elim (byte_at mac offset) [
  | none ↦ none
  | some a ↦ elim (byte_at mac (offset + 1)) [
    | none ↦ none
    | some b ↦ elim (byte_at mac (offset + 2)) [
      | none ↦ none
      | some c ↦ elim (byte_at mac (offset + 3)) [
        | none ↦ none
        | some d ↦ some ((((a * 256 + b) * 256 + c) * 256 + d) % 2 ^ 31)
      ]
    ]
  ]
]

-- `str(n).zfill(digits)` of a number below `10 ** digits`
unfoldable pub decimal : ℕ → ℕ → String
decimal zero n = ""
decimal (suc digits) n = decimal digits (n / 10) ++ String.◌∷◌ (char_at "0123456789" (n % 10)) ""

abbrev truncated : List ℕ → Option ℕ → Option ℕ
truncated mac none = none
truncated mac (some last) = word_at mac (last % 16)

abbrev shown : ℕ → Option ℕ → Option String
shown digits none = none
shown digits (some n) = some (decimal digits (n % 10 ^ digits))

module _ (hmac : List ℕ → ℕ → List ℕ) where
  -- `hotp`
  unfoldable pub hotp : List ℕ → ℕ → ℕ → Option String
  unfolding byte_at last_byte word_at decimal
  hotp secret counter digits =
      let mac = hmac secret counter in
      if leb 6 digits && leb digits 10 then shown digits (truncated mac (last_byte mac)) else none

  -- The loop of `hotp_verify`, for the offsets that are left.
  unfoldable pub hotp_scan : List ℕ → String → ℕ → ℕ → ℕ → Option (Option ℕ)
  hotp_scan secret code counter digits zero = some none
  hotp_scan secret code counter digits (suc left) = elim (hotp secret counter digits) [
    | none ↦ none
    | some expected ↦ elim (str_eq expected code) [
      | true ↦ some (some counter)
      | false ↦ hotp_scan secret code (suc counter) digits left
    ]
  ]

  -- `hotp_verify`
  unfoldable pub hotp_verify : List ℕ → String → ℕ → ℕ → ℕ → Option (Option ℕ)
  hotp_verify secret code counter digits look_ahead =
      hotp_scan secret code counter digits (suc look_ahead)
