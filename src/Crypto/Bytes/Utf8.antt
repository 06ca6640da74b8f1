-- ===== src/Crypto/Bytes/Utf8.antt =====
-- Python's `str.encode("utf-8")` and `bytes.decode("utf-8")`, on code points.
use auth_lab.Prelude.{
  ℕ, zero, suc, ◌+◌, ◌-◌, ◌*◌, ◌/◌, ◌%◌, ◌≤◌, ◌≡◌, refl, Bool, not, ◌&&◌, Option, none, some, List,
  [], ◌∷◌, ◌++◌, arith, length, ltb, leb, if◌then◌else◌, ap, length-append, inl, inr, Option-cases,
}

-- The half of the code points from U+D800 to U+DFFF has no encoding.
abbrev pub is_surrogate : ℕ → Bool
is_surrogate c = leb 0xD800 c && leb c 0xDFFF

pub encode_char : ℕ → Option (List ℕ)
encode_char c =
    if ltb c 0x80
    then some (c ∷ [])
    else if ltb c 0x800
    then some ((0xC0 + c / 64) ∷ (0x80 + c % 64) ∷ [])
    else if is_surrogate c
    then none
    else if ltb c 0x10000
    then some ((0xE0 + c / 4096) ∷ (0x80 + c / 64 % 64) ∷ (0x80 + c % 64) ∷ [])
    else if ltb c 0x110000
    then some
        ((0xF0 + c / 262144) ∷ (0x80 + c / 4096 % 64) ∷ (0x80 + c / 64 % 64) ∷ (0x80 + c % 64) ∷ [])
    else none

-- `text.encode("utf-8")`; `none` is the `UnicodeEncodeError`
unfoldable pub encode_text : List ℕ → Option (List ℕ)
unfolding encode_char
encode_text [] = some []
encode_text (c ∷ cs) = elim (encode_char c) [
  | none ↦ none
  | some head ↦ elim (encode_text cs) [ none ↦ none | some rest ↦ some (head ++ rest) ]
]

abbrev is_continuation : ℕ → Bool
is_continuation b = leb 0x80 b && leb b 0xBF

two_bytes : ℕ → List ℕ → Option (ℕ × List ℕ)
two_bytes a [] = none
two_bytes a (b ∷ r) = if is_continuation b then some ((a - 0xC0) * 64 + (b - 0x80), r) else none

three_bytes : ℕ → List ℕ → Option (ℕ × List ℕ)
three_bytes a [] = none
three_bytes a (b ∷ []) = none
three_bytes a (b ∷ c ∷ r) =
    let n = (a - 0xE0) * 4096 + (b - 0x80) * 64 + (c - 0x80) in
    if is_continuation b && is_continuation c && leb 0x800 n && not (is_surrogate n)
    then some (n, r)
    else none

four_bytes : ℕ → List ℕ → Option (ℕ × List ℕ)
four_bytes a [] = none
four_bytes a (b ∷ []) = none
four_bytes a (b ∷ c ∷ []) = none
four_bytes a (b ∷ c ∷ d ∷ r) =
    let n = (a - 0xF0) * 262144 + (b - 0x80) * 4096 + (c - 0x80) * 64 + (d - 0x80) in
    if is_continuation b
      && is_continuation c
      && is_continuation d
      && leb 0x10000 n
      && ltb n 0x110000
    then some (n, r)
    else none

-- The code point that the bytes begin with: no overlong form, no surrogate.
pub decode_char : List ℕ → Option (ℕ × List ℕ)
unfolding two_bytes three_bytes four_bytes
decode_char [] = none
decode_char (a ∷ r) =
    if ltb a 0x80
    then some (a, r)
    else if ltb a 0xC2
    then none
    else if ltb a 0xE0
    then two_bytes a r
    else if ltb a 0xF0
    then three_bytes a r
    else if ltb a 0xF5
    then four_bytes a r
    else none

-- A code point takes a byte at least, so that the number of bytes is fuel enough.
pub decode_within : ℕ → List ℕ → Option (List ℕ)
unfolding decode_char
decode_within fuel [] = some []
decode_within zero (a ∷ r) = none
decode_within (suc fuel) (a ∷ r) = elim (decode_char (a ∷ r)) [
  | none ↦ none
  | some (c, rest) ↦ elim (decode_within fuel rest) [ none ↦ none | some cs ↦ some (c ∷ cs) ]
]

-- `data.decode("utf-8")`; `none` is the `UnicodeDecodeError`
unfoldable pub decode_text : List ℕ → Option (List ℕ)
unfolding decode_within
decode_text bs = decode_within (length bs) bs

decode_char-encode_char :
    (c : ℕ) (bs rest : List ℕ) → encode_char c ≡ some bs → decode_char (bs ++ rest) ≡ some (c, rest)
unfolding encode_char decode_char
decode_char-encode_char c bs rest h = ground arith

encode_char-pos : (c : ℕ) (bs : List ℕ) → encode_char c ≡ some bs → 1 ≤ length bs
unfolding encode_char
encode_char-pos c bs h = ground arith

encode_text-cons :
    (c : ℕ) (cs bs : List ℕ)
    → encode_text (c ∷ cs) ≡ some bs
    → (head rest : List ℕ) × (encode_char c ≡ some head)
      × (encode_text cs ≡ some rest)
      × (bs ≡ head ++ rest)
unfolding encode_text
encode_text-cons c cs bs h = elim (Option-cases (encode_char c)) [
  | inl none_c ↦ absurd (let bad = rw (none_c, encode_text) at h in cc)
  | inr (head, is_c) ↦ elim (Option-cases (encode_text cs)) [
    | inl none_cs ↦ absurd (let bad = rw (is_c, none_cs, encode_text) at h in cc)
    | inr (rest, is_cs) ↦
        (head, rest, is_c, is_cs, let is = rw (is_c, is_cs, encode_text) at h in cc)
  ]
]

decode_within-step :
    (c : ℕ) (head rest cs : List ℕ) (fuel : ℕ)
    → decode_char (head ++ rest) ≡ some (c, rest)
    → 1 ≤ length head
    → decode_within fuel rest ≡ some cs
    → decode_within (suc fuel) (head ++ rest) ≡ some (c ∷ cs)
unfolding decode_within
decode_within-step c [] rest cs fuel h pos ih = absurd (omega arith)
decode_within-step c (b ∷ head) rest cs fuel h pos ih = rw (h, ih, decode_within)

decode_within-encode_text :
    (cs bs : List ℕ) (fuel : ℕ)
    → encode_text cs ≡ some bs
    → length bs ≤ fuel
    → decode_within fuel bs ≡ some cs
unfolding encode_text decode_within
decode_within-encode_text [] bs fuel h le = rw (← the_bytes) refl
  where
    the_bytes : [] ≡ bs
    the_bytes = cc
decode_within-encode_text (c ∷ cs) bs zero h le =
    let (head, rest, is_c, is_cs, is) = encode_text-cons c cs bs h in
    absurd (omega (arith, encode_char-pos c head is_c, ap length is, length-append head rest))
decode_within-encode_text (c ∷ cs) bs (suc fuel) h le =
    let (head, rest, is_c, is_cs, is) = encode_text-cons c cs bs h in
    let short = encode_char-pos c head is_c in
    rw is (
      decode_within-step c head rest cs fuel (decode_char-encode_char c head rest is_c) short (
        decode_within-encode_text cs rest fuel is_cs
          (omega (arith, ap length is, length-append head rest))))

pub decode_text-encode_text : (cs bs : List ℕ) → encode_text cs ≡ some bs → decode_text bs ≡ some cs
unfolding decode_text
decode_text-encode_text cs bs h = decode_within-encode_text cs bs (length bs) h (omega arith)
