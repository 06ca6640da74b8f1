-- ===== src/Crypto/Cbor/Decode/Heads.antt =====
-- `_decode_head` undoes `_encode_head`, and takes a byte at least.
use auth_lab.Prelude.{
  ℕ, ◌+◌, ◌*◌, ◌/◌, ◌%◌, ◌^◌, ◌≤◌, ◌<◌, ◌≡◌, some, [], ◌∷◌, ◌++◌, arith, length, ltb, inl, inr,
  Option-cases, Bool-cases,
}
use auth_lab.Crypto.Bytes.{
  Bytes, to_bytes, from_bytes, from_bytes_after, split_at, split_at-to_bytes, split_at-shrinks,
  from_bytes-to_bytes,
}
use auth_lab.Crypto.Cbor.{encode_head}
use auth_lab.Crypto.Cbor.Decode.{decode_head, head_size}
use auth_lab.Prelude.Result.{ok}

-- A head of several bytes.
decode_head-sized :
    (major info size n : ℕ) (rest : Bytes)
    → info < 32
    → 24 ≤ info
    → head_size info ≡ some size
    → n < 256 ^ size
    → decode_head ((major * 32 + info) ∷ to_bytes size n ++ rest) ≡ ok (major, n, rest)
unfolding decode_head
decode_head-sized major info size n rest small large sized fits =
    let i : (major * 32 + info) % 32 ≡ info = omega arith in
    let j : (major * 32 + info) / 32 ≡ major = omega arith in
    ground (arith, split_at-to_bytes size n rest, from_bytes-to_bytes size n fits)

decode_head-direct :
    (major n : ℕ) (rest : Bytes)
    → n < 24
    → decode_head ((major * 32 + n) ∷ rest) ≡ ok (major, n, rest)
unfolding decode_head
decode_head-direct major n rest small =
    let i : (major * 32 + n) % 32 ≡ n = omega arith in
    let j : (major * 32 + n) / 32 ≡ major = omega arith in ground arith

decode_head-one :
    (major n : ℕ) (rest : Bytes)
    → n < 256
    → decode_head ((major * 32 + 24) ∷ n ∷ rest) ≡ ok (major, n, rest)
unfolding decode_head head_size split_at from_bytes from_bytes_after
decode_head-one major n rest small =
    let i : (major * 32 + 24) % 32 ≡ 24 = omega arith in
    let j : (major * 32 + 24) / 32 ≡ major = omega arith in rw (i, j) (ground arith)

pub decode_head-encode_head :
    (major n : ℕ) (head rest : Bytes)
    → encode_head major n ≡ some head
    → decode_head (head ++ rest) ≡ ok (major, n, rest)
unfolding encode_head head_size
decode_head-encode_head major n head rest h = elim (Bool-cases (ltb n 24)) [
  | inl direct ↦ ground (arith, decode_head-direct major n rest)
  | inr large ↦ elim (Bool-cases (ltb n 0x100)) [
    | inl one ↦ ground (arith, decode_head-one major n rest)
    | inr larger ↦ ground (
      arith,
      decode_head-sized major 25 2 n rest,
      decode_head-sized major 26 4 n rest,
      decode_head-sized major 27 8 n rest,
    )
  ]
]

pub encode_head-pos :
    (major n : ℕ) (head : Bytes) → encode_head major n ≡ some head → 1 ≤ length head
unfolding encode_head
encode_head-pos major n head h = ground arith

pub decode_head-shrinks :
    (bs rest : Bytes) (major n : ℕ)
    → decode_head bs ≡ ok (major, n, rest)
    → length rest + 1 ≤ length bs
unfolding decode_head
decode_head-shrinks [] rest major n h = cc
decode_head-shrinks (b ∷ bs) rest major n h = elim (Option-cases (head_size (b % 32))) [
  | inl unsized ↦ ground arith
  | inr (size, sized) ↦ elim (Option-cases (split_at size bs)) [
    | inl short ↦ ground arith
    | inr ((front, back), found) ↦ ground (arith, split_at-shrinks size bs front back found)
  ]
]
