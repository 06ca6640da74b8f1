-- ===== src/Tests/Codecs.antt =====
-- The codecs' theorems at concrete values, and runs of the codecs.
use auth_lab.Prelude.{◌≡◌, ◌≢◌, refl, true, [], ◌∷◌}
use auth_lab.Prelude.Int.{pos, negsuc}
use auth_lab.Crypto.Bytes.{Bytes, to_bytes, from_bytes, from_bytes_after, split_at}
use auth_lab.Crypto.Bytes.Utf8.{encode_text, decode_text}
use auth_lab.Crypto.Cbor.{
  int, text, bool, Value, scalar, arr, dict, nil, cons, end, entry, encode, encode_scalar,
  encode_head, key_le, sort_parts, join_parts,
}
use auth_lab.Crypto.Cbor.Canonical.{IsCanonical}
use auth_lab.Crypto.Cbor.Decode.{out_of_fuel, decode, decode_at, decode_head, decode_body, key_eq}
use auth_lab.Prelude.Result.{ok, err}
use auth_lab.Crypto.Cbor.Decode.RoundTrip.{decode-encode}
use auth_lab.Crypto.Cbor.Decode.Total.{decode-total}
use auth_lab.Crypto.Cbor.Decode.Accepts.{decode-IsCanonical}

-- A COSE key: `{1: 2, 3: -7, -1: "é"}`, with a list behind the longest key.
abbrev cose_key : Value
cose_key = dict (
    entry (int (pos 1)) (scalar (int (pos 2))) (
      entry (int (pos 3)) (scalar (int (negsuc 6))) (
        entry (int (negsuc 0)) (scalar (text (0xE9 ∷ [])))
          (entry (int (pos 300)) (arr (cons (scalar (bool true)) nil)) end))))

abbrev cose_bytes : Bytes
cose_bytes =
    0xA4 ∷ 0x01 ∷ 0x02 ∷ 0x03 ∷ 0x26 ∷ 0x20 ∷ 0x62 ∷ 0xC3 ∷ 0xA9 ∷ 0x19 ∷ 0x01 ∷ 0x2C ∷ 0x81 ∷ 0xF5
    ∷ []

decode-encode_example : decode cose_bytes ≡ ok cose_key
unfolding encode IsCanonical encode_scalar encode_head encode_text sort_parts join_parts key_le
    to_bytes key_eq
decode-encode_example =
    decode-encode cose_key cose_bytes
      (
        0x01 ∷ [],
        refl,
        refl,
        refl,
        tt,
        (
          0x03 ∷ [],
          refl,
          refl,
          refl,
          tt,
          (
            0x20 ∷ [],
            refl,
            refl,
            refl,
            tt,
            (0x19 ∷ 0x01 ∷ 0x2C ∷ [], refl, refl, refl, (tt, tt), tt),
          ),
        ),
      )
      refl

decode-total_example : decode cose_bytes ≢ err out_of_fuel
decode-total_example = decode-total cose_bytes

decode-IsCanonical_example : IsCanonical cose_key
unfolding decode decode_at decode_head decode_body split_at from_bytes decode_text key_eq encode
    to_bytes
decode-IsCanonical_example = decode-IsCanonical cose_bytes cose_key refl

-- A head that is longer than it need be is read all the same.
decode_long_head : decode (0x18 ∷ 0x05 ∷ []) ≡ ok (scalar (int (pos 5)))
unfolding decode decode_at decode_head decode_body split_at from_bytes from_bytes_after
decode_long_head = refl
