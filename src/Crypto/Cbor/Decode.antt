-- ===== src/Crypto/Cbor/Decode.antt =====
-- authlab/crypto/cbor.py: the decoder, on the bytes that are left behind the offset.
pub mod Heads
pub mod Encoded
pub mod RoundTrip
pub mod Progress
pub mod Total
pub mod Accepts
use auth_lab.Prelude.{
  ℕ, zero, suc, ◌+◌, ◌*◌, ◌/◌, ◌%◌, ◌≤◌, ◌≡◌, Bool, true, false, not, ◌&&◌, ◌||◌, Option, none,
  some, List, [], ◌∷◌, ◌++◌, arith, length, any, ltb, leb, ◌==◌, if◌then◌else◌,
}
use auth_lab.Prelude.Int.{ℤ, pos, negsuc, pos_part, neg_part}
use auth_lab.Crypto.Bytes.{Bytes, from_bytes, split_at}
use auth_lab.Crypto.Bytes.Utf8.{decode_text}
use auth_lab.Crypto.Cbor.{
  Scalar, null, bool, int, bytes, text, Value, scalar, arr, dict, Items, nil, cons, Entries, end,
  entry, encode, key_le,
}
use auth_lab.Prelude.Result.{Result, ok, err, ◌>>=◌, ◌>>◌, refuse_if, or_raise}

-- `type_error` is what Python raises for a key that it cannot hash.
pub data Error : Type 0 where
  value_error : Error
  type_error : Error
  out_of_fuel : Error

-- `{24: 1, 25: 2, 26: 4, 27: 8}.get(info)`
unfoldable pub head_size : ℕ → Option ℕ
head_size info =
    if info == 24
    then some 1
    else if info == 25
    then some 2
    else if info == 26
    then some 4
    else if info == 27
    then some 8
    else none

-- `_decode_head`: the major type, the value and the bytes behind.
unfoldable pub decode_head : Bytes → Result Error (ℕ × ℕ × Bytes)
unfolding head_size
decode_head [] = err value_error
decode_head (initial ∷ rest) =
    if ltb (initial % 32) 24 then ok (initial / 32, initial % 32, rest) else do
      size ← or_raise (head_size (initial % 32)) value_error
      (number, behind) ← or_raise (split_at size rest) value_error
      ok (initial / 32, from_bytes number, behind)

-- Equality of dict keys in Python, where `True == 1`.
unfoldable pub list_eq : List ℕ → List ℕ → Bool
list_eq [] [] = true
list_eq [] (y ∷ ys) = false
list_eq (x ∷ xs) [] = false
list_eq (x ∷ xs) (y ∷ ys) = x == y && list_eq xs ys

abbrev number_of : Scalar → Option ℤ
number_of null = none
number_of (bool false) = some (pos 0)
number_of (bool true) = some (pos 1)
number_of (int n) = some n
number_of (bytes bs) = none
number_of (text cs) = none

abbrev same_number : Option ℤ → Option ℤ → Bool
same_number none b = false
same_number (some a) none = false
same_number (some a) (some b) = pos_part a == pos_part b && neg_part a == neg_part b

unfoldable pub key_eq : Scalar → Scalar → Bool
unfolding list_eq
key_eq null null = true
key_eq (bytes xs) (bytes ys) = list_eq xs ys
key_eq (text xs) (text ys) = list_eq xs ys
key_eq k j = same_number (number_of k) (number_of j)

-- `key in result`
abbrev pub has_key : Scalar → List Scalar → Bool
has_key k seen = any (key_eq k) seen

abbrev pub as_key : Value → Result Error Scalar
as_key (scalar s) = ok s
as_key (arr xs) = err type_error
as_key (dict es) = err type_error

-- `previous is not None and (len(key), key) <= (len(previous), previous)`
abbrev pub out_of_order : Option Bytes → Bytes → Bool
out_of_order none key = false
out_of_order (some previous) key = key_le key previous

-- The simple values.
abbrev decode_simple : ℕ → Bytes → Result Error (Value × Bytes)
decode_simple value rest =
    if value == 20
    then ok (scalar (bool false), rest)
    else if value == 21
    then ok (scalar (bool true), rest)
    else if value == 22
    then ok (scalar null, rest)
    else err value_error

-- What stands behind a head, given the loops over `range(value)`.
unfoldable pub decode_body :
    (ℕ → Bytes → Result Error (Items × Bytes))
    → (ℕ → Bytes → Result Error (Entries × Bytes))
    → ℕ
    → ℕ
    → Bytes
    → Result Error (Value × Bytes)
decode_body items entries major value rest =
    if major == 0
    then ok (scalar (int (pos value)), rest)
    else if major == 1
    then ok (scalar (int (negsuc value)), rest)
    else if major == 2
    then (do
      (bs, behind) ← or_raise (split_at value rest) value_error
      ok (scalar (bytes bs), behind))
    else if major == 3
    then (do
      (raw, behind) ← or_raise (split_at value rest) value_error
      cs ← or_raise (decode_text raw) value_error
      ok (scalar (text cs), behind))
    else if major == 4
    then (do (xs, behind) ← items value rest; ok (arr xs, behind))
    else if major == 5
    then (do (es, behind) ← entries value rest; ok (dict es, behind))
    else if major == 7
    then decode_simple value rest
    else err value_error

-- `_decode_at` and its two loops; each call takes one of the fuel.
unfoldable mutual
  unfolding decode_head decode_body key_eq encode

  pub decode_at : ℕ → Bytes → Result Error (Value × Bytes)
  decode_at zero bs = err out_of_fuel
  decode_at (suc fuel) bs = do
    (major, value, rest) ← decode_head bs
    decode_body (decode_items fuel) (decode_entries fuel none []) major value rest

  pub decode_items : ℕ → ℕ → Bytes → Result Error (Items × Bytes)
  decode_items fuel zero bs = ok (nil, bs)
  decode_items zero (suc n) bs = err out_of_fuel
  decode_items (suc fuel) (suc n) bs = do
    (item, rest) ← decode_at fuel bs
    (items, behind) ← decode_items fuel n rest
    ok (cons item items, behind)

  pub decode_entries : ℕ → Option Bytes → List Scalar → ℕ → Bytes → Result Error (Entries × Bytes)
  decode_entries fuel previous seen zero bs = ok (end, bs)
  decode_entries zero previous seen (suc n) bs = err out_of_fuel
  decode_entries (suc fuel) previous seen (suc n) bs = do
    (key, after_key) ← decode_at fuel bs
    encoded_key ← or_raise (encode key) value_error
    refuse_if (out_of_order previous encoded_key) value_error
    (item, rest) ← decode_at fuel after_key
    k ← as_key key
    refuse_if (has_key k seen) value_error
    (entries, behind) ← decode_entries fuel (some encoded_key) (k ∷ seen) n rest
    ok (entry k item entries, behind)

-- Two for each byte, and one.
abbrev pub fuel_for : Bytes → ℕ
fuel_for bs = 2 * length bs + 1

-- `decode_prefix`
unfoldable pub decode_prefix : Bytes → Result Error (Value × Bytes)
decode_prefix bs = decode_at (fuel_for bs) bs

abbrev pub at_end : Value → Bytes → Result Error Value
at_end v [] = ok v
at_end v (b ∷ bs) = err value_error

-- `decode`
unfoldable pub decode : Bytes → Result Error Value
decode bs = do (v, rest) ← decode_at (fuel_for bs) bs; at_end v rest
