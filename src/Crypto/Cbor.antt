-- ===== src/Crypto/Cbor.antt =====
-- authlab/crypto/cbor.py: the data model and the encoder.
pub mod Decode
pub mod Canonical
use mathlib.Core.Option
use auth_lab.Prelude.{
  ℕ, zero, suc, ◌+◌, ◌*◌, ◌/◌, ◌^◌, ◌≤◌, ◌≡◌, Bool, true, false, ◌&&◌, ◌||◌, Option, none, some,
  List, [], ◌∷◌, ◌++◌, arith, length, ltb, leb, ◌==◌, if◌then◌else◌,
}
use auth_lab.Prelude.Int.{ℤ, pos, negsuc}
use auth_lab.Crypto.Bytes.{Bytes, to_bytes}
use auth_lab.Crypto.Bytes.Utf8.{encode_text}

-- What may be a key of a dict: a value that is neither a list nor a dict.
pub data Scalar : Type 0 where
  null : Scalar
  bool : Bool → Scalar
  int : ℤ → Scalar
  bytes : Bytes → Scalar
  text : List ℕ → Scalar

-- A dict is the list of its items, in their order.
mutual
  pub data Value : Type 0 where
    scalar : Scalar → Value
    arr : Items → Value
    dict : Entries → Value

  pub data Items : Type 0 where
    nil : Items
    cons : Value → Items → Items

  pub data Entries : Type 0 where
    end : Entries
    entry : Scalar → Value → Entries → Entries

infixl 5 ◌>>=◌
abbrev pub ◌>>=◌ : {A B : Type 0} → Option A → (A → Option B) → Option B
none >>= f = none
some a >>= f = f a

-- `_encode_head`; `(major << 5) | value` is a sum, since the value stays below 32. `none` is the
-- `ValueError`.
unfoldable pub encode_head : ℕ → ℕ → Option Bytes
encode_head major value =
    if ltb value 24
    then some ((major * 32 + value) ∷ [])
    else if ltb value 0x100
    then some ((major * 32 + 24) ∷ value ∷ [])
    else if ltb value 0x10000
    then some ((major * 32 + 25) ∷ to_bytes 2 value)
    else if ltb value 0x100000000
    then some ((major * 32 + 26) ∷ to_bytes 4 value)
    else if ltb value 0x10000000000000000
    then some ((major * 32 + 27) ∷ to_bytes 8 value)
    else none

-- `encode` of a value that may be a key
unfoldable pub encode_scalar : Scalar → Option Bytes
unfolding encode_head
encode_scalar (bool false) = some (0xF4 ∷ [])
encode_scalar (bool true) = some (0xF5 ∷ [])
encode_scalar null = some (0xF6 ∷ [])
encode_scalar (int (pos n)) = encode_head 0 n
encode_scalar (int (negsuc n)) = encode_head 1 n
encode_scalar (bytes bs) = do head ← encode_head 2 (length bs); some (head ++ bs)
encode_scalar (text cs) = do
  raw ← encode_text cs
  head ← encode_head 3 (length raw)
  some (head ++ raw)

-- Python's order on `bytes`
unfoldable pub bytes_le : Bytes → Bytes → Bool
bytes_le [] bs = true
bytes_le (a ∷ as') [] = false
bytes_le (a ∷ as') (b ∷ bs) = ltb a b || a == b && bytes_le as' bs

-- `(len(a), a) <= (len(b), b)`, with `_canonical_key`
unfoldable pub key_le : Bytes → Bytes → Bool
unfolding bytes_le
key_le a b = ltb (length a) (length b) || length a == length b && bytes_le a b

-- `sorted(..., key=_canonical_key)`: stable, on the encoded keys and the encoded values
unfoldable pub insert_part : Bytes × Bytes → List (Bytes × Bytes) → List (Bytes × Bytes)
unfolding key_le
insert_part p [] = p ∷ []
insert_part p (q ∷ qs) =
    let later = insert_part p qs in if key_le p.0 q.0 then p ∷ q ∷ qs else q ∷ later

unfoldable pub sort_parts : List (Bytes × Bytes) → List (Bytes × Bytes)
unfolding insert_part
sort_parts [] = []
sort_parts (p ∷ ps) = insert_part p (sort_parts ps)

-- `b"".join(k + v for k, v in parts)`
unfoldable pub join_parts : List (Bytes × Bytes) → Bytes
join_parts [] = []
join_parts ((k, v) ∷ ps) = k ++ (v ++ join_parts ps)

abbrev pub count_items : Items → ℕ
count_items nil = 0
count_items (cons x xs) = suc (count_items xs)

abbrev pub count_entries : Entries → ℕ
count_entries end = 0
count_entries (entry k v es) = suc (count_entries es)

-- `encode`
unfoldable mutual
  unfolding encode_scalar encode_head sort_parts join_parts

  pub encode : Value → Option Bytes
  encode (scalar s) = encode_scalar s
  encode (arr xs) = do
    head ← encode_head 4 (count_items xs)
    body ← encode_items xs
    some (head ++ body)
  encode (dict es) = do
    parts ← encode_entries es
    head ← encode_head 5 (count_entries es)
    some (head ++ join_parts (sort_parts parts))

  pub encode_items : Items → Option Bytes
  encode_items nil = some []
  encode_items (cons x xs) = do first ← encode x; rest ← encode_items xs; some (first ++ rest)

  pub encode_entries : Entries → Option (List (Bytes × Bytes))
  encode_entries end = some []
  encode_entries (entry k v es) = do
    key ← encode_scalar k
    value ← encode v
    parts ← encode_entries es
    some ((key, value) ∷ parts)
