-- ===== src/Crypto/Cbor/Decode/Encoded.antt =====
-- What an encoding is made of, and the fuel that its parts leave.
use mathlib.Core.List.{append_assoc}
use auth_lab.Prelude.{
  ℕ, suc, ◌+◌, ◌*◌, ◌≤◌, ◌≡◌, refl, ap, ◌∙◌, subst, true, false, Option, none, some, List, [], ◌∷◌,
  ◌++◌, arith, length, length-append,
}
use auth_lab.Prelude.Int.{pos, negsuc}
use auth_lab.Crypto.Bytes.{Bytes, split_at-append}
use auth_lab.Crypto.Bytes.Utf8.{encode_text, decode_text-encode_text}
use auth_lab.Crypto.Cbor.{
  Scalar, null, bool, int, bytes, text, Value, scalar, arr, dict, Entries, end, entry, encode_head,
  encode_scalar, encode, encode_items, encode_entries, count_items, count_entries, sort_parts,
  join_parts, ◌>>=◌,
}
use auth_lab.Crypto.Cbor.Decode.{decode_body, decode_at, decode_items, decode_entries}
use auth_lab.Prelude.Result.{ok}
use auth_lab.Crypto.Cbor.Canonical.{AreOrdered, AreIncreasing}
use auth_lab.Crypto.Cbor.Decode.Heads.{decode_head-encode_head, encode_head-pos}

-- What an encoding is made of.
pub >>=-eq-some :
    {A B : Type 0} (m : Option A) (f : A → Option B) {b : B}
    → (m >>= f) ≡ some b
    → (a : A) × (m ≡ some a) × (f a ≡ some b)
>>=-eq-some none f h = cc
>>=-eq-some (some a) f h = (a, refl, h)

decode_at-head :
    (fuel major n : ℕ) (head rest : Bytes)
    → encode_head major n ≡ some head
    → decode_at (suc fuel) (head ++ rest)
      ≡ decode_body (decode_items fuel) (decode_entries fuel none []) major n rest
unfolding decode_at
decode_at-head fuel major n head rest h = rw (decode_head-encode_head major n head rest h)

pub same : {A : Type 0} {b c : A} → some b ≡ some c → b ≡ c
same h = cc

pub decode_at-framed :
    (fuel major n : ℕ) (head body rest : Bytes)
    → encode_head major n ≡ some head
    → decode_at (suc fuel) ((head ++ body) ++ rest)
      ≡ decode_body (decode_items fuel) (decode_entries fuel none []) major n (body ++ rest)
decode_at-framed fuel major n head body rest h =
    ap (decode_at (suc fuel)) (append_assoc head body rest)
    ∙ decode_at-head fuel major n head (body ++ rest) h

pub decode_at-encode_scalar :
    (s : Scalar) (b rest : Bytes) (fuel : ℕ)
    → encode_scalar s ≡ some b
    → decode_at (suc fuel) (b ++ rest) ≡ ok (scalar s, rest)
unfolding encode_scalar decode_body encode_head
decode_at-encode_scalar null b rest fuel h =
    subst (λ x. decode_at (suc fuel) (x ++ rest) ≡ ok (scalar null, rest)) (same h)
      (decode_at-head fuel 7 22 (0xF6 ∷ []) rest refl)
decode_at-encode_scalar (bool true) b rest fuel h =
    subst (λ x. decode_at (suc fuel) (x ++ rest) ≡ ok (scalar (bool true), rest)) (same h)
      (decode_at-head fuel 7 21 (0xF5 ∷ []) rest refl)
decode_at-encode_scalar (bool false) b rest fuel h =
    subst (λ x. decode_at (suc fuel) (x ++ rest) ≡ ok (scalar (bool false), rest)) (same h)
      (decode_at-head fuel 7 20 (0xF4 ∷ []) rest refl)
decode_at-encode_scalar (int (pos n)) b rest fuel h = decode_at-head fuel 0 n b rest h
decode_at-encode_scalar (int (negsuc n)) b rest fuel h = decode_at-head fuel 1 n b rest h
decode_at-encode_scalar (bytes bs) b rest fuel h =
    let (head, is_head, is) =
      >>=-eq-some (encode_head 2 (length bs)) (λ head. some (head ++ bs)) h in
    subst (λ x. decode_at (suc fuel) (x ++ rest) ≡ ok (scalar (bytes bs), rest)) (same is)
      (rw (decode_at-framed fuel 2 (length bs) head bs rest is_head, split_at-append bs rest) refl)
decode_at-encode_scalar (text cs) b rest fuel h =
    let (raw, is_raw, h') = >>=-eq-some (encode_text cs) _ h in
    let (head, is_head, is) = >>=-eq-some (encode_head 3 (length raw)) _ h' in
    subst (λ x. decode_at (suc fuel) (x ++ rest) ≡ ok (scalar (text cs), rest)) (same is)
      (rw
        (
          decode_at-framed fuel 3 (length raw) head raw rest is_head,
          split_at-append raw rest,
          decode_text-encode_text cs raw is_raw,
        )
        refl)

head-body-pos :
    (major n : ℕ) (body : Bytes) {b : Bytes}
    → (encode_head major n >>= λ head. some (head ++ body)) ≡ some b
    → 1 ≤ length b
head-body-pos major n body h =
    let (head, is_head, is) = >>=-eq-some (encode_head major n) _ h in
    omega
      (arith, encode_head-pos major n head is_head, ap length (same is), length-append head body)

pub encode_scalar-pos : (s : Scalar) (b : Bytes) → encode_scalar s ≡ some b → 1 ≤ length b
unfolding encode_scalar
encode_scalar-pos null b h = omega (arith, ap length (same h))
encode_scalar-pos (bool true) b h = omega (arith, ap length (same h))
encode_scalar-pos (bool false) b h = omega (arith, ap length (same h))
encode_scalar-pos (int (pos n)) b h = encode_head-pos 0 n b h
encode_scalar-pos (int (negsuc n)) b h = encode_head-pos 1 n b h
encode_scalar-pos (bytes bs) b h = head-body-pos 2 (length bs) bs h
encode_scalar-pos (text cs) b h =
    let (raw, is_raw, h') = >>=-eq-some (encode_text cs) _ h in head-body-pos 3 (length raw) raw h'

pub encode-pos : (v : Value) (b : Bytes) → encode v ≡ some b → 1 ≤ length b
unfolding encode
encode-pos (scalar s) b h = encode_scalar-pos s b h
encode-pos (arr xs) b h =
    let (head, is_head, h') = >>=-eq-some (encode_head 4 (count_items xs)) _ h in
    let (body, is_body, is) = >>=-eq-some (encode_items xs) _ h' in
    omega (
      arith,
      encode_head-pos 4 (count_items xs) head is_head,
      ap length (same is),
      length-append head body,
    )
encode-pos (dict es) b h =
    let (parts, is_parts, h') = >>=-eq-some (encode_entries es) _ h in
    head-body-pos 5 (count_entries es) (join_parts (sort_parts parts)) h'

pub encode_entries-entry :
    (k : Scalar) (v : Value) (es : Entries) (key : Bytes) {parts : List (Bytes × Bytes)}
    → encode_scalar k ≡ some key
    → encode_entries (entry k v es) ≡ some parts
    → (value : Bytes) × (ps : List (Bytes × Bytes)) × (encode v ≡ some value)
      × (encode_entries es ≡ some ps)
      × ((key, value) ∷ ps ≡ parts)
unfolding encode_entries
encode_entries-entry k v es key is_key h =
    let (value, is_value, h') = >>=-eq-some (encode v) _ (rw is_key at h) in
    let (ps, is_ps, is) = >>=-eq-some (encode_entries es) _ h' in
    (value, ps, is_value, is_ps, same is)

pub encode_entries-AreIncreasing :
    (es : Entries) (previous : Option Bytes) (seen : List Scalar) (parts : List (Bytes × Bytes))
    → AreOrdered previous seen es
    → encode_entries es ≡ some parts
    → AreIncreasing previous parts
unfolding AreOrdered AreIncreasing encode_entries
encode_entries-AreIncreasing end previous seen parts o h =
    subst (λ ps. AreIncreasing previous ps) (same h) tt
encode_entries-AreIncreasing (entry k v es) previous seen parts (key, is_key, o, fresh, cv, os) h =
    let (value, ps, is_value, is_ps, is) = encode_entries-entry k v es key is_key h in
    subst (λ ps. AreIncreasing previous ps) is
      (o, encode_entries-AreIncreasing es (some key) (k ∷ seen) ps os is_ps)

-- The fuel that is left for the parts.
pub body_fits :
    (major n : ℕ) (head body b rest : Bytes) (fuel : ℕ)
    → encode_head major n ≡ some head
    → head ++ body ≡ b
    → 2 * length (b ++ rest) + 1 ≤ suc fuel
    → 2 * length (body ++ rest) + 2 ≤ fuel
body_fits major n head body b rest fuel is_head is le = omega (
  arith,
  encode_head-pos major n head is_head,
  ap length is,
  length-append head body,
  length-append b rest,
  length-append body rest,
)

pub part_fits :
    (first others b rest : Bytes) (fuel : ℕ)
    → first ++ others ≡ b
    → 2 * length (b ++ rest) + 2 ≤ suc fuel
    → 2 * length (first ++ (others ++ rest)) + 1 ≤ fuel
part_fits first others b rest fuel is le = omega (
  arith,
  ap length is,
  length-append first others,
  length-append b rest,
  length-append first (others ++ rest),
  length-append others rest,
)

pub rest_fits :
    (first later : Bytes) (fuel : ℕ)
    → 1 ≤ length first
    → 2 * length (first ++ later) + 1 ≤ fuel
    → 2 * length later + 2 ≤ fuel
rest_fits first later fuel some_byte le = omega (arith, length-append first later)

pub entry_fits :
    (key value others rest : Bytes) (fuel : ℕ)
    → 1 ≤ length key
    → 2 * length ((key ++ (value ++ others)) ++ rest) + 2 ≤ suc fuel
    → (2 * length (key ++ (value ++ (others ++ rest))) + 1 ≤ fuel)
      × (2 * length (value ++ (others ++ rest)) + 1 ≤ fuel)
      × (2 * length (others ++ rest) + 2 ≤ fuel)
entry_fits key value others rest fuel some_byte le = omega (
  arith,
  length-append (key ++ (value ++ others)) rest,
  length-append key (value ++ others),
  length-append value others,
  length-append key (value ++ (others ++ rest)),
  length-append value (others ++ rest),
  length-append others rest,
)
