-- ===== src/Crypto/Cbor/Decode/RoundTrip.antt =====
-- What `encode` writes, `decode` reads back.
use mathlib.Core.List.{append_assoc, append-nil}
use auth_lab.Prelude.{
  ℕ, zero, suc, ◌+◌, ◌*◌, ◌≤◌, ◌≡◌, refl, sym, ap, ◌∙◌, subst, false, Option, none, some, List, [],
  ◌∷◌, ◌++◌, arith, length, length-append,
}
use auth_lab.Crypto.Bytes.{Bytes}
use auth_lab.Crypto.Cbor.{
  Scalar, Value, scalar, arr, dict, Items, nil, cons, Entries, end, entry, encode_head,
  encode_scalar, encode, encode_items, encode_entries, count_items, count_entries, join_parts,
}
use auth_lab.Crypto.Cbor.Decode.{
  decode_body, decode_at, decode_items, decode_entries, decode, fuel_for, out_of_order, has_key,
}
use auth_lab.Prelude.Result.{ok}
use auth_lab.Crypto.Cbor.Canonical.{IsCanonical, AreCanonical, AreOrdered, sort_parts-AreIncreasing}
use auth_lab.Crypto.Cbor.Decode.Encoded.{
  >>=-eq-some, same, decode_at-framed, decode_at-encode_scalar, encode_scalar-pos, encode-pos,
  encode_entries-entry, encode_entries-AreIncreasing, body_fits, part_fits, rest_fits, entry_fits,
}

-- One step of the decoder on what one step of the encoder wrote.
module _ (rest : Bytes) (fuel : ℕ) where
  decode_at-arr :
      (xs : Items) (head body : Bytes)
      → encode_head 4 (count_items xs) ≡ some head
      → decode_items fuel (count_items xs) (body ++ rest) ≡ ok (xs, rest)
      → decode_at (suc fuel) ((head ++ body) ++ rest) ≡ ok (arr xs, rest)
  unfolding decode_body
  decode_at-arr xs head body is_head inner =
      decode_at-framed fuel 4 (count_items xs) head body rest is_head ∙ rw (inner, decode_body)

  decode_at-dict :
      (es : Entries) (head body : Bytes)
      → encode_head 5 (count_entries es) ≡ some head
      → decode_entries fuel none [] (count_entries es) (body ++ rest) ≡ ok (es, rest)
      → decode_at (suc fuel) ((head ++ body) ++ rest) ≡ ok (dict es, rest)
  unfolding decode_body
  decode_at-dict es head body is_head inner =
      decode_at-framed fuel 5 (count_entries es) head body rest is_head ∙ rw (inner, decode_body)

  decode_items-cons :
      (x : Value) (xs : Items) (first others : Bytes)
      → decode_at fuel (first ++ (others ++ rest)) ≡ ok (x, others ++ rest)
      → decode_items fuel (count_items xs) (others ++ rest) ≡ ok (xs, rest)
      → decode_items (suc fuel) (suc (count_items xs)) ((first ++ others) ++ rest)
        ≡ ok (cons x xs, rest)
  unfolding decode_items
  decode_items-cons x xs first others is_first is_others =
      rw (append_assoc first others rest, is_first, is_others) refl

  decode_entries-entry :
      (k : Scalar) (v : Value) (es : Entries) (previous : Option Bytes) (seen : List Scalar)
      (key value others : Bytes)
      → encode_scalar k ≡ some key
      → out_of_order previous key ≡ false
      → has_key k seen ≡ false
      → decode_at fuel (key ++ (value ++ (others ++ rest)))
        ≡ ok (scalar k, value ++ (others ++ rest))
      → decode_at fuel (value ++ (others ++ rest)) ≡ ok (v, others ++ rest)
      → decode_entries fuel (some key) (k ∷ seen) (count_entries es) (others ++ rest)
        ≡ ok (es, rest)
      → decode_entries
          (suc fuel)
          previous
          seen
          (suc (count_entries es))
          (key ++ (value ++ others) ++ rest)
        ≡ ok (entry k v es, rest)
  unfolding decode_entries encode
  decode_entries-entry k v es previous seen key value others is_key ordered fresh at_key at_value
        later =
      rw
        (
          append_assoc key (value ++ others) rest,
          append_assoc value others rest,
          at_key,
          is_key,
          ordered,
          at_value,
          fresh,
          later,
        )
        refl

mutual
  unfolding IsCanonical encode decode_at

  decode_at-encode_lem :
      (v : Value) (b rest : Bytes) (fuel : ℕ)
      → IsCanonical v
      → encode v ≡ some b
      → 2 * length (b ++ rest) + 1 ≤ fuel
      → decode_at fuel (b ++ rest) ≡ ok (v, rest)
  decode_at-encode_lem v b rest zero c h le = absurd (omega arith)
  decode_at-encode_lem (scalar s) b rest (suc fuel) c h le = decode_at-encode_scalar s b rest fuel h
  decode_at-encode_lem (arr xs) b rest (suc fuel) c h le =
      let (head, is_head, h') = >>=-eq-some (encode_head 4 (count_items xs)) _ h in
      let (body, is_body, is) = >>=-eq-some (encode_items xs) _ h' in
      subst (λ x. decode_at (suc fuel) (x ++ rest) ≡ ok (arr xs, rest)) (same is)
        (decode_at-arr rest fuel xs head body is_head (
          decode_items-encode_items xs body rest fuel c is_body
            (body_fits 4 (count_items xs) head body b rest fuel is_head (same is) le)))
  decode_at-encode_lem (dict es) b rest (suc fuel) c h le =
      let (parts, is_parts, h') = >>=-eq-some (encode_entries es) _ h in
      let (head, is_head, is) = >>=-eq-some (encode_head 5 (count_entries es)) _ h' in
      let sorted =
        sort_parts-AreIncreasing none parts
          (encode_entries-AreIncreasing es none [] parts c is_parts) in
      let is' : head ++ join_parts parts ≡ b =
        ap (λ ps. head ++ join_parts ps) (sym sorted) ∙ same is in
      subst (λ x. decode_at (suc fuel) (x ++ rest) ≡ ok (dict es, rest)) is'
        (decode_at-dict rest fuel es head (join_parts parts) is_head (
          decode_entries-encode_entries es none [] parts rest fuel c is_parts
            (body_fits 5 (count_entries es) head (join_parts parts) b rest fuel is_head is' le)))

  decode_items-encode_items :
      (xs : Items) (b rest : Bytes) (fuel : ℕ)
      → AreCanonical xs
      → encode_items xs ≡ some b
      → 2 * length (b ++ rest) + 2 ≤ fuel
      → decode_items fuel (count_items xs) (b ++ rest) ≡ ok (xs, rest)
  decode_items-encode_items nil b rest fuel c h le =
      subst (λ x. decode_items fuel 0 (x ++ rest) ≡ ok (nil, rest)) (same h) refl
  decode_items-encode_items (cons x xs) b rest zero c h le = absurd (omega arith)
  decode_items-encode_items (cons x xs) b rest (suc fuel) (cx, cxs) h le =
      let (first, is_first, h') = >>=-eq-some (encode x) _ h in
      let (others, is_others, is) = >>=-eq-some (encode_items xs) _ h' in
      let fits = part_fits first others b rest fuel (same is) le in
      subst (λ y. decode_items (suc fuel) (suc (count_items xs)) (y ++ rest) ≡ ok (cons x xs, rest))
        (same is)
        (decode_items-cons rest fuel x xs first others
          (decode_at-encode_lem x first (others ++ rest) fuel cx is_first fits)
          (decode_items-encode_items xs others rest fuel cxs is_others
            (rest_fits first (others ++ rest) fuel (encode-pos x first is_first) fits)))

  decode_entries-encode_entries :
      (es : Entries) (previous : Option Bytes) (seen : List Scalar) (parts : List (Bytes × Bytes))
      (rest : Bytes) (fuel : ℕ)
      → AreOrdered previous seen es
      → encode_entries es ≡ some parts
      → 2 * length (join_parts parts ++ rest) + 2 ≤ fuel
      → decode_entries fuel previous seen (count_entries es) (join_parts parts ++ rest)
        ≡ ok (es, rest)
  decode_entries-encode_entries end previous seen parts rest fuel o h le =
      subst (λ ps. decode_entries fuel previous seen 0 (join_parts ps ++ rest) ≡ ok (end, rest))
        (same h) refl
  decode_entries-encode_entries (entry k v es) previous seen parts rest zero o h le =
      absurd (omega arith)
  decode_entries-encode_entries (entry k v es) previous seen parts rest (suc fuel)
        (key, is_key, ordered, fresh, cv, os) h le =
      let (value, ps, is_value, is_ps, is) = encode_entries-entry k v es key is_key h in
      let le' = subst (λ ps. 2 * length (join_parts ps ++ rest) + 2 ≤ suc fuel) (sym is) le in
      let (at_key, at_value, later) =
        entry_fits key value (join_parts ps) rest fuel (encode_scalar-pos k key is_key) le' in
      subst
        (λ ps.
          decode_entries (suc fuel) previous seen (suc (count_entries es)) (join_parts ps ++ rest)
          ≡ ok (entry k v es, rest))
        is
        (decode_entries-entry rest fuel k v es previous seen key value (join_parts ps) is_key
          ordered fresh
          (decode_at-encode_lem (scalar k) key (value ++ (join_parts ps ++ rest)) fuel tt is_key
            at_key)
          (decode_at-encode_lem v value (join_parts ps ++ rest) fuel cv is_value at_value)
          (decode_entries-encode_entries es (some key) (k ∷ seen) ps rest fuel os is_ps later))

-- A value in canonical order that `encode` accepts comes back from its encoding, with nothing left.
pub decode-encode : (v : Value) (b : Bytes) → IsCanonical v → encode v ≡ some b → decode b ≡ ok v
unfolding decode
decode-encode v b c h =
    let read = decode_at-encode_lem v b [] (fuel_for b) c h (omega (arith, length-append b [])) in
    let read' = subst (λ x. decode_at (fuel_for b) x ≡ ok (v, [])) (append-nil b) read in
    rw (read', decode)
