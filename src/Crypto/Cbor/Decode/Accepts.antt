-- ===== src/Crypto/Cbor/Decode/Accepts.antt =====
-- What the decoder accepts is in canonical order.
use auth_lab.Prelude.{
  ℕ, zero, suc, ◌≡◌, refl, subst, Bool, true, false, Option, none, some, List, [], ◌∷◌, ◌==◌,
  if◌then◌else◌,
}
use auth_lab.Crypto.Bytes.{Bytes, split_at}
use auth_lab.Crypto.Cbor.{Scalar, Value, scalar, arr, dict, Items, Entries, encode}
use auth_lab.Crypto.Cbor.Decode.{
  as_key, decode_head, decode_body, decode_at, decode_items, decode_entries, decode, fuel_for,
  out_of_order, has_key, at_end, Error, value_error,
}
use auth_lab.Prelude.Result.{
  Result, ok, err, ◌>>=◌, refuse_if, or_raise, refuse_if-eq-ok, or_raise-eq-ok,
}
use auth_lab.Crypto.Bytes.Utf8.{decode_text}
use auth_lab.Crypto.Cbor.Canonical.{IsCanonical, AreCanonical, AreOrdered}

-- A result that is returned is one of `P`.
Gives : {A : Type 0} → (A → Type 0) → Result Error A → Type 0
Gives P (ok a) = P a
Gives P (err e) = Unit

Gives-bind :
    {A B : Type 0} (P : B → Type 0) (m : Result Error A) (f : A → Result Error B)
    → ((a : A) → m ≡ ok a → Gives P (f a))
    → Gives P (m >>= f)
unfolding Gives
Gives-bind P (ok a) f k = k a refl
Gives-bind P (err e) f k = tt

Gives-if :
    {A : Type 0} (P : A → Type 0) (b : Bool) (x y : Result Error A)
    → Gives P x
    → Gives P y
    → Gives P (if b then x else y)
Gives-if P true x y p q = p
Gives-if P false x y p q = q

Gives-ok : {A : Type 0} (P : A → Type 0) (m : Result Error A) {a : A} → Gives P m → m ≡ ok a → P a
unfolding Gives
Gives-ok P m {a} g h = subst (λ r. Gives P r) h g

abbrev IsRead : Value × Bytes → Type 0
IsRead (v, rest) = IsCanonical v

abbrev AreRead : Items × Bytes → Type 0
AreRead (xs, rest) = AreCanonical xs

abbrev AreReadAfter : Option Bytes → List Scalar → Entries × Bytes → Type 0
AreReadAfter previous seen (es, rest) = AreOrdered previous seen es

Gives-decode_body :
    (items : ℕ → Bytes → Result Error (Items × Bytes))
    (entries : ℕ → Bytes → Result Error (Entries × Bytes)) (major n : ℕ) (rest : Bytes)
    → Gives AreRead (items n rest)
    → Gives (AreReadAfter none []) (entries n rest)
    → Gives IsRead (decode_body items entries major n rest)
unfolding decode_body Gives IsCanonical
Gives-decode_body items entries major n rest hi he =
    let simple =
      Gives-if IsRead (n == 20) _ _ tt
        (Gives-if IsRead (n == 21) _ _ tt (Gives-if IsRead (n == 22) _ _ tt tt)) in
    Gives-if IsRead (major == 0) _ _ tt (
      Gives-if IsRead (major == 1) _ _ tt (
        Gives-if IsRead (major == 2) _ _
          (Gives-bind IsRead (or_raise (split_at n rest) value_error) _ (λ a e. tt))
          (Gives-if IsRead (major == 3) _ _
            (Gives-bind IsRead (or_raise (split_at n rest) value_error) _
              (λ a e. Gives-bind IsRead (or_raise (decode_text a.0) value_error) _ (λ cs e'. tt)))
            (Gives-if IsRead (major == 4) _ _
              (Gives-bind IsRead (items n rest) _ (λ a e. Gives-ok AreRead (items n rest) hi e))
              (Gives-if IsRead (major == 5) _ _
                (Gives-bind IsRead (entries n rest) _
                  (λ a e. Gives-ok (AreReadAfter none []) (entries n rest) he e))
                (Gives-if IsRead (major == 7) _ _ simple tt))))))

as_key-ok : (v : Value) {s : Scalar} → as_key v ≡ ok s → v ≡ scalar s
as_key-ok (scalar s) h = cc
as_key-ok (arr xs) h = cc
as_key-ok (dict es) h = cc

mutual
  unfolding decode_at Gives IsCanonical

  Gives-decode_at : (fuel : ℕ) (bs : Bytes) → Gives IsRead (decode_at fuel bs)
  Gives-decode_at zero bs = tt
  Gives-decode_at (suc fuel) bs = Gives-bind IsRead (decode_head bs) _ (λ (major, n, rest) read.
      Gives-decode_body (decode_items fuel) (decode_entries fuel none []) major n rest
        (Gives-decode_items fuel n rest) (Gives-decode_entries fuel none [] n rest))

  Gives-decode_items : (fuel n : ℕ) (bs : Bytes) → Gives AreRead (decode_items fuel n bs)
  Gives-decode_items fuel zero bs = tt
  Gives-decode_items zero (suc n) bs = tt
  Gives-decode_items (suc fuel) (suc n) bs =
      Gives-bind AreRead (decode_at fuel bs) _ (λ (item, rest) read.
        Gives-bind AreRead (decode_items fuel n rest) _ (λ a read'. (
          Gives-ok IsRead (decode_at fuel bs) (Gives-decode_at fuel bs) read,
          Gives-ok AreRead (decode_items fuel n rest) (Gives-decode_items fuel n rest) read',
        )))

  Gives-decode_entries :
      (fuel : ℕ) (previous : Option Bytes) (seen : List Scalar) (n : ℕ) (bs : Bytes)
      → Gives (AreReadAfter previous seen) (decode_entries fuel previous seen n bs)
  Gives-decode_entries fuel previous seen zero bs = tt
  Gives-decode_entries zero previous seen (suc n) bs = tt
  Gives-decode_entries (suc fuel) previous seen (suc n) bs =
      let P = AreReadAfter previous seen in
      Gives-bind P (decode_at fuel bs) _ (λ (key, after_key) read.
        Gives-bind P (or_raise (encode key) value_error) _ (λ encoded_key is_key.
          Gives-bind P (refuse_if (out_of_order previous encoded_key) value_error) _ (λ u ordered.
            Gives-bind P (decode_at fuel after_key) _ (λ (item, rest) read'.
              Gives-bind P (as_key key) _ (λ s is_scalar.
                Gives-bind P (refuse_if (has_key s seen) value_error) _ (λ u' fresh.
                  let later = decode_entries fuel (some encoded_key) (s ∷ seen) n rest in
                  Gives-bind P later _ (λ a read''. (
                    encoded_key,
                    subst (λ v. encode v ≡ some encoded_key) (as_key-ok key is_scalar)
                        (or_raise-eq-ok (encode key) value_error is_key),
                    refuse_if-eq-ok (out_of_order previous encoded_key) value_error ordered,
                    refuse_if-eq-ok (has_key s seen) value_error fresh,
                    Gives-ok IsRead (decode_at fuel after_key) (Gives-decode_at fuel after_key)
                        read',
                    Gives-ok (AreReadAfter (some encoded_key) (s ∷ seen)) later
                        (Gives-decode_entries fuel (some encoded_key) (s ∷ seen) n rest) read'',
                  ))))))))

Gives-at_end : (v : Value) (rest : Bytes) → IsCanonical v → Gives IsCanonical (at_end v rest)
unfolding Gives
Gives-at_end v [] c = c
Gives-at_end v (b ∷ rest) c = tt

-- In a value that `decode` accepts the keys of every dict are in increasing order of their
-- encodings, and no two of them are equal.
pub decode-IsCanonical : (bs : Bytes) (v : Value) → decode bs ≡ ok v → IsCanonical v
unfolding decode
decode-IsCanonical bs v h =
    Gives-ok IsCanonical (decode bs)
      (Gives-bind IsCanonical (decode_at (fuel_for bs) bs) _ (λ (w, rest) read.
        Gives-at_end w rest
          (Gives-ok IsRead (decode_at (fuel_for bs) bs) (Gives-decode_at (fuel_for bs) bs) read)))
      h
