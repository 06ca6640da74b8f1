-- ===== src/Crypto/Cbor/Decode/Total.antt =====
-- The decoder never runs out of fuel.
use auth_lab.Prelude.{
  ℕ, zero, suc, ◌+◌, ◌-◌, ◌*◌, ◌≤◌, ◌≡◌, ◌≢◌, refl, subst, Bool, true, false, Option, none, some,
  List, [], ◌∷◌, arith, length,
}
use auth_lab.Crypto.Bytes.{Bytes}
use auth_lab.Crypto.Cbor.{Scalar, Value, scalar, arr, dict, Items, Entries, encode}
use auth_lab.Crypto.Cbor.Decode.{
  out_of_fuel, as_key, decode_head, decode_body, decode_at, decode_items, decode_entries, decode,
  fuel_for, out_of_order, has_key, at_end, Error, value_error,
}
use auth_lab.Prelude.Result.{Result, ok, err, ◌>>=◌, refuse_if, or_raise}
use auth_lab.Crypto.Cbor.Decode.Progress.{Leaves, Leaves-decode_at}
use auth_lab.Crypto.Cbor.Decode.Heads.{decode_head-shrinks}

decode_body-fed :
    (items : ℕ → Bytes → Result Error (Items × Bytes))
    (entries : ℕ → Bytes → Result Error (Entries × Bytes)) (major n : ℕ) (rest : Bytes)
    → items n rest ≢ err out_of_fuel
    → entries n rest ≢ err out_of_fuel
    → decode_body items entries major n rest ≢ err out_of_fuel
unfolding decode_body
decode_body-fed items entries major n rest hi he h = ground arith

Fed-bind :
    {A B : Type 0} (m : Result Error A) (f : A → Result Error B)
    → m ≢ err out_of_fuel
    → ((a : A) → m ≡ ok a → f a ≢ err out_of_fuel)
    → (m >>= f) ≢ err out_of_fuel
Fed-bind (ok a) f h k = k a refl
Fed-bind (err e) f h k = λ x. h (cc)

decode_head-fed : (bs : Bytes) → decode_head bs ≢ err out_of_fuel
unfolding decode_head
decode_head-fed [] h = cc
decode_head-fed (b ∷ bs) h = ground arith

or_raise-fed : {A : Type 0} (o : Option A) → or_raise o value_error ≢ err out_of_fuel
or_raise-fed none h = cc
or_raise-fed (some a) h = cc

refuse_if-fed : (b : Bool) → refuse_if b value_error ≢ err out_of_fuel
refuse_if-fed true h = cc
refuse_if-fed false h = cc

as_key-fed : (v : Value) → as_key v ≢ err out_of_fuel
as_key-fed (scalar s) h = cc
as_key-fed (arr xs) h = cc
as_key-fed (dict es) h = cc

-- An item that was read leaves a byte less.
decode_at-shrinks :
    (fuel : ℕ) (bs : Bytes) {v : Value} {rest : Bytes}
    → decode_at fuel bs ≡ ok (v, rest)
    → length rest + 1 ≤ length bs
unfolding decode_at decode_head Leaves
decode_at-shrinks zero [] h = cc
decode_at-shrinks (suc fuel) [] h = cc
decode_at-shrinks fuel (b ∷ bs) h =
    let shorter = subst (λ r. Leaves (length (b ∷ bs) - 1) r) h (Leaves-decode_at fuel (b ∷ bs)) in
    omega arith

mutual
  unfolding decode_at

  decode_at-fed :
      (fuel : ℕ) (bs : Bytes) → 2 * length bs + 1 ≤ fuel → decode_at fuel bs ≢ err out_of_fuel
  decode_at-fed zero bs le = absurd (omega arith)
  decode_at-fed (suc fuel) bs le =
      Fed-bind (decode_head bs) _ (decode_head-fed bs) (λ (major, n, rest) read.
        let fits : 2 * length rest + 2 ≤ fuel =
          omega (arith, decode_head-shrinks bs rest major n read) in
        decode_body-fed (decode_items fuel) (decode_entries fuel none []) major n rest
          (decode_items-fed fuel n rest fits) (decode_entries-fed fuel none [] n rest fits))

  decode_items-fed :
      (fuel n : ℕ) (bs : Bytes)
      → 2 * length bs + 2 ≤ fuel
      → decode_items fuel n bs ≢ err out_of_fuel
  decode_items-fed fuel zero bs le = λ h. cc
  decode_items-fed zero (suc n) bs le = absurd (omega arith)
  decode_items-fed (suc fuel) (suc n) bs le =
      Fed-bind (decode_at fuel bs) _ (decode_at-fed fuel bs (omega arith)) (λ (item, rest) read.
        Fed-bind (decode_items fuel n rest) _
          (decode_items-fed fuel n rest (omega (arith, decode_at-shrinks fuel bs read)))
          (λ a e h. cc))

  decode_entries-fed :
      (fuel : ℕ) (previous : Option Bytes) (seen : List Scalar) (n : ℕ) (bs : Bytes)
      → 2 * length bs + 2 ≤ fuel
      → decode_entries fuel previous seen n bs ≢ err out_of_fuel
  decode_entries-fed fuel previous seen zero bs le = λ h. cc
  decode_entries-fed zero previous seen (suc n) bs le = absurd (omega arith)
  decode_entries-fed (suc fuel) previous seen (suc n) bs le =
      Fed-bind (decode_at fuel bs) _ (decode_at-fed fuel bs (omega arith)) (λ (key, after_key) read.
        let shorter = decode_at-shrinks fuel bs read in
        Fed-bind (or_raise (encode key) value_error) _ (or_raise-fed (encode key))
          (λ encoded_key is_key.
            Fed-bind (refuse_if (out_of_order previous encoded_key) value_error) _
              (refuse_if-fed (out_of_order previous encoded_key))
              (λ u ordered.
                Fed-bind (decode_at fuel after_key) _ (decode_at-fed fuel after_key (omega arith))
                  (λ (item, rest) read'.
                    let shorter' = decode_at-shrinks fuel after_key read' in
                    Fed-bind (as_key key) _ (as_key-fed key) (λ s is_scalar.
                      Fed-bind (refuse_if (has_key s seen) value_error) _
                        (refuse_if-fed (has_key s seen))
                        (λ u' fresh.
                          Fed-bind (decode_entries fuel (some encoded_key) (s ∷ seen) n rest) _
                            (decode_entries-fed fuel (some encoded_key) (s ∷ seen) n rest
                              (omega arith))
                            (λ a e h. cc)))))))

at_end-fed : (v : Value) (rest : Bytes) → at_end v rest ≢ err out_of_fuel
at_end-fed v [] h = cc
at_end-fed v (b ∷ rest) h = cc

-- `decode` ends on all bytes: the fuel that it is given is never used up.
pub decode-total : (bs : Bytes) → decode bs ≢ err out_of_fuel
unfolding decode
decode-total bs =
    Fed-bind (decode_at (fuel_for bs) bs) _ (decode_at-fed (fuel_for bs) bs (omega arith))
      (λ (v, rest) read. at_end-fed v rest)
