-- ===== src/Crypto/Cbor/Decode/Progress.antt =====
-- The decoder goes forward: an item takes a byte at least.
use auth_lab.Prelude.{
  ℕ, zero, suc, ◌-◌, ◌≤◌, ◌≡◌, refl, Bool, true, false, Option, none, some, List, [], ◌∷◌, arith,
  length, ◌==◌, if◌then◌else◌,
}
use auth_lab.Crypto.Bytes.{Bytes, split_at, split_at-shrinks}
use auth_lab.Crypto.Cbor.{Scalar, bytes, text, scalar, arr, dict, Items, Entries, encode}
use auth_lab.Crypto.Cbor.Decode.{
  as_key, decode_head, decode_body, decode_at, decode_items, decode_entries, out_of_order, has_key,
  decode_simple, Error, value_error,
}
use auth_lab.Prelude.Result.{Result, ok, err, ◌>>=◌, refuse_if, or_raise}
use auth_lab.Crypto.Bytes.Utf8.{decode_text}
use auth_lab.Crypto.Cbor.Decode.Heads.{decode_head-shrinks}

-- A result leaves at most `k` bytes.
unfoldable pub Leaves : {A : Type 0} → ℕ → Result Error (A × Bytes) → Type 0
Leaves k (ok (a, rest)) = length rest ≤ k
Leaves k (err e) = Unit

Leaves-if :
    {A : Type 0} (k : ℕ) (b : Bool) (x y : Result Error (A × Bytes))
    → Leaves k x
    → Leaves k y
    → Leaves k (if b then x else y)
Leaves-if k true x y p q = p
Leaves-if k false x y p q = q

Leaves-bind :
    {A B : Type 0} (k : ℕ) (m : Result Error (A × Bytes)) (f : A × Bytes → Result Error (B × Bytes))
    → Leaves k m
    → ((a : A) (rest : Bytes) → m ≡ ok (a, rest) → length rest ≤ k → Leaves k (f (a, rest)))
    → Leaves k (m >>= f)
unfolding Leaves
Leaves-bind k (ok (a, rest)) f p q = q a rest refl p
Leaves-bind k (err e) f p q = tt

-- Steps that read nothing.
Leaves-after :
    {A B : Type 0} (k : ℕ) (m : Result Error A) (f : A → Result Error (B × Bytes))
    → ((a : A) → m ≡ ok a → Leaves k (f a))
    → Leaves k (m >>= f)
unfolding Leaves
Leaves-after k (ok a) f q = q a refl
Leaves-after k (err e) f q = tt

Leaves-more :
    {A : Type 0} (j k : ℕ) (m : Result Error (A × Bytes)) → j ≤ k → Leaves j m → Leaves k m
unfolding Leaves
Leaves-more j k (ok (a, rest)) h p = omega arith
Leaves-more j k (err e) h p = tt

Leaves-split_at : (n : ℕ) (bs : Bytes) → Leaves (length bs) (or_raise (split_at n bs) value_error)
unfolding Leaves
Leaves-split_at n bs = go (split_at n bs) (split_at-shrinks n bs)
  where
    go :
        (o : Option (Bytes × Bytes))
        → ((front back : Bytes) → o ≡ some (front, back) → length back ≤ length bs)
        → Leaves (length bs) (or_raise o value_error)
    go none h = tt
    go (some (front, back)) h = h front back refl

Leaves-decode_body :
    (items : ℕ → Bytes → Result Error (Items × Bytes))
    (entries : ℕ → Bytes → Result Error (Entries × Bytes)) (major n : ℕ) (rest : Bytes)
    → Leaves (length rest) (items n rest)
    → Leaves (length rest) (entries n rest)
    → Leaves (length rest) (decode_body items entries major n rest)
unfolding decode_body Leaves
Leaves-decode_body items entries major n rest hi he =
    let k = length rest in
    let read_bytes =
      Leaves-bind k (or_raise (split_at n rest) value_error) (λ p. ok (scalar (bytes p.0), p.1))
        (Leaves-split_at n rest) (λ a r e h. h) in
    let read_text =
      Leaves-bind k (or_raise (split_at n rest) value_error)
        (λ p. or_raise (decode_text p.0) value_error >>= λ cs. ok (scalar (text cs), p.1))
        (Leaves-split_at n rest)
        (λ a r e h.
          Leaves-after k (or_raise (decode_text a) value_error) (λ cs. ok (scalar (text cs), r))
            (λ cs f. h)) in
    let read_items = Leaves-bind k (items n rest) (λ p. ok (arr p.0, p.1)) hi (λ a r e h. h) in
    let read_entries = Leaves-bind k (entries n rest) (λ p. ok (dict p.0, p.1)) he (λ a r e h. h) in
    let same : k ≤ k = omega arith in
    Leaves-if k (major == 0) _ _ same (
      Leaves-if k (major == 1) _ _ same (
        Leaves-if k (major == 2) _ _ read_bytes (
          Leaves-if k (major == 3) _ _ read_text (
            Leaves-if k (major == 4) _ _ read_items (
              Leaves-if k (major == 5) _ _ read_entries
                (Leaves-if k (major == 7) _ _ (simple k same) tt))))))
  where
    simple : (k : ℕ) → length rest ≤ k → Leaves k (decode_simple n rest)
    simple k same =
        Leaves-if k (n == 20) _ _ same
          (Leaves-if k (n == 21) _ _ same (Leaves-if k (n == 22) _ _ same tt))

Leaves-item :
    (fuel : ℕ) (bs : Bytes)
    → Leaves (length bs - 1) (decode_at fuel bs)
    → Leaves (length bs) (decode_at fuel bs)
Leaves-item fuel bs h = Leaves-more (length bs - 1) (length bs) (decode_at fuel bs) (omega arith) h

mutual
  unfolding decode_at Leaves

  pub Leaves-decode_at : (fuel : ℕ) (bs : Bytes) → Leaves (length bs - 1) (decode_at fuel bs)
  Leaves-decode_at zero bs = tt
  Leaves-decode_at (suc fuel) bs =
      Leaves-after (length bs - 1) (decode_head bs) _ (λ (major, n, rest) read.
        Leaves-more (length rest) (length bs - 1)
          (decode_body (decode_items fuel) (decode_entries fuel none []) major n rest)
          (omega (arith, decode_head-shrinks bs rest major n read))
          (Leaves-decode_body (decode_items fuel) (decode_entries fuel none []) major n rest
            (Leaves-decode_items fuel n rest) (Leaves-decode_entries fuel none [] n rest)))

  Leaves-decode_items : (fuel n : ℕ) (bs : Bytes) → Leaves (length bs) (decode_items fuel n bs)
  Leaves-decode_items fuel zero bs = omega arith
  Leaves-decode_items zero (suc n) bs = tt
  Leaves-decode_items (suc fuel) (suc n) bs =
      Leaves-bind (length bs) (decode_at fuel bs) _ (Leaves-item fuel bs (Leaves-decode_at fuel bs))
        (λ item rest read le.
          Leaves-bind (length bs) (decode_items fuel n rest) _
            (Leaves-more (length rest) (length bs) (decode_items fuel n rest) le
              (Leaves-decode_items fuel n rest))
            (λ items behind read' le'. le'))

  Leaves-decode_entries :
      (fuel : ℕ) (previous : Option Bytes) (seen : List Scalar) (n : ℕ) (bs : Bytes)
      → Leaves (length bs) (decode_entries fuel previous seen n bs)
  Leaves-decode_entries fuel previous seen zero bs = omega arith
  Leaves-decode_entries zero previous seen (suc n) bs = tt
  Leaves-decode_entries (suc fuel) previous seen (suc n) bs =
      let k = length bs in
      Leaves-bind k (decode_at fuel bs) _ (Leaves-item fuel bs (Leaves-decode_at fuel bs))
        (λ key after_key read le.
          Leaves-after k (or_raise (encode key) value_error) _ (λ encoded_key is_key.
            Leaves-after k (refuse_if (out_of_order previous encoded_key) value_error) _
              (λ u ordered.
                Leaves-bind k (decode_at fuel after_key) _
                  (Leaves-more (length after_key) k (decode_at fuel after_key) le
                    (Leaves-item fuel after_key (Leaves-decode_at fuel after_key)))
                  (λ item rest read' le'. Leaves-after k (as_key key) _ (λ s is_scalar.
                    Leaves-after k (refuse_if (has_key s seen) value_error) _ (λ u' fresh.
                      let later = decode_entries fuel (some encoded_key) (s ∷ seen) n rest in
                      Leaves-bind k later _
                        (Leaves-more (length rest) k later le'
                          (Leaves-decode_entries fuel (some encoded_key) (s ∷ seen) n rest))
                        (λ entries behind read'' le''. le'')))))))
