-- ===== src/Crypto/Cbor/Canonical.antt =====
-- Values whose dicts are in canonical order, and the sorting of what is in order.
use auth_lab.Prelude.{◌≡◌, refl, true, false, Option, none, some, List, [], ◌∷◌, arith}
use auth_lab.Crypto.Bytes.{Bytes}
use auth_lab.Crypto.Cbor.{
  Scalar, Value, scalar, arr, dict, Items, nil, cons, Entries, end, entry, encode_scalar, bytes_le,
  key_le, insert_part, sort_parts,
}
use auth_lab.Crypto.Cbor.Decode.{out_of_order, has_key}

-- A value as Python can hold it, its dicts in the order of the encoded keys: the keys of a dict are
-- unequal.
unfoldable mutual
  unfolding encode_scalar

  pub IsCanonical : Value → Type 0
  IsCanonical (scalar s) = Unit
  IsCanonical (arr xs) = AreCanonical xs
  IsCanonical (dict es) = AreOrdered none [] es

  pub AreCanonical : Items → Type 0
  AreCanonical nil = Unit
  AreCanonical (cons x xs) = IsCanonical x × AreCanonical xs

  pub AreOrdered : Option Bytes → List Scalar → Entries → Type 0
  AreOrdered previous seen end = Unit
  AreOrdered previous seen (entry k v es) =
      (key : Bytes) × (encode_scalar k ≡ some key)
      × (out_of_order previous key ≡ false)
      × (has_key k seen ≡ false)
      × IsCanonical v
      × AreOrdered (some key) (k ∷ seen) es

-- Sorting leaves what is in order as it is.
bytes_le_total : (a b : Bytes) → bytes_le a b ≡ false → bytes_le b a ≡ true
unfolding bytes_le
bytes_le_total [] b h = cc
bytes_le_total (x ∷ a) [] h = refl
bytes_le_total (x ∷ a) (y ∷ b) h = ground (arith, bytes_le_total a b)

key_le_total : (a b : Bytes) → key_le a b ≡ false → key_le b a ≡ true
unfolding key_le
key_le_total a b h = ground (arith, bytes_le_total a b)

unfoldable pub AreIncreasing : Option Bytes → List (Bytes × Bytes) → Type 0
AreIncreasing previous [] = Unit
AreIncreasing previous ((k, v) ∷ ps) = (out_of_order previous k ≡ false) × AreIncreasing (some k) ps

insert_part-AreIncreasing :
    (k v : Bytes) (ps : List (Bytes × Bytes))
    → AreIncreasing (some k) ps
    → insert_part (k, v) ps ≡ (k, v) ∷ ps
unfolding insert_part AreIncreasing
insert_part-AreIncreasing k v [] h = refl
insert_part-AreIncreasing k v ((j, w) ∷ ps) h = rw (key_le_total j k h.0) refl

pub sort_parts-AreIncreasing :
    (previous : Option Bytes) (ps : List (Bytes × Bytes))
    → AreIncreasing previous ps
    → sort_parts ps ≡ ps
unfolding sort_parts AreIncreasing
sort_parts-AreIncreasing previous [] h = refl
sort_parts-AreIncreasing previous ((k, v) ∷ ps) h =
    rw (sort_parts-AreIncreasing (some k) ps h.1) (insert_part-AreIncreasing k v ps h.1)
