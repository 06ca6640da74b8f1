-- ===== src/Dict/Laws.antt =====
-- What a lookup finds after each operation.
use mathlib.Core.Option
use auth_lab.Prelude.{
  String, Bool, false, ◌≡◌, refl, none, some, [], ◌∷◌, arith, str_eq, eq_iff, if◌then◌else◌,
}
use auth_lab.Dict.{Dict, get, set, modify, remove, map_values, drop_values}

module _ {ℓ} {V : Type ℓ} where
  pub get-set :
      (d : Dict V) (k : String) (v : V) (j : String)
      → get (set d k v) j ≡ (if str_eq k j then some v else get d j)
  unfolding get set
  get-set [] k v j = refl
  get-set ((i, w) ∷ d) k v j = ground (arith, eq_iff k j, eq_iff i k, eq_iff i j, get-set d k v j)

  pub get-modify :
      (d : Dict V) (k : String) (f : V → V) (j : String)
      → get (modify d k f) j ≡ (if str_eq k j then Option.map f (get d j) else get d j)
  unfolding get modify
  get-modify [] k f j = ground arith
  get-modify ((i, w) ∷ d) k f j =
      ground (arith, eq_iff k j, eq_iff i k, eq_iff i j, get-modify d k f j)

  pub get-remove :
      (d : Dict V) (k j : String) → get (remove d k) j ≡ (if str_eq k j then none else get d j)
  unfolding get remove
  get-remove [] k j = ground arith
  get-remove ((i, w) ∷ d) k j = ground (arith, eq_iff k j, eq_iff i k, eq_iff i j, get-remove d k j)

  pub get-map_values :
      (f : V → V) (d : Dict V) (j : String) → get (map_values f d) j ≡ Option.map f (get d j)
  unfolding get map_values
  get-map_values f [] j = refl
  get-map_values f ((i, w) ∷ d) j = ground (arith, get-map_values f d j)

  -- What the loop that deletes by value keeps is found as before.
  pub get-drop_values :
      (p : V → Bool) (d : Dict V) (j : String) {v : V}
      → get d j ≡ some v
      → p v ≡ false
      → get (drop_values p d) j ≡ some v
  unfolding get drop_values
  get-drop_values p [] j h q = cc
  get-drop_values p ((i, w) ∷ d) j {v} h q =
      ground (arith, eq_iff i j, get-drop_values p d j {v = v})
