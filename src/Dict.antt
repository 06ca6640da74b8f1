-- ===== src/Dict.antt =====
-- Python's `dict` with text keys: an association list in insertion order. Each operation has one
-- law in `if` form, and clients reason by those.
pub mod Laws
use auth_lab.Prelude.{
  String, Bool, true, false, Option, none, some, List, [], ◌∷◌, ◌&&◌, ◌||◌, str_eq, if◌then◌else◌,
}

abbrev pub Dict {ℓ} : Type ℓ → Type ℓ
Dict V = List (String × V)

module _ {ℓ} {V : Type ℓ} where
  -- `d.get(k)`
  unfoldable pub get : Dict V → String → Option V
  get [] k = none
  get ((j, v) ∷ d) k = if str_eq j k then some v else get d k

  -- `d[k] = v`: a key that is there keeps its place.
  unfoldable pub set : Dict V → String → V → Dict V
  set [] k v = (k, v) ∷ []
  set ((j, w) ∷ d) k v = if str_eq j k then (j, v) ∷ d else (j, w) ∷ set d k v

  -- `d[k].field = …`: the object under a key is changed in place; nothing, if the key is missing.
  unfoldable pub modify : Dict V → String → (V → V) → Dict V
  modify [] k f = []
  modify ((j, w) ∷ d) k f = if str_eq j k then (j, f w) ∷ d else (j, w) ∷ modify d k f

  -- `del d[k]`, for a dict that holds a key once.
  unfoldable pub remove : Dict V → String → Dict V
  remove [] k = []
  remove ((j, w) ∷ d) k = let rest = remove d k in if str_eq j k then rest else (j, w) ∷ rest

  -- A loop over `d.values()` that changes each object in place.
  unfoldable pub map_values : (V → V) → Dict V → Dict V
  map_values f [] = []
  map_values f ((j, w) ∷ d) = (j, f w) ∷ map_values f d

  -- `[k for k, v in d.items() if not p(v)]` deleted: what is left.
  unfoldable pub drop_values : (V → Bool) → Dict V → Dict V
  drop_values p [] = []
  drop_values p ((j, w) ∷ d) = let rest = drop_values p d in if p w then rest else (j, w) ∷ rest

-- `k in d`
abbrev pub has {ℓ} : {V : Type ℓ} → Dict V → String → Bool
has d k = elim (get d k) [ none ↦ false | some _ ↦ true ]
