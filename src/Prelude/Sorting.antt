-- ===== src/Prelude/Sorting.antt =====
-- Sorting and removing doubles keep the elements.
use mathlib.Core.Path.{◌≡◌, refl}
use mathlib.Core.Bool.{Bool, ◌||◌}
use mathlib.Core.List.{List, [], ◌∷◌, ◌++◌}
use Prim.Native.String.{String}
use native.Mathlib.Omega.{arith}
use text.Mathlib.Text.{◌==◌ as str_eq}
use auth_lab.Prelude.Lists.{any, contains}
use auth_lab.Prelude.Text.{insert_text, sort_texts}

any-insert_text :
    (p : String → Bool) (s : String) (ts : List String) → any p (insert_text s ts) ≡ p s || any p ts
unfolding insert_text
any-insert_text p s [] = refl
any-insert_text p s (t ∷ ts) = ground (arith, any-insert_text p s ts)

pub any-sort_texts : (p : String → Bool) (ts : List String) → any p (sort_texts ts) ≡ any p ts
unfolding sort_texts
any-sort_texts p [] = refl
any-sort_texts p (t ∷ ts) = ground (arith, any-insert_text p t (sort_texts ts), any-sort_texts p ts)

pub contains-eq-any : (ts : List String) (s : String) → contains ts s ≡ any (λ t. str_eq t s) ts
contains-eq-any [] s = refl
contains-eq-any (t ∷ ts) s = ground (arith, contains-eq-any ts s)

pub contains-sort_texts :
    (ts : List String) (s : String) → contains (sort_texts ts) s ≡ contains ts s
contains-sort_texts ts s = ground (
  arith,
  contains-eq-any (sort_texts ts) s,
  contains-eq-any ts s,
  any-sort_texts (λ t. str_eq t s) ts,
)

pub contains-append :
    (xs ys : List String) (s : String) → contains (xs ++ ys) s ≡ contains xs s || contains ys s
contains-append [] ys s = refl
contains-append (x ∷ xs) ys s = ground (arith, contains-append xs ys s)
