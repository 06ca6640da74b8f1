-- ===== src/Authz/Rebac/Rules.antt =====
-- What a rule of `_check_userset` grants by itself, and which keys it asks.
use auth_lab.Prelude.{
  ◌≡◌, refl, inl, inr, String, Bool, false, ◌||◌, Option, none, some, List, [], ◌∷◌, ◌++◌, any,
  arith, str_eq, Option-cases,
}
use auth_lab.Prelude.Text.{split_once, before, or_empty}
use auth_lab.Authz.Rebac.{
  Tuple, Userset, this, computed, through, union, unknown, Usersets, nil, cons, direct,
  fits_wildcard, admits, check_userset, check_children, Key,
}

-- A rule grants by itself, or asks other keys.
abbrev pub names : String → String → Bool
names user candidate = str_eq candidate user || fits_wildcard user candidate

unfoldable pub userset_keys : String → List String → List Key
userset_keys user [] = []
userset_keys user (c ∷ cs) = elim (split_once b'#' c) [
  | none ↦ userset_keys user cs
  | some (o, r) ↦ (o, r, user) ∷ userset_keys user cs
]

unfoldable pub parent_keys : String → Option String → List String → List Key
parent_keys user relation [] = []
parent_keys user relation (p ∷ ps) =
    (before b'#' p, or_empty relation, user) ∷ parent_keys user relation ps

-- The candidates under `this` that pass the test.
module _ (tuples : List Tuple) (o r : String) (test : String → Bool) where
  unfoldable mutual
    pub grants : Userset → Bool
    grants this = any test (direct tuples o r)
    grants (computed relation) = false
    grants (through tupleset relation) = false
    grants (union children) = grants_any children
    grants unknown = false

    pub grants_any : Usersets → Bool
    grants_any nil = false
    grants_any (cons child children) = grants child || grants_any children

module _ (tuples : List Tuple) (o r user : String) where
  unfoldable mutual
    unfolding userset_keys parent_keys

    pub asks : Userset → List Key
    asks this = userset_keys user (direct tuples o r)
    asks (computed relation) = (o, or_empty relation, user) ∷ []
    asks (through tupleset relation) =
        parent_keys user relation (direct tuples o (or_empty tupleset))
    asks (union children) = asks_all children
    asks unknown = []

    pub asks_all : Usersets → List Key
    asks_all nil = []
    asks_all (cons child children) = asks child ++ asks_all children

pub any-append :
    {A : Type 0} (p : A → Bool) (xs ys : List A) → any p (xs ++ ys) ≡ any p xs || any p ys
any-append p [] ys = refl
any-append p (x ∷ xs) ys = ground (arith, any-append p xs ys)

any-admits :
    (recur : Key → Bool) (user : String) (cs : List String)
    → any (admits recur user) cs ≡ any (names user) cs || any recur (userset_keys user cs)
unfolding admits userset_keys
any-admits recur user [] = refl
any-admits recur user (c ∷ cs) = elim (Option-cases (split_once b'#' c)) [
  | inl no_hash ↦ rw no_hash (ground (arith, any-admits recur user cs))
  | inr ((o, r), hash) ↦ rw hash (ground (arith, any-admits recur user cs))
]

any-parents :
    (recur : Key → Bool) (user : String) (relation : Option String) (ps : List String)
    → any (λ parent. recur (before b'#' parent, or_empty relation, user)) ps
      ≡ any recur (parent_keys user relation ps)
unfolding parent_keys
any-parents recur user relation [] = refl
any-parents recur user relation (p ∷ ps) = ground (arith, any-parents recur user relation ps)

mutual
  unfolding check_userset grants asks

  pub check_userset-asks :
      (tuples : List Tuple) (recur : Key → Bool) (rewrite : Userset) (o r user : String)
      → check_userset tuples recur rewrite o r user
        ≡ grants tuples o r (names user) rewrite || any recur (asks tuples o r user rewrite)
  check_userset-asks tuples recur this o r user = any-admits recur user (direct tuples o r)
  check_userset-asks tuples recur (computed relation) o r user = ground arith
  check_userset-asks tuples recur (through tupleset relation) o r user =
      any-parents recur user relation (direct tuples o (or_empty tupleset))
  check_userset-asks tuples recur (union children) o r user =
      check_children-asks tuples recur children o r user
  check_userset-asks tuples recur unknown o r user = refl

  check_children-asks :
      (tuples : List Tuple) (recur : Key → Bool) (children : Usersets) (o r user : String)
      → check_children tuples recur children o r user
        ≡ grants_any tuples o r (names user) children
          || any recur (asks_all tuples o r user children)
  check_children-asks tuples recur nil o r user = refl
  check_children-asks tuples recur (cons child children) o r user = ground (
    arith,
    check_userset-asks tuples recur child o r user,
    check_children-asks tuples recur children o r user,
    any-append recur (asks tuples o r user child) (asks_all tuples o r user children),
  )

pub any-cong :
    {A : Type 0} (p q : A → Bool) → ((a : A) → p a ≡ q a) → (xs : List A) → any p xs ≡ any q xs
any-cong p q same [] = refl
any-cong p q same (x ∷ xs) = ground (arith, same x, any-cong p q same xs)
