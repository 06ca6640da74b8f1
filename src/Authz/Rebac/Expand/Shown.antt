-- ===== src/Authz/Rebac/Expand/Shown.antt =====
-- Whom the tree of one rule shows.
use auth_lab.Prelude.{
  ◌≡◌, refl, ap, ◌∙◌, inl, inr, String, Bool, true, false, ◌||◌, Option, none, some, List, [], ◌∷◌,
  any, arith, str_eq, eq_iff, eq_refl, Among, Option-cases, contains,
}
use auth_lab.Prelude.Text.{split_once, before, or_empty, sort_texts, ends_with}
use auth_lab.Prelude.Sorting.{any-sort_texts, contains-append}
use auth_lab.Authz.Rebac.{
  Tuple, Userset, this, computed, through, union, unknown, Usersets, nil, cons, direct,
  fits_wildcard, Key,
}
use auth_lab.Authz.Rebac.Rules.{
  grants, grants_any, asks, asks_all, userset_keys, parent_keys, any-append,
}
use auth_lab.Authz.Rebac.Expand.{
  Tree, plain_users, userset_branches, object_branches, expand_userset, expand_children, walk,
  walk_branches, distinct,
}

pub contains-distinct : (ss : List String) (s : String) → contains (distinct ss) s ≡ contains ss s
unfolding distinct
contains-distinct [] s = refl
contains-distinct (t ∷ ss) s =
    ground (arith, contains-distinct ss s, contains-distinct ss t, eq_iff t s)

-- A candidate that is listed as it stands.
abbrev pub is_plain : String → String → Bool
is_plain w c = elim (split_once b'#' c) [ none ↦ str_eq c w | some _ ↦ false ]

pub is_plain-eq : (w c : String) → is_plain w c ≡ true → c ≡ w
is_plain-eq w c h = elim (Option-cases (split_once b'#' c)) [
  | inl no_hash ↦ (eq_iff c w).0 (rw (no_hash, is_plain) at h)
  | inr (or', hash) ↦ absurd (let bad = rw (hash, is_plain) at h in cc)
]

pub is_plain_self : (w : String) → split_once b'#' w ≡ none → is_plain w w ≡ true
is_plain_self w h = rw (h, is_plain) (eq_refl w)

pub fits_wildcard-ends_with :
    (user c : String) → fits_wildcard user c ≡ true → ends_with ":*" c ≡ true
unfolding fits_wildcard
fits_wildcard-ends_with user c h = ground arith

-- What the tree below a key shows.
abbrev pub shown : (String → String → Tree) → Key → Bool
shown recur (o, r, w) = contains (walk (recur o r)) w

contains-plain_users :
    (w : String) (cs : List String) → contains (plain_users cs) w ≡ any (is_plain w) cs
unfolding plain_users
contains-plain_users w [] = refl
contains-plain_users w (c ∷ cs) = elim (Option-cases (split_once b'#' c)) [
  | inl no_hash ↦ rw (no_hash, plain_users) (ground (arith, contains-plain_users w cs))
  | inr (or', hash) ↦ rw (hash, plain_users) (ground (arith, contains-plain_users w cs))
]

-- A userset whose tree shows `w`.
abbrev is_shown : (String → String → Tree) → String → String → Bool
is_shown recur w c = elim (split_once b'#' c) [ none ↦ false | some (o, r) ↦ shown recur (o, r, w) ]

contains-userset_branches :
    (recur : String → String → Tree) (w : String) (cs : List String)
    → contains (walk_branches (userset_branches recur cs)) w ≡ any (is_shown recur w) cs
unfolding userset_branches walk_branches
contains-userset_branches recur w [] = refl
contains-userset_branches recur w (c ∷ cs) = elim (Option-cases (split_once b'#' c)) [
  | inl no_hash ↦
      rw (no_hash, userset_branches) (ground (arith, contains-userset_branches recur w cs))
  | inr ((o, r), hash) ↦
      rw (hash, userset_branches)
        (ground (
          arith,
          contains-append (walk (recur o r)) (walk_branches (userset_branches recur cs)) w,
          contains-userset_branches recur w cs,
        ))
]

any-userset_keys :
    (recur : String → String → Tree) (w : String) (cs : List String)
    → any (is_shown recur w) cs ≡ any (shown recur) (userset_keys w cs)
unfolding userset_keys
any-userset_keys recur w [] = refl
any-userset_keys recur w (c ∷ cs) = elim (Option-cases (split_once b'#' c)) [
  | inl no_hash ↦ rw (no_hash, userset_keys) (ground (arith, any-userset_keys recur w cs))
  | inr ((o, r), hash) ↦ rw (hash, userset_keys) (ground (arith, any-userset_keys recur w cs))
]

contains-object_branches :
    (recur : String → String → Tree) (w via : String) (relation : Option String) (ps : List String)
    → contains (walk_branches (object_branches recur via (or_empty relation) ps)) w
      ≡ any (λ p. shown recur (before b'#' p, or_empty relation, w)) ps
unfolding object_branches walk_branches
contains-object_branches recur w via relation [] = refl
contains-object_branches recur w via relation (p ∷ ps) =
    contains-append (walk (recur (before b'#' p) (or_empty relation)))
      (walk_branches (object_branches recur via (or_empty relation) ps)) w
    ∙ ap (λ b. shown recur (before b'#' p, or_empty relation, w) || b)
        (contains-object_branches recur w via relation ps)

any-parent_keys :
    (recur : String → String → Tree) (w : String) (relation : Option String) (ps : List String)
    → any (λ p. shown recur (before b'#' p, or_empty relation, w)) ps
      ≡ any (shown recur) (parent_keys w relation ps)
unfolding parent_keys
any-parent_keys recur w relation [] = refl
any-parent_keys recur w relation (p ∷ ps) =
    ap (λ b. shown recur (before b'#' p, or_empty relation, w) || b)
      (any-parent_keys recur w relation ps)

module _ (tuples : List Tuple) (o r w : String) where
  mutual
    unfolding expand_userset walk grants asks

    pub contains-expand_userset :
        (recur : String → String → Tree) (rewrite : Userset)
        → contains (walk (expand_userset tuples recur rewrite o r)) w
          ≡ grants tuples o r (is_plain w) rewrite || any (shown recur) (asks tuples o r w rewrite)
    contains-expand_userset recur this =
        let cs = direct tuples o r in
        ground (
          arith,
          contains-append (plain_users (sort_texts cs))
              (walk_branches (userset_branches recur (sort_texts cs))) w,
          contains-plain_users w (sort_texts cs),
          contains-userset_branches recur w (sort_texts cs),
          any-sort_texts (is_plain w) cs,
          any-sort_texts (is_shown recur w) cs,
          any-userset_keys recur w cs,
        )
    contains-expand_userset recur (computed relation) = ground arith
    contains-expand_userset recur (through tupleset relation) =
        let ps = direct tuples o (or_empty tupleset) in
        contains-object_branches recur w _ relation (sort_texts ps)
        ∙ any-sort_texts (λ p. shown recur (before b'#' p, or_empty relation, w)) ps
        ∙ any-parent_keys recur w relation ps
    contains-expand_userset recur (union children) = contains-expand_children recur children
    contains-expand_userset recur unknown = refl

    contains-expand_children :
        (recur : String → String → Tree) (children : Usersets)
        → contains (walk_branches (expand_children tuples recur children o r)) w
          ≡ grants_any tuples o r (is_plain w) children
            || any (shown recur) (asks_all tuples o r w children)
    contains-expand_children recur nil = refl
    contains-expand_children recur (cons child children) =
        let tree = expand_userset tuples recur child o r in
        let trees = expand_children tuples recur children o r in
        ground (
          arith,
          contains-append (walk tree) (walk_branches trees) w,
          contains-expand_userset recur child,
          contains-expand_children recur children,
          any-append (shown recur) (asks tuples o r w child) (asks_all tuples o r w children),
        )

pub any-cong-Among :
    {A : Type 0} (p q : A → Bool) (xs : List A)
    → ((a : A) → Among a xs → p a ≡ q a)
    → any p xs ≡ any q xs
any-cong-Among p q [] same = refl
any-cong-Among p q (x ∷ xs) same =
    ground (arith, same x (inl refl), any-cong-Among p q xs (λ a m. same a (inr m)))
