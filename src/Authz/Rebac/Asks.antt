-- ===== src/Authz/Rebac/Asks.antt =====
-- Why a rule of `_check_userset` asks for a key, and what it gives where the key holds.
use auth_lab.Prelude.{
  ◌≡◌, refl, sym, ap, ◌∙◌, subst, inl, inr, String, Bool, true, Option, some, List, [], ◌∷◌, any,
  arith, Among, Among-append, Among-append_left, Among-append_right, Bool-cases, Option-cases,
}
use auth_lab.Prelude.Text.{split_once, before, or_empty}
use auth_lab.Authz.Rebac.{
  Tuple, Userset, this, computed, through, union, unknown, Usersets, nil, cons, direct, Key,
}
use auth_lab.Authz.Rebac.Member.{HasRule, AnyRule}
use auth_lab.Authz.Rebac.Rules.{userset_keys, parent_keys, grants, grants_any, asks, asks_all}

-- Why a rule asks for a key.
pub data Asks (tuples : List Tuple) (o r user : String) (rewrite : Userset) (key : Key)
    : Type 0 where
  by_userset :
      (candidate o' r' : String)
      → HasRule this rewrite
      → Among candidate (direct tuples o r)
      → split_once b'#' candidate ≡ some (o', r')
      → (o', r', user) ≡ key
      → Asks tuples o r user rewrite key
  by_relation :
      (relation : Option String)
      → HasRule (computed relation) rewrite
      → (o, or_empty relation, user) ≡ key
      → Asks tuples o r user rewrite key
  by_object :
      (tupleset relation : Option String) (parent : String)
      → HasRule (through tupleset relation) rewrite
      → Among parent (direct tuples o (or_empty tupleset))
      → (before b'#' parent, or_empty relation, user) ≡ key
      → Asks tuples o r user rewrite key

Asks-lift :
    (tuples : List Tuple) (o r user : String) (rewrite rewrite' : Userset) (key : Key)
    → ((rule : Userset) → HasRule rule rewrite → HasRule rule rewrite')
    → Asks tuples o r user rewrite key
    → Asks tuples o r user rewrite' key
Asks-lift tuples o r user rewrite rewrite' key lift (by_userset c o' r' h m s is) =
    by_userset c o' r' (lift this h) m s is
Asks-lift tuples o r user rewrite rewrite' key lift (by_relation relation h is) =
    by_relation relation (lift (computed relation) h) is
Asks-lift tuples o r user rewrite rewrite' key lift (by_object t relation p h m is) =
    by_object t relation p (lift (through t relation) h) m is

Among-userset_keys :
    (user : String) (cs : List String) (key : Key)
    → Among key (userset_keys user cs)
    → (candidate o' r' : String) × Among candidate cs
      × (split_once b'#' candidate ≡ some (o', r'))
      × ((o', r', user) ≡ key)
unfolding userset_keys
Among-userset_keys user [] key m = absurd m
Among-userset_keys user (c ∷ cs) key m = elim (Option-cases (split_once b'#' c)) [
  | inl no_hash ↦
      let (d, o', r', m', s, is) =
        Among-userset_keys user cs key (rw (no_hash, userset_keys) at m) in
      (d, o', r', inr m', s, is)
  | inr ((o', r'), hash) ↦
      let m' : Among key ((o', r', user) ∷ userset_keys user cs) = rw (hash, userset_keys) at m in
      elim m' [
        | inl is ↦ (c, o', r', inl refl, hash, is)
        | inr later ↦
            let (d, o'', r'', m'', s, is) = Among-userset_keys user cs key later in
            (d, o'', r'', inr m'', s, is)
      ]
]

Among-parent_keys :
    (user : String) (relation : Option String) (ps : List String) (key : Key)
    → Among key (parent_keys user relation ps)
    → (parent : String) × Among parent ps × ((before b'#' parent, or_empty relation, user) ≡ key)
unfolding parent_keys
Among-parent_keys user relation [] key m = absurd m
Among-parent_keys user relation (p ∷ ps) key (inl is) = (p, inl refl, is)
Among-parent_keys user relation (p ∷ ps) key (inr m) =
    let (q, m', is) = Among-parent_keys user relation ps key m in (q, inr m', is)

module _ (tuples : List Tuple) (o r user : String) (key : Key) where
  mutual
    unfolding asks HasRule

    pub Among-asks :
        (rewrite : Userset)
        → Among key (asks tuples o r user rewrite)
        → Asks tuples o r user rewrite key
    Among-asks this m =
        let (c, o', r', m', s, is) = Among-userset_keys user (direct tuples o r) key m in
        by_userset c o' r' refl m' s is
    Among-asks (computed relation) (inl is) = by_relation relation refl is
    Among-asks (computed relation) (inr m) = absurd m
    Among-asks (through tupleset relation) m =
        let (p, m', is) =
          Among-parent_keys user relation (direct tuples o (or_empty tupleset)) key m in
        by_object tupleset relation p refl m' is
    Among-asks (union children) m = Among-asks_all children m
    Among-asks unknown m = absurd m

    Among-asks_all :
        (children : Usersets)
        → Among key (asks_all tuples o r user children)
        → Asks tuples o r user (union children) key
    Among-asks_all nil m = absurd m
    Among-asks_all (cons child children) m =
        elim (Among-append key (asks tuples o r user child) (asks_all tuples o r user children) m) [
          | inl m' ↦
              Asks-lift tuples o r user child (union (cons child children)) key (λ rule h. inl h)
                (Among-asks child m')
          | inr m' ↦
              Asks-lift tuples o r user (union children) (union (cons child children)) key
                (λ rule h. inr h) (Among-asks_all children m')
        ]

-- The other way: what a rule gives.
pub userset_keys-Among :
    (user : String) (cs : List String) (c o' r' : String)
    → Among c cs
    → split_once b'#' c ≡ some (o', r')
    → Among (o', r', user) (userset_keys user cs)
unfolding userset_keys
userset_keys-Among user [] c o' r' m s = absurd m
userset_keys-Among user (d ∷ cs) c o' r' (inl is) s =
    let s' : split_once b'#' d ≡ some (o', r') = ap (split_once b'#') is ∙ s in
    rw (s', userset_keys) (inl refl)
userset_keys-Among user (d ∷ cs) c o' r' (inr m) s =
    let ih = userset_keys-Among user cs c o' r' m s in
    elim (Option-cases (split_once b'#' d)) [
      | inl no_hash ↦ rw (no_hash, userset_keys) ih
      | inr ((o'', r''), hash) ↦ rw (hash, userset_keys) (inr ih)
    ]

pub parent_keys-Among :
    (user : String) (relation : Option String) (ps : List String) (p : String)
    → Among p ps
    → Among (before b'#' p, or_empty relation, user) (parent_keys user relation ps)
unfolding parent_keys
parent_keys-Among user relation [] p m = absurd m
parent_keys-Among user relation (q ∷ ps) p (inl is) =
    inl (ap (λ x. (before b'#' x, or_empty relation, user)) is)
parent_keys-Among user relation (q ∷ ps) p (inr m) = inr (parent_keys-Among user relation ps p m)

module _ (tuples : List Tuple) (o r user : String) where
  mutual
    unfolding asks HasRule

    pub asks-rule :
        (rewrite rule : Userset) (key : Key)
        → HasRule rule rewrite
        → Among key (asks tuples o r user rule)
        → Among key (asks tuples o r user rewrite)
    asks-rule this rule key h m = subst (λ w. Among key (asks tuples o r user w)) (sym h) m
    asks-rule (computed relation) rule key h m =
        subst (λ w. Among key (asks tuples o r user w)) (sym h) m
    asks-rule (through t relation) rule key h m =
        subst (λ w. Among key (asks tuples o r user w)) (sym h) m
    asks-rule (union children) rule key h m = asks_all-rule children rule key h m
    asks-rule unknown rule key h m = absurd h

    asks_all-rule :
        (children : Usersets) (rule : Userset) (key : Key)
        → AnyRule rule children
        → Among key (asks tuples o r user rule)
        → Among key (asks_all tuples o r user children)
    asks_all-rule nil rule key h m = absurd h
    asks_all-rule (cons child children) rule key (inl h) m =
        Among-append_left key (asks tuples o r user child) (asks_all tuples o r user children)
          (asks-rule child rule key h m)
    asks_all-rule (cons child children) rule key (inr h) m =
        Among-append_right key (asks tuples o r user child) (asks_all tuples o r user children)
          (asks_all-rule children rule key h m)

module _ (tuples : List Tuple) (o r : String) (test : String → Bool) where
  mutual
    unfolding grants HasRule

    pub grants-this :
        (rewrite : Userset)
        → HasRule this rewrite
        → any test (direct tuples o r) ≡ true
        → grants tuples o r test rewrite ≡ true
    grants-this this h m = m
    grants-this (computed relation) h m = cc
    grants-this (through t relation) h m = cc
    grants-this (union children) h m = grants_any-this children h m
    grants-this unknown h m = absurd h

    grants_any-this :
        (children : Usersets)
        → AnyRule this children
        → any test (direct tuples o r) ≡ true
        → grants_any tuples o r test children ≡ true
    grants_any-this nil h m = absurd h
    grants_any-this (cons child children) (inl h) m = rw (grants-this child h m) refl
    grants_any-this (cons child children) (inr h) m = ground (arith, grants_any-this children h m)

  mutual
    unfolding grants HasRule

    pub this-grants :
        (rewrite : Userset)
        → grants tuples o r test rewrite ≡ true
        → HasRule this rewrite × (any test (direct tuples o r) ≡ true)
    this-grants this g = (refl, g)
    this-grants (computed relation) g = cc
    this-grants (through t relation) g = cc
    this-grants (union children) g = this-grants_any children g
    this-grants unknown g = cc

    this-grants_any :
        (children : Usersets)
        → grants_any tuples o r test children ≡ true
        → AnyRule this children × (any test (direct tuples o r) ≡ true)
    this-grants_any nil g = cc
    this-grants_any (cons child children) g = elim (Bool-cases (grants tuples o r test child)) [
      | inl first ↦ let (h, m) = this-grants child first in (inl h, m)
      | inr not_first ↦ let (h, m) = this-grants_any children (rw not_first at g) in (inr h, m)
    ]
