-- ===== src/Authz/Rbac/Order.antt =====
-- The check of `define_role`: a definition that passes leaves no cycle below the role.
use auth_lab.Prelude.{
  String, Bool, true, some, List, [], ◌∷◌, ◌≡◌, ◌⊎◌, inl, inr, refl, sym, subst, arith, In, eq_refl,
}
use auth_lab.Dict.{Dict, get, set}
use auth_lab.Dict.Laws.{get-set}
use auth_lab.Authz.Rbac.{Role, Rbac, define_role}
use auth_lab.Authz.Rbac.Acyclic.{
  Inherits, Above, direct, further, Defined, Forward, Met, Complete, search_cycle-Seen,
  search_cycle-total,
}

module _ (roles : Dict Role) where
  -- In the order of the search, the second name comes after the first.
  abbrev After : List String → String → String → Type 0
  After [] p q = ⊥
  After (x ∷ out) p q = ((x ≡ q) × In p out) ⊎ After out p q

  After-In : (out : List String) (p q : String) → After out p q → In p out × In q out
  After-In [] p q a = absurd a
  After-In (x ∷ out) p q (inl (same, m)) = (inr m, inl same)
  After-In (x ∷ out) p q (inr a) = let (m, k) = After-In out p q a in (inr m, inr k)

  Inherits-After :
      (out : List String) (p q : String)
      → Forward roles out
      → In p out
      → In q out
      → Inherits roles p q
      → After out p q
  Inherits-After [] p q f m k edge = absurd m
  Inherits-After (x ∷ out) p q (_, back, f) (inl same) k edge =
      absurd (back q (subst (λ y. Inherits roles y q) (sym same) edge) k)
  Inherits-After (x ∷ out) p q (_, back, f) (inr m) (inl same) edge = inl (same, m)
  Inherits-After (x ∷ out) p q (_, back, f) (inr m) (inr k) edge =
      inr (Inherits-After out p q f m k edge)

  After-trans :
      (out : List String) (p q r : String)
      → Forward roles out
      → After out p q
      → After out q r
      → After out p r
  After-trans [] p q r f a b = absurd a
  After-trans (x ∷ out) p q r (new, _, f) (inl (same, m)) (inl (same', k)) = inl (same', m)
  After-trans (x ∷ out) p q r (new, _, f) (inl (same, m)) (inr b) =
      absurd (new (subst (λ y. In y out) (sym same) (After-In out q r b).0))
  After-trans (x ∷ out) p q r (new, _, f) (inr a) (inl (same', k)) =
      inl (same', (After-In out p q a).0)
  After-trans (x ∷ out) p q r (new, _, f) (inr a) (inr b) = inr (After-trans out p q r f a b)

  After-irrefl : (out : List String) (p : String) → Forward roles out → After out p p → ⊥
  After-irrefl [] p f a = a
  After-irrefl (x ∷ out) p (new, _, f) (inl (same, m)) = new (subst (λ y. In y out) (sym same) m)
  After-irrefl (x ∷ out) p (new, _, f) (inr a) = After-irrefl out p f a

  Met-In : (out : List String) (q : String) → Defined roles q → Met roles out [] q → In q out
  Met-In out q (role, found) (inl unknown) = absurd (cc)
  Met-In out q d (inr (inl m)) = m
  Met-In out q d (inr (inr m)) = absurd m

  starts : {p q : String} → Above roles p q → Defined roles p
  starts (direct (role, found, _)) = (role, found)
  starts (further a _) = starts a

  module _ (out : List String) (f : Forward roles out) (c : Complete roles out []) where
    Above-After : (p q : String) → In p out → Above roles p q → Defined roles q → After out p q
    Above-After p q m (direct edge) d =
        Inherits-After out p q f m (Met-In out q d (c p q m edge)) edge
    Above-After p r m (further {q} above edge) d =
        let (role, found, _) = edge in
        let before = Above-After p q m above (role, found) in
        let k = (After-In out p q before).1 in
        After-trans out p q r f before
          (Inherits-After out q r f k (Met-In out r d (c q r k edge)) edge)

    no_cycle : (p : String) → In p out → Above roles p p → ⊥
    no_cycle p m above = After-irrefl out p f (Above-After p p m above (starts above))

    Above-In : (p q : String) → In p out → Above roles p q → Defined roles q → In q out
    Above-In p q m above d = (After-In out p q (Above-After p q m above d)).1

-- `define_role` answers or raises its error; it does not run on.
pub define_role-total :
    (b : Rbac) (role : Role) → (answer : Bool) × ((define_role b role).0 ≡ some answer)
unfolding define_role
define_role-total b role =
    search_cycle-total (set b.roles role.name role) _ [] (role.name ∷ []) (omega arith)

-- Where `define_role` does not raise, neither the role nor any role below it inherits from itself, in
-- however many steps.
pub define_role-acyclic :
    (b : Rbac) (role : Role) (name : String)
    → (define_role b role).0 ≡ some true
    → (name ≡ role.name) ⊎ Above (define_role b role).1.roles role.name name
    → ¬ Above (define_role b role).1.roles name name
unfolding define_role
define_role-acyclic b role name passes below cycle =
    let roles = set b.roles role.name role in
    let (out, forward, complete, meets) =
      search_cycle-Seen roles _ [] (role.name ∷ []) passes tt (λ p q m e. absurd m) in
    let defined : get roles role.name ≡ some role =
      rw (get-set b.roles role.name role role.name, eq_refl role.name) refl in
    let start =
      Met-In roles out role.name (role, defined) (meets role.name (inr (inr (inl refl)))) in
    elim below [
      | inl same ↦
          no_cycle roles out forward complete name (subst (λ x. In x out) (sym same) start) cycle
      | inr above ↦
          no_cycle roles out forward complete name
            (Above-In roles out forward complete role.name name start above (starts roles cycle))
            cycle
    ]
