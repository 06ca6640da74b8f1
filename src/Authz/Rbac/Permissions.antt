-- ===== src/Authz/Rbac/Permissions.antt =====
-- What `can` answers: the permissions of the roles that are held.
use auth_lab.Prelude.{
  String, Bool, true, some, List, [], ◌∷◌, ◌≡◌, inl, inr, ◌↔◌, refl, sym, arith, any, In,
  Bool-cases, subst,
}
use auth_lab.Dict.{Dict, get}
use auth_lab.Authz.Rbac.{Role, Rbac, held_by, any_grants, permissions_of, permission_matches, can}
use auth_lab.Authz.Rbac.Resolution.{Holds, effective_roles_iff}

-- One of the permissions covers the one that is asked for.
abbrev pub Grants : String → List String → Type 0
Grants permission held =
    (granted : String) × In granted held × (permission_matches granted permission ≡ true)

any-Grants :
    (permission : String) (held : List String)
    → (any (λ g. permission_matches g permission) held ≡ true) ↔ Grants permission held
any-Grants permission [] = (λ h. cc, λ (g, m, e). absurd m)
any-Grants permission (g ∷ held) = (
  λ h. elim (Bool-cases (permission_matches g permission)) [
    | inl fits ↦ (g, inl refl, fits)
    | inr other ↦ let (k, m, e) = (any-Grants permission held).0 (ground arith) in (k, inr m, e)
  ],
  λ (k, m, e). elim m [
    | inl same ↦
        let fits : permission_matches g permission ≡ true =
          subst (λ x. permission_matches x permission ≡ true) (sym same) e in
        ground arith
    | inr later ↦ let rest = (any-Grants permission held).1 (k, later, e) in ground arith
  ],
)

-- A role among the names whose permissions cover the one that is asked for.
abbrev pub Granting : Dict Role → String → List String → Type 0
Granting roles permission names =
    (name : String) × In name names × Grants permission (permissions_of (get roles name))

any_grants_iff :
    (roles : Dict Role) (permission : String) (names : List String)
    → (any_grants roles permission names ≡ true) ↔ Granting roles permission names
unfolding any_grants
any_grants_iff roles permission [] = (λ h. cc, λ (n, m, e). absurd m)
any_grants_iff roles permission (name ∷ names) =
    let here = any-Grants permission (permissions_of (get roles name)) in
    let below = any_grants_iff roles permission names in
    (
      λ h.
          elim (Bool-cases
            (any (λ g. permission_matches g permission) (permissions_of (get roles name)))) [
              | inl fits ↦ (name, inl refl, here.0 fits)
              | inr other ↦ let (n, m, g) = below.0 (ground arith) in (n, inr m, g)
            ],
      λ (n, m, g). elim m [
        | inl same ↦
            let fits =
              here.1 (subst (λ x. Grants permission (permissions_of (get roles x))) (sym same) g) in
            ground arith
        | inr later ↦ let rest = below.1 (n, later, g) in ground arith
      ],
    )

-- `can` answers, and with true exactly if the subject holds a role, directly or by inheritance, one
-- of whose permissions covers the one that is asked for.
pub can-Grants :
    (b : Rbac) (subject permission : String)
    → (answer : Bool) × (can b subject permission ≡ some answer)
      × ((answer ≡ true) ↔ (
          (name : String) × Holds b.roles (held_by b subject) name
          × Grants permission (permissions_of (get b.roles name))))
unfolding can
can-Grants b subject permission =
    let (names, ends, holds) = effective_roles_iff b subject in
    let granting = any_grants_iff b.roles permission names in
    (
      any_grants b.roles permission names,
      rw (ends) refl,
      (
        λ h. let (n, m, g) = granting.0 h in (n, (holds n).0 m, g),
        λ (n, held, g). granting.1 (n, (holds n).1 held, g),
      ),
    )
