-- ===== src/Authz/Rbac/Fuel.antt =====
-- The fuel of the loop of `effective_roles`: what the unvisited roles may still queue.
use auth_lab.Prelude.{
  ℕ, zero, suc, ◌+◌, ◌≤◌, String, false, some, List, [], ◌∷◌, ◌++◌, ◌≡◌, inl, inr, refl, arith,
  length, contains, str_eq, eq_iff, Bool-cases, Option-cases,
}
use auth_lab.Dict.{Dict, get}
use auth_lab.Authz.Rbac.{Role, potential, resolve}

pub length-++ : (xs ys : List String) → length (xs ++ ys) ≡ length xs + length ys
length-++ [] ys = omega arith
length-++ (x ∷ xs) ys = ground (arith, length-++ xs ys)

potential-visit :
    (visited : List String) (name : String) (roles : Dict Role)
    → potential (name ∷ visited) roles ≤ potential visited roles
unfolding potential
potential-visit visited name [] = omega arith
potential-visit visited name ((k, role) ∷ roles) =
    ground (arith, potential-visit visited name roles)

pub potential-new :
    (visited : List String) (name : String) (roles : Dict Role) (role : Role)
    → contains visited name ≡ false
    → get roles name ≡ some role
    → potential (name ∷ visited) roles + length role.inherits ≤ potential visited roles
unfolding potential get
potential-new visited name [] role new found = cc
potential-new visited name ((k, r) ∷ roles) role new found = elim (Bool-cases (str_eq k name)) [
  | inl same ↦ ground (arith, potential-visit visited name roles, eq_iff k name, eq_iff name k)
  | inr other ↦
      ground (arith, potential-new visited name roles role new, eq_iff k name, eq_iff name k)
]

module _ (roles : Dict Role) where
  pub resolve-total :
      (fuel : ℕ) (queue result : List String)
      → length queue + potential result roles ≤ fuel
      → (out : List String) × (resolve fuel roles queue result ≡ some out)
  unfolding resolve
  resolve-total fuel [] result enough = (result, refl)
  resolve-total zero (name ∷ queue) result enough = absurd (omega arith)
  resolve-total (suc fuel) (name ∷ queue) result enough = elim (Bool-cases (contains result name)) [
    | inl seen ↦ rw (seen, resolve) (resolve-total fuel queue result (omega arith))
    | inr new ↦ elim (Option-cases (get roles name)) [
      | inl unknown ↦ rw (new, unknown, resolve) (resolve-total fuel queue result (omega arith))
      | inr (role, found) ↦
          rw (new, found, resolve)
            (resolve-total fuel (role.inherits ++ queue) (name ∷ result) (
              ground (
                arith,
                length-++ role.inherits queue,
                potential-new result name roles role new found,
              )))
    ]
  ]
