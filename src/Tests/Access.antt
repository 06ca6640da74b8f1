-- ===== src/Tests/Access.antt =====
-- The access control models' theorems at small stores of policies and roles.
use auth_lab.Prelude.{
  String, refl, false, Bool, true, none, some, List, [], ◌∷◌, ◌≡◌, ◌↔◌, inl, inr, In,
}
use auth_lab.Json.{str, end, field}
use auth_lab.Authz.Abac
use auth_lab.Authz.Abac.{Policy, Request, allow, deny}
use auth_lab.Authz.Abac.Overrides.{Among, Allowing, Undenied, can_iff, can-order}
use auth_lab.Authz.Rbac
use auth_lab.Authz.Rbac.{Role, Rbac, held_by, effective_roles, permissions_of}
use auth_lab.Authz.Rbac.Resolution.{Holds, effective_roles_iff}
use auth_lab.Authz.Rbac.{define_role, search_cycle, potential}
use auth_lab.Authz.Rbac.Acyclic.{Above, direct}
use auth_lab.Authz.Rbac.Order.{define_role-total, define_role-acyclic}
use auth_lab.Authz.Rbac.Permissions.{Grants, can-Grants}
use auth_lab.Dict.{get, set}

abbrev readers : Policy
readers = record {
  name = "readers";
  effect = allow;
  actions = "read" ∷ [];
  resource_types = "*" ∷ [];
  condition = none;
}

abbrev no_contractors : Policy
no_contractors = record {
  name = "no_contractors";
  effect = deny;
  actions = "*" ∷ [];
  resource_types = "salary" ∷ [];
  condition = none;
}

abbrev read_salary : Request
read_salary = record {
  subject = end;
  resource = field "type" (str "salary") end;
  action = "read";
  environment = end;
}

can_iff_example : (Abac.can (readers ∷ no_contractors ∷ []) read_salary ≡ true) ↔ (
    Allowing read_salary (readers ∷ no_contractors ∷ [])
    × Undenied read_salary (readers ∷ no_contractors ∷ []))
can_iff_example = can_iff (readers ∷ no_contractors ∷ []) read_salary

swap : (p q x : Policy) → Among x (p ∷ q ∷ []) → Among x (q ∷ p ∷ [])
swap p q x (inl same) = inr (inl same)
swap p q x (inr (inl same)) = inl same
swap p q x (inr (inr nothing)) = absurd nothing

can-order_example :
    (Abac.can (readers ∷ no_contractors ∷ []) read_salary ≡ true)
    ↔ (Abac.can (no_contractors ∷ readers ∷ []) read_salary ≡ true)
can-order_example =
    can-order (readers ∷ no_contractors ∷ []) (no_contractors ∷ readers ∷ []) read_salary
      (λ p. (swap readers no_contractors p, swap no_contractors readers p))

-- Two roles that inherit from each other.
abbrev cycle : Rbac
cycle = record {
  roles =
      (
        "editor",
        record { name = "editor"; permissions = "doc:write" ∷ []; inherits = "reader" ∷ [] },
      )
      ∷ (
        "reader",
        record { name = "reader"; permissions = "doc:read" ∷ []; inherits = "editor" ∷ [] },
      )
      ∷ [];
  assignments = ("alice", "editor" ∷ []) ∷ [];
}

effective_roles_iff_example :
    (out : List String) × (effective_roles cycle "alice" ≡ some out)
    × ((name : String) → In name out ↔ Holds cycle.roles (held_by cycle "alice") name)
effective_roles_iff_example = effective_roles_iff cycle "alice"

can-Grants_example :
    (answer : Bool) × (Rbac.can cycle "alice" "doc:read" ≡ some answer)
    × ((answer ≡ true) ↔ (
        (name : String) × Holds cycle.roles (held_by cycle "alice") name
        × Grants "doc:read" (permissions_of (get cycle.roles name))))
can-Grants_example = can-Grants cycle "alice" "doc:read"

-- A role below another one.
abbrev reader : Role
reader = record { name = "reader"; permissions = "doc:read" ∷ []; inherits = [] }

abbrev editor : Role
editor = record { name = "editor"; permissions = "doc:write" ∷ []; inherits = "reader" ∷ [] }

abbrev readers_only : Rbac
readers_only = record { roles = ("reader", reader) ∷ []; assignments = [] }

define_role-total_example : (answer : Bool) × ((define_role readers_only editor).0 ≡ some answer)
define_role-total_example = define_role-total readers_only editor

define_role-acyclic_example : ¬ Above (define_role readers_only editor).1.roles "reader" "reader"
unfolding define_role search_cycle potential get set
define_role-acyclic_example =
    define_role-acyclic readers_only editor "reader" refl (inr (direct (editor, refl, inl refl)))

-- Two roles that inherit from one, and a role above both: no cycle, and refused.
abbrev diamond : Rbac
diamond = record {
  roles =
      ("base", record { name = "base"; permissions = []; inherits = [] })
      ∷ ("left", record { name = "left"; permissions = []; inherits = "base" ∷ [] })
      ∷ ("right", record { name = "right"; permissions = []; inherits = "base" ∷ [] })
      ∷ [];
  assignments = [];
}

diamond_refused :
    (define_role diamond
      (record { name = "top"; permissions = []; inherits = "left" ∷ "right" ∷ [] })).0
    ≡ some false
unfolding define_role search_cycle potential get set
diamond_refused = refl
