-- ===== src/Authz/Rbac.antt =====
-- authlab/authz/rbac.py: roles with inheritance and wildcard permissions. A set of texts is the list
-- of its elements in the order in which a loop meets them, and a loop's stack has its top in front.
pub mod Fuel
pub mod Resolution
pub mod Permissions
pub mod Acyclic
pub mod Order
use Prim.Native.Char.{code}
use auth_lab.Prelude.{
  ℕ, zero, suc, ◌+◌, String, Bool, true, false, Option, none, some, List, [], ◌∷◌, ◌++◌, ◌&&◌, ◌||◌,
  not, ◌==◌, length, any, all, filter, contains, str_eq, if◌then◌else◌,
}
use auth_lab.Dict.{Dict, get, set, modify, has}
use auth_lab.Url.{span_until, tail, has_char}

pub record Role : Type 0 where
  pub name : String
  pub permissions : List String
  pub inherits : List String

pub record Rbac : Type 0 where
  pub roles : Dict Role
  pub assignments : Dict (List String)

abbrev pub union : List String → List String → List String
union held [] = held
union held (x ∷ xs) = union (if contains held x then held else held ++ x ∷ []) xs

abbrev pub permissions_of : Option Role → List String
permissions_of none = []
permissions_of (some role) = role.permissions

-- `self.assignments.get(subject, set())`
abbrev pub held_by : Rbac → String → List String
held_by b subject = held (get b.assignments subject)
  where
    held : Option (List String) → List String
    held none = []
    held (some names) = names

-- The loop of `_assert_acyclic`: the names on `path` are never taken off it, and `seen` holds the
-- same names; `true` for a search that ends without an error.
unfoldable pub search_cycle : ℕ → Dict Role → List String → List String → Option Bool
search_cycle fuel roles path [] = some true
search_cycle zero roles path (current ∷ stack) = none
search_cycle (suc fuel) roles path (current ∷ stack) = elim (contains path current) [
  | true ↦ some false
  | false ↦ elim (get roles current) [
    | none ↦ search_cycle fuel roles path stack
    | some role ↦ search_cycle fuel roles (current ∷ path) (role.inherits ++ stack)
  ]
]

-- What the unvisited roles may still put on a stack.
unfoldable pub potential : List String → Dict Role → ℕ
potential visited [] = 0
potential visited ((name, role) ∷ roles) =
    (if contains visited name then 0 else length role.inherits) + potential visited roles

-- The loop of `effective_roles`.
unfoldable pub resolve : ℕ → Dict Role → List String → List String → Option (List String)
resolve fuel roles [] result = some result
resolve zero roles (name ∷ queue) result = none
resolve (suc fuel) roles (name ∷ queue) result = elim (contains result name) [
  | true ↦ resolve fuel roles queue result
  | false ↦ elim (get roles name) [
    | none ↦ resolve fuel roles queue result
    | some role ↦ resolve fuel roles (role.inherits ++ queue) (name ∷ result)
  ]
]

-- `effective_roles`: every name that is queued costs one step.
unfoldable pub effective_roles : Rbac → String → Option (List String)
effective_roles b subject =
    let held = held_by b subject in resolve (length held + potential [] b.roles) b.roles held []

abbrev part_matches : String → String → Bool
part_matches granted required = str_eq granted "*" || str_eq granted required

-- `_matches`
unfoldable pub permission_matches : String → String → Bool
permission_matches granted required =
    if str_eq granted "*" || str_eq granted required
    then true
    else if not (has_char b':' granted) || not (has_char b':' required)
    then false
    else (let (g_resource, g_rest) = span_until (λ c. code c == b':') granted in
        let (r_resource, r_rest) = span_until (λ c. code c == b':') required in
        part_matches g_resource r_resource && part_matches (tail g_rest) (tail r_rest))

-- `any(_matches(g, permission) for g in …)` over the permissions of some roles
unfoldable pub any_grants : Dict Role → String → List String → Bool
any_grants roles permission [] = false
any_grants roles permission (name ∷ names) =
    any (λ g. permission_matches g permission) (permissions_of (get roles name))
    || any_grants roles permission names

abbrev granted_by : Dict Role → String → Option (List String) → Option Bool
granted_by roles permission none = none
granted_by roles permission (some names) = some (any_grants roles permission names)

-- `can`
unfoldable pub can : Rbac → String → String → Option Bool
can b subject permission = granted_by b.roles permission (effective_roles b subject)

-- `assign`, which raises a `KeyError` for an unknown role: `none`
unfoldable pub assign : Rbac → String → List String → Option Rbac
assign b subject names =
    if all (λ n. has b.roles n) names
    then some
        (record b { assignments = set b.assignments subject (union (held_by b subject) names) })
    else none

-- `unassign`
unfoldable pub unassign : Rbac → String → List String → Rbac
unassign b subject names = record b {
  assignments = modify b.assignments subject (filter (λ r. not (contains names r)));
}

-- `define_role`: the role is stored before the search for a cycle, and stays when that raises.
unfoldable pub define_role : Rbac → Role → Option Bool × Rbac
define_role b role =
    let roles = set b.roles role.name role in
    (search_cycle (1 + potential [] roles) roles [] (role.name ∷ []), record b { roles = roles })
