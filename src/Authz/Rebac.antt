-- ===== src/Authz/Rebac.antt =====
-- authlab/authz/rebac.py: relation tuples, rewrite rules, the store, and `check`.
pub mod Search
pub mod Member
pub mod Asks
pub mod Rules
pub mod Queries
pub mod Expand
use Prim.Native.String.{◌++◌}
use auth_lab.Prelude.{
  ℕ, zero, suc, ◌+◌, ◌≡◌, String, Bool, true, false, not, ◌&&◌, ◌||◌, Option, none, some, List, [],
  ◌∷◌, any, filter, str_eq, if◌then◌else◌,
}
use auth_lab.Prelude.Text.{split_once, before, starts_with, ends_with, drop_last, or_empty}
use auth_lab.Dict.{Dict, get, set}

-- `Tuple`
pub record Tuple : Type 0 where
  pub object : String
  pub relation : String
  pub user : String

-- `Tuple.parse`; `none` is the `ValueError` of the unpacking
unfoldable pub parse : String → Option Tuple
unfolding split_once
parse t = elim (split_once b'#' t) [
  | none ↦ none
  | some (object_part, rest) ↦ elim (split_once b'@' rest) [
    | none ↦ none
    | some (relation, user) ↦
        some (record { object = object_part; relation = relation; user = user })
  ]
]

-- `Tuple.__str__`
unfoldable pub show : Tuple → String
show t = t.object ++ ("#" ++ (t.relation ++ ("@" ++ t.user)))

-- `Tuple.userset`
unfoldable pub userset : Tuple → Option (String × String)
unfolding split_once
userset t = split_once b'#' t.user

-- `Userset`; `unknown` is any other kind
mutual
  pub data Userset : Type 0 where
    this : Userset
    computed : Option String → Userset
    through : Option String → Option String → Userset
    union : Usersets → Userset
    unknown : Userset

  pub data Usersets : Type 0 where
    nil : Usersets
    cons : Userset → Usersets → Usersets

-- `Namespace`: the rewrites of its relations.
pub record Namespace : Type 0 where
  pub name : String
  pub relations : Dict Userset

-- `Namespace.relation`
unfoldable pub add_relation : String → Option Userset → Namespace → Namespace
unfolding set
add_relation name rewrite n = record n {
  relations = set n.relations name (elim rewrite [ none ↦ this | some r ↦ r ]);
}

-- `ReBAC`; the tuples are a set.
pub record Rebac : Type 0 where
  pub max_depth : ℕ
  pub namespaces : Dict Namespace
  pub tuples : List Tuple

-- `namespace`: the namespace, made if it is missing.
unfoldable pub add_namespace : String → Rebac → Namespace × Rebac
unfolding get set
add_namespace name e = elim (get e.namespaces name) [
  | some n ↦ (n, e)
  | none ↦
      let n : Namespace = record { name = name; relations = [] } in
      (n, record e { namespaces = set e.namespaces name n })
]

-- `engine.namespace(name).relation(...)`: the namespace is the engine's own object.
unfoldable pub define_relation : String → String → Option Userset → Rebac → Rebac
unfolding add_namespace add_relation set
define_relation name relation rewrite e =
    let (n, e') = add_namespace name e in
    record e' { namespaces = set e'.namespaces name (add_relation relation rewrite n) }

abbrev pub same_tuple : Tuple → Tuple → Bool
same_tuple s t = str_eq s.object t.object && str_eq s.relation t.relation && str_eq s.user t.user

-- `write` of one tuple
unfoldable pub write : Tuple → Rebac → Rebac
write t e = if any (same_tuple t) e.tuples then e else record e { tuples = t ∷ e.tuples }

-- `delete` of one tuple
unfoldable pub delete : Tuple → Rebac → Rebac
delete t e = record e { tuples = filter (λ s. not (same_tuple t s)) e.tuples }

-- `_object_type`
unfoldable pub object_type : String → String
unfolding split_once
object_type object_id = before b':' object_id

-- `_rewrite_for`
unfoldable pub rewrite_for : Rebac → String → String → Userset
unfolding object_type get
rewrite_for e object_id relation = elim (get e.namespaces (object_type object_id)) [
  | none ↦ this
  | some n ↦ elim (get n.relations relation) [ none ↦ this | some rewrite ↦ rewrite ]
]

-- `_direct`
unfoldable pub direct : List Tuple → String → String → List String
direct [] object_id relation = []
direct (t ∷ ts) object_id relation =
    let rest = direct ts object_id relation in
    if str_eq t.object object_id && str_eq t.relation relation then t.user ∷ rest else rest

-- The key of a check: `(object_id, relation, user)`
abbrev pub Key : Type 0
Key = String × String × String

abbrev pub same_key : Key → Key → Bool
same_key (o, r, u) (o', r', u') = str_eq o o' && str_eq r r' && str_eq u u'

-- The candidate is a wildcard that the user's name fits.
unfoldable pub fits_wildcard : String → String → Bool
unfolding ends_with starts_with drop_last
fits_wildcard user candidate = ends_with ":*" candidate && starts_with (drop_last candidate) user

-- The body of the loop under `this`, given `check` at the next depth.
unfoldable pub admits : (Key → Bool) → String → String → Bool
unfolding split_once fits_wildcard
admits recur user candidate =
    str_eq candidate user
    || elim (split_once b'#' candidate) [ none ↦ false | some (o, r) ↦ recur (o, r, user) ]
    || fits_wildcard user candidate

-- `_check_userset`, given `check` at the next depth.
unfoldable mutual
  unfolding admits direct

  pub check_userset : List Tuple → (Key → Bool) → Userset → String → String → String → Bool
  check_userset tuples recur this o r user = any (admits recur user) (direct tuples o r)
  check_userset tuples recur (computed relation) o r user = recur (o, or_empty relation, user)
  check_userset tuples recur (through tupleset relation) o r user =
      any (λ parent. recur (before b'#' parent, or_empty relation, user))
        (direct tuples o (or_empty tupleset))
  check_userset tuples recur (union children) o r user =
      check_children tuples recur children o r user
  check_userset tuples recur unknown o r user = false

  pub check_children : List Tuple → (Key → Bool) → Usersets → String → String → String → Bool
  check_children tuples recur nil o r user = false
  check_children tuples recur (cons child children) o r user =
      check_userset tuples recur child o r user || check_children tuples recur children o r user

-- `check` at the depth `max_depth + 1 - left`, so that `_depth > max_depth` is `left` = 0.
unfoldable pub check_at : Rebac → ℕ → List Key → Key → Bool
unfolding check_userset rewrite_for
check_at e zero seen key = false
check_at e (suc left) seen (o, r, user) =
    let found =
      check_userset e.tuples (check_at e left ((o, r, user) ∷ seen)) (rewrite_for e o r) o r user in
    if any (same_key (o, r, user)) seen then false else found

-- `check`
unfoldable pub check : Rebac → String → String → String → Bool
unfolding check_at
check e object_id relation user = check_at e (e.max_depth + 1) [] (object_id, relation, user)
