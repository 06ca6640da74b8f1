-- ===== src/Authz/Rebac/Expand.antt =====
-- authlab/authz/rebac.py: `expand`, `list_users` and `list_objects`.
pub mod Shown
pub mod Sharing
use Prim.Native.String.{◌++◌ as join_text}
use auth_lab.Prelude.{
  ℕ, zero, suc, ◌+◌, ◌≡◌, String, Bool, true, false, not, ◌&&◌, ◌||◌, Option, none, some, List, [],
  ◌∷◌, ◌++◌, any, filter, contains, str_eq, if◌then◌else◌,
}
use auth_lab.Prelude.Text.{split_once, before, or_empty, starts_with, sort_texts}
use auth_lab.Authz.Rebac.{
  Tuple, Userset, this, computed, through, union, unknown, Usersets, nil, cons, Rebac, rewrite_for,
  direct, check,
}

-- The userset tree, with a constructor for each `"type"`; a branch is a text and a tree.
mutual
  pub data Tree : Type 0 where
    depth_limit : Tree
    cycle : String → String → Tree
    one_of : Branches → Tree
    leaves : String → String → List String → Branches → Tree
    same_object : Option String → Tree → Tree
    other_objects : Branches → Tree
    unknown_rule : Tree

  pub data Branches : Type 0 where
    no_more : Branches
    branch : String → Tree → Branches → Branches

-- The candidates that are no usersets.
unfoldable pub plain_users : List String → List String
unfolding split_once
plain_users [] = []
plain_users (c ∷ cs) =
    let rest = plain_users cs in elim (split_once b'#' c) [ none ↦ c ∷ rest | some _ ↦ rest ]

-- The usersets among the candidates, each with its expansion.
unfoldable pub userset_branches : (String → String → Tree) → List String → Branches
unfolding split_once
userset_branches recur [] = no_more
userset_branches recur (c ∷ cs) =
    let rest = userset_branches recur cs in
    elim (split_once b'#' c) [ none ↦ rest | some (o, r) ↦ branch c (recur o r) rest ]

unfoldable pub object_branches : (String → String → Tree) → String → String → List String → Branches
unfolding split_once
object_branches recur via relation [] = no_more
object_branches recur via relation (p ∷ ps) =
    branch (join_text via p) (recur (before b'#' p) relation)
      (object_branches recur via relation ps)

-- `f"{name}"` of a `str | None`
abbrev show_name : Option String → String
show_name none = "None"
show_name (some s) = s

-- `_expand_userset`, given `expand` at the next depth.
unfoldable mutual
  unfolding plain_users userset_branches object_branches sort_texts direct

  pub expand_userset : List Tuple → (String → String → Tree) → Userset → String → String → Tree
  expand_userset tuples recur this o r =
      let candidates = sort_texts (direct tuples o r) in
      leaves o r (plain_users candidates) (userset_branches recur candidates)
  expand_userset tuples recur (computed relation) o r =
      same_object relation (recur o (or_empty relation))
  expand_userset tuples recur (through tupleset relation) o r = other_objects (
      object_branches recur (join_text o (join_text "#" (join_text (show_name tupleset) "@")))
        (or_empty relation) (sort_texts (direct tuples o (or_empty tupleset))))
  expand_userset tuples recur (union children) o r =
      one_of (expand_children tuples recur children o r)
  expand_userset tuples recur unknown o r = unknown_rule

  pub expand_children :
      List Tuple → (String → String → Tree) → Usersets → String → String → Branches
  expand_children tuples recur nil o r = no_more
  expand_children tuples recur (cons child children) o r =
      branch "" (expand_userset tuples recur child o r) (expand_children tuples recur children o r)

abbrev pub on_path : String → String → List (String × String) → Bool
on_path o r path = any (λ k. str_eq o k.0 && str_eq r k.1) path

-- `expand` at the depth `max_depth + 1 - left`
unfoldable pub expand_at : Rebac → ℕ → List (String × String) → String → String → Tree
unfolding expand_userset rewrite_for
expand_at e zero path o r = depth_limit
expand_at e (suc left) path o r =
    let tree = expand_userset e.tuples (expand_at e left ((o, r) ∷ path)) (rewrite_for e o r) o r in
    if on_path o r path then cycle o r else tree

-- `expand`
unfoldable pub expand : Rebac → String → String → Tree
unfolding expand_at
expand e object_id relation = expand_at e (e.max_depth + 1) [] object_id relation

-- `walk`: what it adds to `found`.
unfoldable mutual
  pub walk : Tree → List String
  walk depth_limit = []
  walk (cycle o r) = []
  walk (one_of children) = walk_branches children
  walk (leaves o r users usersets) = users ++ walk_branches usersets
  walk (same_object relation tree) = walk tree
  walk (other_objects branches) = walk_branches branches
  walk unknown_rule = []

  pub walk_branches : Branches → List String
  walk_branches no_more = []
  walk_branches (branch label tree branches) = walk tree ++ walk_branches branches

-- A set of texts, as the list of its elements.
unfoldable pub distinct : List String → List String
distinct [] = []
distinct (s ∷ ss) = let rest = distinct ss in if contains rest s then rest else s ∷ rest

-- `list_users`
unfoldable pub list_users : Rebac → String → String → List String
unfolding expand walk distinct sort_texts
list_users e object_id relation = sort_texts (distinct (walk (expand e object_id relation)))

-- The candidates of `list_objects`: objects of the tuples, and what their users name.
unfoldable pub object_candidates : String → List Tuple → List String
unfolding starts_with split_once
object_candidates prefix [] = []
object_candidates prefix (t ∷ ts) =
    filter (starts_with prefix) (t.object ∷ before b'#' t.user ∷ []) ++ object_candidates prefix ts

-- `list_objects`
unfoldable pub list_objects : Rebac → String → String → String → List String
unfolding object_candidates distinct sort_texts check
list_objects e user relation object_type = sort_texts (
    filter (λ o. check e o relation user)
      (distinct (object_candidates (join_text object_type ":") e.tuples)))
