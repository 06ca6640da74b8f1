-- ===== src/Authz/Abac.antt =====
-- authlab/authz/abac.py: policies with conditions, under deny-overrides and default-deny.
pub mod Overrides
use auth_lab.Prelude.{
  ℕ, String, Bool, true, false, Option, none, some, List, [], ◌∷◌, ◌++◌, ◌&&◌, ◌||◌, not, contains,
  leb, ltb, if◌then◌else◌,
}
use auth_lab.Prelude.Int.{ℤ, pos}
use auth_lab.Json.{Json, str, Fields, member, as_int}

pub data Effect : Type 0 where
  allow deny : Effect

abbrev pub is_deny : Effect → Bool
is_deny deny = true
is_deny allow = false

pub record Request : Type 0 where
  pub subject : Fields
  pub resource : Fields
  pub action : String
  pub environment : Fields

-- A condition answers, or raises an exception: `none`.
abbrev pub Condition : Type 0
Condition = Request → Option Bool

pub record Policy : Type 0 where
  pub name : String
  pub effect : Effect
  pub actions : List String
  pub resource_types : List String
  pub condition : Option Condition

-- `"*" in names or x in names`, of a text and of an attribute that may be no text
abbrev names_text : List String → String → Bool
names_text names s = contains names "*" || contains names s

abbrev names_type : List String → Option Json → Bool
names_type names none = names_text names ""
names_type names (some (str s)) = names_text names s
names_type names (some _) = contains names "*"

-- `Policy.applies_to`
unfoldable pub applies_to : Policy → Request → Bool
applies_to p r =
    names_text p.actions r.action && names_type p.resource_types (member "type" r.resource)

-- An answer of a condition, where raising counts as not firing.
abbrev pub fired : Option Bool → Bool
fired none = false
fired (some b) = b

abbrev holds : Option Condition → Request → Bool
holds none r = true
holds (some condition) r = fired (condition r)

-- `Policy.evaluate`
unfoldable pub condition_holds : Policy → Request → Bool
condition_holds p r = holds p.condition r

pub record PolicyDecision : Type 0 where
  pub effect : Effect
  pub matched : List String

-- `PolicyDecision.allowed`
abbrev pub allowed : PolicyDecision → Bool
allowed d = not (is_deny d.effect)

-- A policy that is neither passed over by its target nor by its condition.
abbrev pub fires : Request → Policy → Bool
fires r p = applies_to p r && condition_holds p r

-- The names of the policies with one effect that fire, in order.
unfoldable pub matching : Bool → Request → List Policy → List String
matching denies r [] = []
matching denies r (p ∷ ps) =
    let rest = matching denies r ps in
    if fires r p && same_kind denies (is_deny p.effect) then p.name ∷ rest else rest
  where
    same_kind : Bool → Bool → Bool
    same_kind true b = b
    same_kind false b = not b

abbrev decide : List String → List String → PolicyDecision
decide (d ∷ denies) allows = record { effect = deny; matched = (d ∷ denies) ++ allows }
decide [] (a ∷ allows) = record { effect = allow; matched = a ∷ allows }
decide [] [] = record { effect = deny; matched = [] }

-- `ABAC.evaluate`
unfoldable pub evaluate : List Policy → Request → PolicyDecision
evaluate policies r = decide (matching true r policies) (matching false r policies)

-- `ABAC.can`
unfoldable pub can : List Policy → Request → Bool
unfolding evaluate
can policies r = allowed (evaluate policies r)

-- `ABAC.add`
abbrev pub add : List Policy → Policy → List Policy
add policies p = policies ++ p ∷ []

-- `all_of`, `any_of` and `negate`: a condition that is not reached cannot raise.
unfoldable pub all_of : List Condition → Condition
all_of [] r = some true
all_of (c ∷ cs) r = elim (c r) [
  | none ↦ none
  | some b ↦ elim b [ true ↦ all_of cs r | false ↦ some false ]
]

unfoldable pub any_of : List Condition → Condition
any_of [] r = some false
any_of (c ∷ cs) r = elim (c r) [
  | none ↦ none
  | some b ↦ elim b [ true ↦ some true | false ↦ any_of cs r ]
]

unfoldable pub negate : Condition → Condition
negate c r = elim (c r) [ none ↦ none | some b ↦ some (not b) ]

abbrev within_hours : ℕ → ℕ → Option ℤ → Bool
within_hours start end (some (pos hour)) = leb start hour && ltb hour end
within_hours start end _ = false

-- `time_between`
unfoldable pub time_between : ℕ → ℕ → String → Condition
time_between start end key r = some (within_hours start end (as_int (member key r.environment)))
