-- ===== src/Authz/Rebac/Queries.antt =====
-- `check` finds the members within its depth, and no one else.
use auth_lab.Prelude.{
  ℕ, zero, suc, ◌+◌, ◌≤◌, ◌≡◌, ◌↔◌, refl, sym, ◌∙◌, subst, inl, inr, String, Bool, true, Option,
  some, List, [], ◌∷◌, arith, length, str_eq, eq_iff, eq_refl, Among, any→Among, Among→any,
  Bool-cases,
}
use auth_lab.Prelude.Text.{split_once, before, or_empty}
use auth_lab.Authz.Rebac.{
  Userset, this, computed, through, Rebac, rewrite_for, direct, check_at, check, Key, same_key,
}
use auth_lab.Authz.Rebac.Search.{search, search_iff, IsChain}
use auth_lab.Authz.Rebac.Rules.{names, grants, asks, any-cong, check_userset-asks}
use auth_lab.Authz.Rebac.Asks.{
  by_userset, by_relation, by_object, Among-asks, userset_keys-Among, parent_keys-Among, asks-rule,
  grants-this, this-grants,
}
use auth_lab.Authz.Rebac.Member.{
  HasRule, Member, listed, public, nested, through_relation, through_object,
}

module _ (e : Rebac) where
  goal : Key → Bool
  goal (o, r, user) = grants e.tuples o r (names user) (rewrite_for e o r)

  unfoldable pub asked : Key → List Key
  asked (o, r, user) = asks e.tuples o r user (rewrite_for e o r)

  check_at-eq-search :
      (left : ℕ) (seen : List Key) (key : Key)
      → check_at e left seen key ≡ search same_key goal asked left seen key
  unfolding check_at search goal asked
  check_at-eq-search zero seen key = refl
  check_at-eq-search (suc left) seen (o, r, user) =
      let seen' = (o, r, user) ∷ seen in
      let keys = asks e.tuples o r user (rewrite_for e o r) in
      ground (
        arith,
        check_userset-asks e.tuples (check_at e left seen') (rewrite_for e o r) o r user,
        any-cong (check_at e left seen') (search same_key goal asked left seen')
            (check_at-eq-search left seen') keys,
      )

pub same_key_iff : (a b : Key) → (same_key a b ≡ true) ↔ (a ≡ b)
same_key_iff (o, r, u) (o', r', u') = (
  λ h. ground (arith, eq_iff o o', eq_iff r r', eq_iff u u'),
  λ h. ground (arith, eq_iff o o', eq_iff r r', eq_iff u u'),
)

-- Chains that end in a query of the goal `g`, all of them for the user `tag`.
module _ (e : Rebac) (tag : String) (g : Key → Bool) where
  -- Where a goal makes a member of `user`, a chain does.
  pub IsChain-Member :
      (user : String)
      → ((o r : String) → g (o, r, tag) ≡ true → Member e user 0 o r)
      → (o r : String) (ks : List Key) → IsChain same_key g (asked e) (o, r, tag) ks
      → Member e user (length ks) o r
  unfolding asked
  IsChain-Member user at_goal o r [] goal = at_goal o r goal
  IsChain-Member user at_goal o r (key ∷ ks) (asked_key, chain) =
      elim (Among-asks e.tuples o r tag key (rewrite_for e o r) asked_key) [
        | by_userset c o' r' rule m s is ↦ nested c o' r' rule m s (
            IsChain-Member user at_goal o' r' ks
              (subst (λ k. IsChain same_key g (asked e) k ks) (sym is) chain))
        | by_relation relation rule is ↦ through_relation relation rule (
            IsChain-Member user at_goal o (or_empty relation) ks
              (subst (λ k. IsChain same_key g (asked e) k ks) (sym is) chain))
        | by_object t relation p rule m is ↦ through_object p t relation rule m (
            IsChain-Member user at_goal (before b'#' p) (or_empty relation) ks
              (subst (λ k. IsChain same_key g (asked e) k ks) (sym is) chain))
      ]

  -- A chain of so many hops.
  unfoldable pub Chained : ℕ → String → String → Type 0
  Chained n o r = (ks : List Key) × IsChain same_key g (asked e) (o, r, tag) ks × (length ks ≡ n)

  Chained-rule :
      (n : ℕ) (o r o' r' : String) (rule : Userset)
      → HasRule rule (rewrite_for e o r)
      → Among (o', r', tag) (asks e.tuples o r tag rule)
      → Chained n o' r'
      → Chained (suc n) o r
  unfolding Chained asked
  Chained-rule n o r o' r' rule h m (ks, chain, is) = (
    (o', r', tag) ∷ ks,
    (asks-rule e.tuples o r tag (rewrite_for e o r) rule (o', r', tag) h m, chain),
    omega arith,
  )

  pub Chained-nested :
      (n : ℕ) (o r c o' r' : String)
      → HasRule this (rewrite_for e o r)
      → Among c (direct e.tuples o r)
      → split_once b'#' c ≡ some (o', r')
      → Chained n o' r'
      → Chained (suc n) o r
  unfolding asks
  Chained-nested n o r c o' r' rule m s =
      Chained-rule n o r o' r' this rule (userset_keys-Among tag (direct e.tuples o r) c o' r' m s)

  pub Chained-relation :
      (n : ℕ) (o r : String) (relation : Option String)
      → HasRule (computed relation) (rewrite_for e o r)
      → Chained n o (or_empty relation)
      → Chained (suc n) o r
  unfolding asks
  Chained-relation n o r relation rule =
      Chained-rule n o r o (or_empty relation) (computed relation) rule (inl refl)

  pub Chained-object :
      (n : ℕ) (o r p : String) (t relation : Option String)
      → HasRule (through t relation) (rewrite_for e o r)
      → Among p (direct e.tuples o (or_empty t))
      → Chained n (before b'#' p) (or_empty relation)
      → Chained (suc n) o r
  unfolding asks
  Chained-object n o r p t relation rule m =
      Chained-rule n o r (before b'#' p) (or_empty relation) (through t relation) rule
        (parent_keys-Among tag relation (direct e.tuples o (or_empty t)) p m)

module _ (e : Rebac) (user : String) where
  goal-Member : (o r : String) → goal e (o, r, user) ≡ true → Member e user 0 o r
  unfolding goal
  goal-Member o r g =
      let (rule, named) = this-grants e.tuples o r (names user) (rewrite_for e o r) g in
      let (c, m, is) = any→Among (names user) (direct e.tuples o r) named in
      elim (Bool-cases (str_eq c user)) [
        | inl same ↦
            listed rule (subst (λ x. Among x (direct e.tuples o r)) ((eq_iff c user).0 same) m)
        | inr other ↦ public c rule m (rw other at is)
      ]

  Chained-zero :
      (o r c : String)
      → HasRule this (rewrite_for e o r)
      → Among c (direct e.tuples o r)
      → names user c ≡ true
      → Chained e user (goal e) 0 o r
  unfolding Chained goal
  Chained-zero o r c rule m named = (
    [],
    grants-this e.tuples o r (names user) (rewrite_for e o r) rule
        (Among→any (names user) (direct e.tuples o r) c m named),
    refl,
  )

  Member-Chained : {n : ℕ} {o r : String} → Member e user n o r → Chained e user (goal e) n o r
  Member-Chained {o = o} {r = r} (listed rule m) =
      Chained-zero o r user rule m (rw (eq_refl user) refl)
  Member-Chained {o = o} {r = r} (public c rule m fits) = Chained-zero o r c rule m (ground arith)
  Member-Chained {n = suc n} {o = o} {r = r} (nested c o' r' rule m s mem) =
      Chained-nested e user (goal e) n o r c o' r' rule m s (Member-Chained mem)
  Member-Chained {n = suc n} {o = o} {r = r} (through_relation relation rule mem) =
      Chained-relation e user (goal e) n o r relation rule (Member-Chained mem)
  Member-Chained {n = suc n} {o = o} {r = r} (through_object p t relation rule m mem) =
      Chained-object e user (goal e) n o r p t relation rule m (Member-Chained mem)

-- `check` answers yes exactly for the members whom a derivation of at most `max_depth` hops shows,
-- whatever cycles the tuples have.
pub check_iff :
    (e : Rebac) (o r user : String)
    → (check e o r user ≡ true) ↔ ((n : ℕ) × (n ≤ e.max_depth) × Member e user n o r)
unfolding check Chained
check_iff e o r user =
    let same = check_at-eq-search e (e.max_depth + 1) [] (o, r, user) in
    let (finds, found) =
      search_iff same_key (goal e) (asked e) same_key_iff e.max_depth (o, r, user) in
    (
      λ h.
          let (ks, chain, short) = finds (sym same ∙ h) in
          (length ks, short, IsChain-Member e user (goal e) user (goal-Member e user) o r ks chain),
      λ (n, short, mem).
          let (ks, chain, is) = Member-Chained e user mem in same ∙ found (ks, chain, omega arith),
    )
