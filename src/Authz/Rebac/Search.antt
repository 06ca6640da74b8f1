-- ===== src/Authz/Rebac/Search.antt =====
-- A depth-first search that gives up below a depth and where a query repeats on the path: what it
-- finds is what chains of that length find.
use auth_lab.Prelude.{
  ℕ, zero, suc, ◌+◌, ◌≤◌, ◌≡◌, ◌↔◌, refl, sym, inl, inr, subst, Bool, true, false, ◌||◌, List, [],
  ◌∷◌, arith, length, any, Bool-cases, if◌then◌else◌, Among, any→Among, Among→any,
}

-- The goals, and what a query asks next.
module _ {K : Type 0} (same : K → K → Bool) (is_goal : K → Bool) (next : K → List K) where
  pub has : List K → K → Bool
  has seen k = any (same k) seen

  -- `left` levels are left.
  unfoldable pub search : ℕ → List K → K → Bool
  unfolding has
  search zero seen k = false
  search (suc left) seen k =
      let found = is_goal k || any (search left (k ∷ seen)) (next k) in
      if has seen k then false else found

  -- Each query of the list asks the one behind it, and the last one is a goal.
  abbrev pub IsChain : K → List K → Type 0
  IsChain k [] = is_goal k ≡ true
  IsChain k (j ∷ js) = Among j (next k) × IsChain j js

  search-IsChain :
      (left : ℕ) (seen : List K) (k : K)
      → search left seen k ≡ true
      → (ks : List K) × IsChain k ks × (length ks + 1 ≤ left)
  unfolding search
  search-IsChain zero seen k h = cc
  search-IsChain (suc left) seen k h = elim (Bool-cases (has seen k)) [
    | inl again ↦ absurd (let bad = rw again at h in cc)
    | inr fresh ↦ elim (Bool-cases (is_goal k)) [
      | inl goal ↦ ([], goal, omega arith)
      | inr no_goal ↦
          let (j, is_next, found) =
            any→Among (search left (k ∷ seen)) (next k) (rw (fresh, no_goal) at h) in
          let (js, chain, short) = search-IsChain left (k ∷ seen) j found in
          (j ∷ js, (is_next, chain), omega arith)
    ]
  ]

  -- A list that holds no query twice.
  abbrev NoRepeat : List K → Type 0
  NoRepeat [] = Unit
  NoRepeat (k ∷ ks) = (has ks k ≡ false) × NoRepeat ks

  abbrev Avoids : List K → List K → Type 0
  Avoids seen [] = Unit
  Avoids seen (k ∷ ks) = (has seen k ≡ false) × Avoids seen ks

  module _ (same_iff : (a b : K) → (same a b ≡ true) ↔ (a ≡ b)) where
    -- The chain from a query that stands on it.
    here :
        (k j : K) (js : List K)
        → same k j ≡ true
        → IsChain j js
        → NoRepeat (j ∷ js)
        → (ks : List K) × IsChain k ks × NoRepeat (k ∷ ks) × (length ks ≤ length js)
    here k j js is chain single =
        let same_query : j ≡ k = sym ((same_iff k j).0 is) in
        (
          js,
          subst (λ x. IsChain x js) same_query chain,
          subst (λ x. NoRepeat (x ∷ js)) same_query single,
          omega arith,
        )

    IsChain-from :
        (k j : K) (js : List K)
        → has (j ∷ js) k ≡ true
        → IsChain j js
        → NoRepeat (j ∷ js)
        → (ks : List K) × IsChain k ks × NoRepeat (k ∷ ks) × (length ks ≤ length js)
    unfolding has
    IsChain-from k j [] h chain single = elim (Bool-cases (same k j)) [
      | inl is ↦ here k j [] is chain single
      | inr no_more ↦ absurd (let bad = rw no_more at h in cc)
    ]
    IsChain-from k j (i ∷ is) h chain single = elim (Bool-cases (same k j)) [
      | inl is_j ↦ here k j (i ∷ is) is_j chain single
      | inr later ↦
          let (ks, chain', single', short) = IsChain-from k i is (rw later at h) chain.1 single.1 in
          (ks, chain', single', omega arith)
    ]

    -- A chain without the loops.
    straighten :
        (k : K) (ks : List K)
        → IsChain k ks
        → (js : List K) × IsChain k js × NoRepeat (k ∷ js) × (length js ≤ length ks)
    unfolding has
    straighten k [] goal = ([], goal, (refl, tt), omega arith)
    straighten k (j ∷ js) (is_next, chain) =
        let (is, chain', single, short) = straighten j js chain in
        elim (Bool-cases (has (j ∷ is) k)) [
          | inl again ↦
              let (ks, chain'', single', short') = IsChain-from k j is again chain' single in
              (ks, chain'', single', omega arith)
          | inr fresh ↦ (j ∷ is, (is_next, chain'), (fresh, single), omega arith)
        ]

    -- What a chain behind a fresh query avoids.
    Avoids-cons :
        (k : K) (seen ks : List K) → Avoids seen ks → has ks k ≡ false → Avoids (k ∷ seen) ks
    unfolding has
    Avoids-cons k seen [] avoids fresh = tt
    Avoids-cons k seen (j ∷ js) avoids fresh = elim (Bool-cases (same j k)) [
      | inl is ↦ absurd (
          let same' = (same_iff k j).1 (sym ((same_iff j k).0 is)) in
          let bad = rw same' at fresh in cc)
      | inr other ↦ (rw (other, avoids.0) refl, Avoids-cons k seen js avoids.1 (ground arith))
    ]

    search-finds :
        (left : ℕ) (seen : List K) (k : K) (ks : List K)
        → IsChain k ks
        → NoRepeat (k ∷ ks)
        → Avoids seen (k ∷ ks)
        → length ks + 1 ≤ left
        → search left seen k ≡ true
    unfolding search
    search-finds zero seen k ks chain single avoids short = absurd (omega arith)
    search-finds (suc left) seen k [] chain single avoids short = rw (avoids.0, chain) refl
    search-finds (suc left) seen k (j ∷ js) (is_next, chain) single avoids short =
        let below =
          search-finds left (k ∷ seen) j js chain single.1
            (Avoids-cons k seen (j ∷ js) avoids.1 single.0) (omega arith) in
        let found = Among→any (search left (k ∷ seen)) (next k) j is_next below in
        elim (Bool-cases (is_goal k)) [
          | inl goal ↦ rw (avoids.0, goal) refl
          | inr no_goal ↦ rw (avoids.0, no_goal, found) refl
        ]

    nothing_seen : (ks : List K) → Avoids [] ks
    unfolding has
    nothing_seen [] = tt
    nothing_seen (k ∷ ks) = (refl, nothing_seen ks)

    -- A search from nothing seen finds what a chain of its length reaches.
    pub search_iff :
        (left : ℕ) (k : K)
        → (search (left + 1) [] k ≡ true) ↔ ((ks : List K) × IsChain k ks × (length ks ≤ left))
    search_iff left k = (
      λ found.
          let (ks, chain, short) = search-IsChain (left + 1) [] k found in (ks, chain, omega arith),
      λ (ks, chain, short).
          let (js, chain', single, short') = straighten k ks chain in
          search-finds (left + 1) [] k js chain' single (nothing_seen (k ∷ js)) (omega arith),
    )
