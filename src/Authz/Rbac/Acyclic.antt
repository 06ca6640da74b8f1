-- ===== src/Authz/Rbac/Acyclic.antt =====
-- The search of `_assert_acyclic`: it ends, and what it has seen when it passes.
use auth_lab.Prelude.{
  ℕ, zero, suc, ◌+◌, ◌≤◌, String, Bool, true, false, none, some, List, [], ◌∷◌, ◌++◌, ◌≡◌, ◌⊎◌, inl,
  inr, refl, sym, subst, arith, length, contains, In, In→contains, Bool-cases, Option-cases,
}
use auth_lab.Dict.{Dict, get}
use auth_lab.Authz.Rbac.{Role, potential, search_cycle}
use auth_lab.Authz.Rbac.Fuel.{length-++, potential-new}
use auth_lab.Authz.Rbac.Resolution.{++-In}

module _ (roles : Dict Role) where
  pub search_cycle-total :
      (fuel : ℕ) (path stack : List String)
      → length stack + potential path roles ≤ fuel
      → (answer : Bool) × (search_cycle fuel roles path stack ≡ some answer)
  unfolding search_cycle
  search_cycle-total fuel path [] enough = (true, refl)
  search_cycle-total zero path (name ∷ stack) enough = absurd (omega arith)
  search_cycle-total (suc fuel) path (name ∷ stack) enough =
      elim (Bool-cases (contains path name)) [
        | inl again ↦ (false, rw (again, search_cycle) refl)
        | inr new ↦ elim (Option-cases (get roles name)) [
          | inl unknown ↦
              rw (new, unknown, search_cycle) (search_cycle-total fuel path stack (omega arith))
          | inr (role, found) ↦
              rw (new, found, search_cycle)
                (search_cycle-total fuel (name ∷ path) (role.inherits ++ stack) (
                  ground (
                    arith,
                    length-++ role.inherits stack,
                    potential-new path name roles role new found,
                  )))
        ]
      ]

  -- The first name inherits from the second.
  abbrev pub Inherits : String → String → Type 0
  Inherits p q = (role : Role) × (get roles p ≡ some role) × In q role.inherits

  -- ... in one step or more.
  pub data Above (p : String) : String → Type 0 where
    direct : {q : String} → Inherits p q → Above p q
    further : {q r : String} → Above p q → Inherits q r → Above p r

  abbrev pub Defined : String → Type 0
  Defined name = (role : Role) × (get roles name ≡ some role)

  -- A name on the stack that is on the path already ends the search with an error.
  search_cycle-meets :
      (fuel : ℕ) (path stack : List String) (q : String)
      → search_cycle fuel roles path stack ≡ some true
      → In q stack
      → In q path
      → ⊥
  unfolding search_cycle
  search_cycle-meets fuel path [] q h m k = absurd m
  search_cycle-meets zero path (name ∷ stack) q h m k = absurd (cc)
  search_cycle-meets (suc fuel) path (name ∷ stack) q h m k =
      elim (Bool-cases (contains path name)) [
        | inl again ↦ let bad = rw (again, search_cycle) at h in cc
        | inr new ↦ elim m [
          | inl same ↦ let known = In→contains path name (subst (λ x. In x path) (sym same) k) in cc
          | inr later ↦ elim (Option-cases (get roles name)) [
            | inl unknown ↦
                search_cycle-meets fuel path stack q (rw (new, unknown, search_cycle) at h) later k
            | inr (role, found) ↦
                search_cycle-meets fuel (name ∷ path) (role.inherits ++ stack) q
                  (rw (new, found, search_cycle) at h) (++-In q role.inherits stack (inr later))
                  (inr k)
          ]
        ]
      ]

  -- The names in the order of the search, the latest first: each once, and none inherits from itself
  -- or from an earlier one.
  abbrev pub Forward : List String → Type 0
  Forward [] = Unit
  Forward (p ∷ path) =
      (In p path → ⊥) × ((q : String) → Inherits p q → In q (p ∷ path) → ⊥) × Forward path

  -- A name is undefined, or on the path, or still on the stack.
  abbrev pub Met : List String → List String → String → Type 0
  Met path stack q = (get roles q ≡ none) ⊎ (In q path ⊎ In q stack)

  abbrev pub Complete : List String → List String → Type 0
  Complete path stack = (p q : String) → In p path → Inherits p q → Met path stack q

  skip-Met :
      (path stack : List String) (name q : String)
      → get roles name ≡ none
      → Met path (name ∷ stack) q
      → Met path stack q
  skip-Met path stack name q unknown (inl u) = inl u
  skip-Met path stack name q unknown (inr (inl m)) = inr (inl m)
  skip-Met path stack name q unknown (inr (inr (inl same))) =
      inl (subst (λ x. get roles x ≡ none) same unknown)
  skip-Met path stack name q unknown (inr (inr (inr m))) = inr (inr m)

  visit-Met :
      (path stack inherits : List String) (name q : String)
      → Met path (name ∷ stack) q
      → Met (name ∷ path) (inherits ++ stack) q
  visit-Met path stack inherits name q (inl u) = inl u
  visit-Met path stack inherits name q (inr (inl m)) = inr (inl (inr m))
  visit-Met path stack inherits name q (inr (inr (inl same))) = inr (inl (inl same))
  visit-Met path stack inherits name q (inr (inr (inr m))) =
      inr (inr (++-In q inherits stack (inr m)))

  visit-Complete :
      (path stack : List String) (name : String) (role : Role)
      → get roles name ≡ some role
      → Complete path (name ∷ stack)
      → Complete (name ∷ path) (role.inherits ++ stack)
  visit-Complete path stack name role found c p q (inl same) (role', found', m) =
      let is : role ≡ role' = cc (found, found', same) in
      inr
        (inr (++-In q role.inherits stack (inl (subst (λ (x : Role). In q x.inherits) (sym is) m))))
  visit-Complete path stack name role found c p q (inr m) edge =
      visit-Met path stack role.inherits name q (c p q m edge)

  -- What a search that passes has seen.
  abbrev pub Seen : List String → List String → Type 0
  Seen path stack =
      (out : List String) × Forward out
      × Complete out []
      × ((q : String) → Met path stack q → Met out [] q)

  pub search_cycle-Seen :
      (fuel : ℕ) (path stack : List String)
      → search_cycle fuel roles path stack ≡ some true
      → Forward path
      → Complete path stack
      → Seen path stack
  unfolding search_cycle
  search_cycle-Seen fuel path [] h f c = (path, f, c, λ q m. m)
  search_cycle-Seen zero path (name ∷ stack) h f c = absurd (cc)
  search_cycle-Seen (suc fuel) path (name ∷ stack) h f c = elim (Bool-cases (contains path name)) [
    | inl again ↦ let bad = rw (again, search_cycle) at h in absurd (cc)
    | inr new ↦ elim (Option-cases (get roles name)) [
      | inl unknown ↦
          let (out, forward, complete, meets) =
            search_cycle-Seen fuel path stack (rw (new, unknown, search_cycle) at h) f
              (λ p q m e. skip-Met path stack name q unknown (c p q m e)) in
          (out, forward, complete, λ q m. meets q (skip-Met path stack name q unknown m))
      | inr (role, found) ↦
          let passes = rw (new, found, search_cycle) at h in
          let (out, forward, complete, meets) =
            search_cycle-Seen fuel (name ∷ path) (role.inherits ++ stack) passes
              (
                λ m. absurd (let known = In→contains path name m in cc),
                λ q edge m.
                    let (role', found', i) = edge in
                    let is : role ≡ role' = cc (found, found') in
                    search_cycle-meets fuel (name ∷ path) (role.inherits ++ stack) q passes
                      (++-In q role.inherits stack
                        (inl (subst (λ (x : Role). In q x.inherits) (sym is) i)))
                      m,
                f,
              )
              (visit-Complete path stack name role found c) in
          (out, forward, complete, λ q m. meets q (visit-Met path stack role.inherits name q m))
    ]
  ]
