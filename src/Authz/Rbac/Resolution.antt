-- ===== src/Authz/Rbac/Resolution.antt =====
-- The loop of `effective_roles` ends, with the roles that inheritance reaches.
use auth_lab.Prelude.{
  ℕ, zero, suc, ◌+◌, String, none, some, List, [], ◌∷◌, ◌++◌, ◌≡◌, ◌⊎◌, inl, inr, ◌↔◌, refl, sym,
  subst, arith, length, contains, In, contains→In, Bool-cases, Option-cases,
}
use auth_lab.Dict.{Dict, get}
use auth_lab.Authz.Rbac.{Role, Rbac, held_by, potential, resolve, effective_roles}
use auth_lab.Authz.Rbac.Fuel.{resolve-total}

In-++ : (x : String) (xs ys : List String) → In x (xs ++ ys) → In x xs ⊎ In x ys
In-++ x [] ys m = inr m
In-++ x (y ∷ xs) ys (inl same) = inl (inl same)
In-++ x (y ∷ xs) ys (inr m) = elim (In-++ x xs ys m) [ inl l ↦ inl (inr l) | inr r ↦ inr r ]

pub ++-In : (x : String) (xs ys : List String) → In x xs ⊎ In x ys → In x (xs ++ ys)
++-In x [] ys (inl m) = absurd m
++-In x [] ys (inr m) = m
++-In x (y ∷ xs) ys (inl (inl same)) = inl same
++-In x (y ∷ xs) ys (inl (inr m)) = inr (++-In x xs ys (inl m))
++-In x (y ∷ xs) ys (inr m) = inr (++-In x xs ys (inr m))

module _ (roles : Dict Role) (held : List String) where
  -- The names that inheritance reaches from the roles that are held.
  pub data Reached : String → Type 0 where
    assigned : {name : String} → In name held → Reached name
    inherited :
        {name parent : String} {role : Role}
        → Reached parent
        → get roles parent ≡ some role
        → In name role.inherits
        → Reached name

  -- A role that is held, directly or by inheritance: a reached name that is defined.
  abbrev pub Holds : String → Type 0
  Holds name = Reached name × ((role : Role) × (get roles name ≡ some role))

  abbrev AllReached : List String → Type 0
  AllReached names = (name : String) → In name names → Reached name

  abbrev AllHeld : List String → Type 0
  AllHeld names = (name : String) → In name names → Holds name

  resolve_sound :
      (fuel : ℕ) (queue result out : List String)
      → resolve fuel roles queue result ≡ some out
      → AllReached queue
      → AllHeld result
      → AllHeld out
  unfolding resolve
  resolve_sound fuel [] result out h q r = let same : result ≡ out = cc in subst AllHeld same r
  resolve_sound zero (name ∷ queue) result out h q r = cc
  resolve_sound (suc fuel) (name ∷ queue) result out h q r =
      let rest : AllReached queue = λ n m. q n (inr m) in
      elim (Bool-cases (contains result name)) [
        | inl seen ↦ resolve_sound fuel queue result out (rw (seen, resolve) at h) rest r
        | inr new ↦ elim (Option-cases (get roles name)) [
          | inl unknown ↦
              resolve_sound fuel queue result out (rw (new, unknown, resolve) at h) rest r
          | inr (role, found) ↦
              resolve_sound fuel (role.inherits ++ queue) (name ∷ result) out
                (rw (new, found, resolve) at h)
                (λ n m. elim (In-++ n role.inherits queue m) [
                  | inl below ↦ inherited (q name (inl refl)) found below
                  | inr queued ↦ rest n queued
                ])
                (λ n m. elim m [
                  | inl same ↦ subst Holds same (q name (inl refl), (role, found))
                  | inr before ↦ r n before
                ])
        ]
      ]

  -- A name is undefined, or among the results, or still queued.
  abbrev Covered : List String → List String → String → Type 0
  Covered result queue name = (get roles name ≡ none) ⊎ (In name result ⊎ In name queue)

  -- What the results inherit from is covered.
  abbrev Closed : List String → List String → Type 0
  Closed result queue =
      (name parent : String) (role : Role)
      → In parent result
      → get roles parent ≡ some role
      → In name role.inherits
      → Covered result queue name

  skip-Covered :
      (result queue : List String) (name n : String)
      → (get roles name ≡ none) ⊎ In name result
      → Covered result (name ∷ queue) n
      → Covered result queue n
  skip-Covered result queue name n done (inl unknown) = inl unknown
  skip-Covered result queue name n done (inr (inl m)) = inr (inl m)
  skip-Covered result queue name n (inl unknown) (inr (inr (inl same))) =
      inl (subst (λ x. get roles x ≡ none) same unknown)
  skip-Covered result queue name n (inr m) (inr (inr (inl same))) =
      inr (inl (subst (λ x. In x result) same m))
  skip-Covered result queue name n done (inr (inr (inr m))) = inr (inr m)

  visit-Covered :
      (result queue inherits : List String) (name n : String)
      → Covered result (name ∷ queue) n
      → Covered (name ∷ result) (inherits ++ queue) n
  visit-Covered result queue inherits name n (inl unknown) = inl unknown
  visit-Covered result queue inherits name n (inr (inl m)) = inr (inl (inr m))
  visit-Covered result queue inherits name n (inr (inr (inl same))) = inr (inl (inl same))
  visit-Covered result queue inherits name n (inr (inr (inr m))) =
      inr (inr (++-In n inherits queue (inr m)))

  -- What the search gives, from results and a queue on.
  abbrev Covers : List String → List String → List String → Type 0
  Covers out result queue =
      Closed out [] × ((name : String) → Covered result queue name → Covered out [] name)

  skipped :
      (result queue out : List String) (name : String)
      → (get roles name ≡ none) ⊎ In name result
      → Closed result (name ∷ queue)
      → (Closed result queue → Covers out result queue)
      → Covers out result (name ∷ queue)
  skipped result queue out name done c rest =
      let (closed, covers) =
        rest (λ n p role m f i. skip-Covered result queue name n done (c n p role m f i)) in
      (closed, λ n m. covers n (skip-Covered result queue name n done m))

  visited :
      (result queue : List String) (name : String) (role : Role)
      → get roles name ≡ some role
      → Closed result (name ∷ queue)
      → Closed (name ∷ result) (role.inherits ++ queue)
  visited result queue name role found c n p role' (inl same) f i =
      let is : role ≡ role' = cc (found, f, same) in
      inr
        (inr (++-In n role.inherits queue (inl (subst (λ (x : Role). In n x.inherits) (sym is) i))))
  visited result queue name role found c n p role' (inr m) f i =
      visit-Covered result queue role.inherits name n (c n p role' m f i)

  resolve-closed :
      (fuel : ℕ) (queue result out : List String)
      → resolve fuel roles queue result ≡ some out
      → Closed result queue
      → Covers out result queue
  unfolding resolve
  resolve-closed fuel [] result out h c =
      let same : result ≡ out = cc in
      (subst (λ l. Closed l []) same c, λ n m. subst (λ l. Covered l [] n) same m)
  resolve-closed zero (name ∷ queue) result out h c = cc
  resolve-closed (suc fuel) (name ∷ queue) result out h c =
      elim (Bool-cases (contains result name)) [
        | inl seen ↦
            skipped result queue out name (inr (contains→In result name seen)) c
              (resolve-closed fuel queue result out (rw (seen, resolve) at h))
        | inr new ↦ elim (Option-cases (get roles name)) [
          | inl unknown ↦
              skipped result queue out name (inl unknown) c
                (resolve-closed fuel queue result out (rw (new, unknown, resolve) at h))
          | inr (role, found) ↦
              let (closed, covers) =
                resolve-closed fuel (role.inherits ++ queue) (name ∷ result) out
                  (rw (new, found, resolve) at h) (visited result queue name role found c) in
              (closed, λ n m. covers n (visit-Covered result queue role.inherits name n m))
        ]
      ]

  Covered-In :
      (out : List String) (name : String) (role : Role)
      → get roles name ≡ some role
      → Covered out [] name
      → In name out
  Covered-In out name role found (inl unknown) = cc
  Covered-In out name role found (inr (inl m)) = m
  Covered-In out name role found (inr (inr m)) = absurd m

  Reached-In :
      (out : List String)
      → Closed out []
      → ((name : String) → In name held → Covered out [] name)
      → {name : String} → Reached name
      → (role : Role) → get roles name ≡ some role
      → In name out
  Reached-In out closed starts (assigned m) role found = Covered-In out _ role found (starts _ m)
  Reached-In out closed starts (inherited {name} {parent} {role = above} r f i) role found =
      Covered-In out name role found
        (closed name parent above (Reached-In out closed starts r above f) f i)

-- `effective_roles` ends, and its answer holds exactly the defined roles that the subject is assigned
-- or that inheritance reaches from those, also where the hierarchy has a cycle.
pub effective_roles_iff :
    (b : Rbac) (subject : String)
    → (out : List String) × (effective_roles b subject ≡ some out)
      × ((name : String) → In name out ↔ Holds b.roles (held_by b subject) name)
unfolding effective_roles
effective_roles_iff b subject =
    let held = held_by b subject in
    let (out, ends) =
      resolve-total b.roles (length held + potential [] b.roles) held [] (omega arith) in
    let sound =
      resolve_sound b.roles held _ held [] out ends (λ n m. assigned m) (λ n m. absurd m) in
    let (closed, covers) =
      resolve-closed b.roles held _ held [] out ends (λ n p role m f i. absurd m) in
    (
      out,
      ends,
      λ name. (
        sound name,
        λ (reached, (role, found)).
            Reached-In b.roles held out closed (λ n m. covers n (inr (inr m))) reached role found,
      ),
    )
