-- ===== src/Authz/Abac/Overrides.antt =====
-- The engine's contract: a grant needs a firing allow, and no deny that fires.
use auth_lab.Prelude.{
  true, false, List, [], ◌∷◌, ◌≡◌, ◌↔◌, ◌⊎◌, inl, inr, refl, sym, subst, ◌&&◌, not, is_empty, arith,
  Bool-cases,
}
use auth_lab.Authz.Abac.{allow, is_deny, Request, Policy, fires, matching, evaluate, can}

-- The policy is one of the list.
abbrev pub Among : Policy → List Policy → Type 0
Among p [] = ⊥
Among p (q ∷ ps) = (q ≡ p) ⊎ Among p ps

-- A policy of the list that fires and allows.
abbrev pub Allowing : Request → List Policy → Type 0
Allowing r ps = (p : Policy) × Among p ps × (fires r p ≡ true) × (p.effect ≡ allow)

-- No policy of the list that fires denies.
abbrev pub Undenied : Request → List Policy → Type 0
Undenied r ps = (p : Policy) → Among p ps → fires r p ≡ true → p.effect ≡ allow

no_deny :
    (r : Request) (p : Policy)
    → (fires r p && is_deny p.effect) ≡ false
    → fires r p ≡ true
    → p.effect ≡ allow
no_deny r p h f = ground arith

denies-Undenied :
    (r : Request) (ps : List Policy) → is_empty (matching true r ps) ≡ true → Undenied r ps
unfolding matching
denies-Undenied r [] h p m f = absurd m
denies-Undenied r (q ∷ ps) h p (inl same) f =
    subst (λ (x : Policy). fires r x ≡ true → x.effect ≡ allow) same (no_deny r q (ground arith)) f
denies-Undenied r (q ∷ ps) h p (inr m) f = denies-Undenied r ps (ground arith) p m f

Undenied-denies :
    (r : Request) (ps : List Policy) → Undenied r ps → is_empty (matching true r ps) ≡ true
unfolding matching
Undenied-denies r [] h = refl
Undenied-denies r (q ∷ ps) h =
    ground (arith, h q (inl refl), Undenied-denies r ps (λ p m. h p (inr m)))

allows-Allowing :
    (r : Request) (ps : List Policy) → is_empty (matching false r ps) ≡ false → Allowing r ps
unfolding matching
allows-Allowing r [] h = cc
allows-Allowing r (q ∷ ps) h = elim (Bool-cases (fires r q && not (is_deny q.effect))) [
  | inl fits ↦ (q, inl refl, ground arith, ground arith)
  | inr not_it ↦ let (p, m, f, e) = allows-Allowing r ps (ground arith) in (p, inr m, f, e)
]

Allowing-allows :
    (r : Request) (ps : List Policy) → Allowing r ps → is_empty (matching false r ps) ≡ false
unfolding matching
Allowing-allows r [] (p, m, f, e) = absurd m
Allowing-allows r (q ∷ ps) (p, inl same, f, e) =
    subst (λ (x : Policy). is_empty (matching false r (x ∷ ps)) ≡ false) (sym same) (ground arith)
Allowing-allows r (q ∷ ps) (p, inr m, f, e) = ground (arith, Allowing-allows r ps (p, m, f, e))

can-matching :
    (ps : List Policy) (r : Request)
    → can ps r ≡ (is_empty (matching true r ps) && not (is_empty (matching false r ps)))
unfolding can evaluate
can-matching ps r = ground arith

-- The engine grants a request exactly if a policy that fires allows it and no policy that fires
-- denies it; so a deny overrides every allow, and nothing is granted by default.
pub can_iff : (ps : List Policy) (r : Request) → (can ps r ≡ true) ↔ (Allowing r ps × Undenied r ps)
can_iff ps r = (
  λ h. (
    allows-Allowing r ps (ground (arith, can-matching ps r)),
    denies-Undenied r ps (ground (arith, can-matching ps r)),
  ),
  λ (some_allow, none_deny).
      ground
        (arith, can-matching ps r, Allowing-allows r ps some_allow, Undenied-denies r ps none_deny),
)

-- Engines with the same policies, in whatever order and however often, grant the same requests.
pub can-order :
    (ps qs : List Policy) (r : Request)
    → ((p : Policy) → Among p ps ↔ Among p qs)
    → (can ps r ≡ true) ↔ (can qs r ≡ true)
can-order ps qs r same = (one ps qs (λ p. same p), one qs ps (λ p. ((same p).1, (same p).0)))
  where
    one :
        (xs ys : List Policy)
        → ((p : Policy) → Among p xs ↔ Among p ys)
        → can xs r ≡ true
        → can ys r ≡ true
    one xs ys e h =
        let ((p, m, f, a), none_deny) = (can_iff xs r).0 h in
        (can_iff ys r).1 ((p, (e p).0 m, f, a), λ q k g. none_deny q ((e q).1 k) g)
