-- ===== src/Directory/Ldap/Selected.antt =====
-- What a search selects.
use auth_lab.Prelude.{
  ◌≡◌, refl, sym, ap, subst, ◌⊎◌, inl, inr, String, Bool, true, false, ◌&&◌, List, [], ◌∷◌, arith,
  if◌then◌else◌, Among,
}
use auth_lab.Prelude.Result.{Result, ok, >>=-eq-ok}
use auth_lab.Dict.{Dict}
use auth_lab.Directory.Ldap.Filter.{Error, Entry, Filter as Predicate}
use auth_lab.Directory.Ldap.Filter.Holds.{holds}
use auth_lab.Directory.Ldap.{Name, parse_dn, is_child_of, select}

-- An entry below `base` that the filter matches.
pub record Hits (base : Name) (f : Predicate) (entry : Entry) : Type 0 where
  pub name : Name
  pub named : parse_dn entry.dn ≡ ok name
  pub below : is_child_of name base ≡ true
  pub fits : holds f entry ≡ true

-- One step of the search.
kept :
    (b : Bool) (e : Entry) (more : List Entry) {found : List Entry}
    → Path (Result Error (List Entry)) (ok (if b then e ∷ more else more)) (ok found)
    → ((b ≡ true) × (found ≡ e ∷ more)) ⊎ ((b ≡ false) × (found ≡ more))
kept true e more h = inl (refl, cc h)
kept false e more h = inr (refl, cc h)

select-cons :
    (base : Name) (f : Predicate) (key : String) (e : Entry) (rest : Dict Entry)
    {found : List Entry}
    → select base f ((key, e) ∷ rest) ≡ ok found
    → (name : Name) × (more : List Entry) × (parse_dn e.dn ≡ ok name)
      × (select base f rest ≡ ok more)
      × (((is_child_of name base && holds f e ≡ true) × (found ≡ e ∷ more))
          ⊎ ((is_child_of name base && holds f e ≡ false) × (found ≡ more)))
unfolding select
select-cons base f key e rest h =
    let (name, named, h1) = >>=-eq-ok (parse_dn e.dn) _ h in
    let (more, others, h2) = >>=-eq-ok (select base f rest) _ h1 in
    (name, more, named, others, kept (is_child_of name base && holds f e) e more h2)

pub select-all :
    (base : Name) (f : Predicate) (es : Dict Entry) (found : List Entry) (key : String)
    (entry : Entry)
    → select base f es ≡ ok found
    → Among (key, entry) es
    → Hits base f entry
    → Among entry found
select-all base f [] found key entry h among hits = absurd among
select-all base f ((k, e) ∷ rest) found key entry h among hits =
    let (name, more, named, others, step) = select-cons base f k e rest h in
    elim among [
      | inl same ↦ elim step [
        | inl (yes_e, is) ↦ subst (Among entry) (sym is) (inl (ap (λ x. x.1) same))
        | inr (no_e, is) ↦ absurd (
            let same_name : name ≡ hits.name =
              cc (named, hits.named, ap (λ (x : String × Entry). parse_dn x.1.dn) same) in
            let fits = hits.fits in
            let below = hits.below in
            cc (no_e, same_name, fits, below, ap (λ (x : String × Entry). x.1) same))
      ]
      | inr later ↦
          let among_more = select-all base f rest more key entry others later hits in
          elim step [
            | inl (yes_e, is) ↦ subst (Among entry) (sym is) (inr among_more)
            | inr (no_e, is) ↦ subst (Among entry) (sym is) among_more
          ]
    ]

pub select-Hits :
    (base : Name) (f : Predicate) (es : Dict Entry) (found : List Entry) (entry : Entry)
    → select base f es ≡ ok found
    → Among entry found
    → (key : String) × Among (key, entry) es × Hits base f entry
unfolding select
select-Hits base f [] found entry h among =
    let empty : [] ≡ found = cc h in absurd (subst (Among entry) (sym empty) among)
select-Hits base f ((k, e) ∷ rest) found entry h among =
    let (name, more, named, others, step) = select-cons base f k e rest h in
    let later : Among entry more
        → (key : String) × Among (key, entry) ((k, e) ∷ rest) × Hits base f entry =
      λ m.
        let (key, there, hits) = select-Hits base f rest more entry others m in
        (key, inr there, hits) in
    elim step [
      | inl (yes_e, is) ↦ elim (subst (Among entry) is among) [
        | inl same ↦ (
          k,
          inl (ap (λ x. (k, x)) same),
          subst (Hits base f) same
              (record { name = name; named = named; below = ground arith; fits = ground arith }),
        )
        | inr m ↦ later m
      ]
      | inr (no_e, is) ↦ later (subst (Among entry) is among)
    ]
