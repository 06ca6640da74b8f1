-- ===== src/Authz/Rebac/Expand/Sharing.antt =====
-- `list_users` lists the users for whom `check` answers yes.
use auth_lab.Prelude.{
  ℕ, zero, suc, ◌+◌, ◌≡◌, ◌⊎◌, ◌↔◌, refl, sym, ◌∙◌, subst, inl, inr, String, Bool, true, ◌&&◌, none,
  List, [], ◌∷◌, any, arith, length, str_eq, eq_refl, In, Among, any→Among, Among→any, Bool-cases,
  contains, In→contains, contains→In,
}
use auth_lab.Prelude.Text.{split_once, before, or_empty, ends_with}
use auth_lab.Prelude.Sorting.{contains-sort_texts}
use auth_lab.Authz.Rebac.{
  Tuple, Userset, this, Rebac, rewrite_for, direct, fits_wildcard, check, Key, same_key,
}
use auth_lab.Authz.Rebac.Search.{search, search_iff}
use auth_lab.Authz.Rebac.Rules.{grants, asks}
use auth_lab.Authz.Rebac.Asks.{
  grants-this, this-grants, by_userset, by_relation, by_object, Among-asks,
}
use auth_lab.Authz.Rebac.Queries.{
  asked, IsChain-Member, Chained, Chained-nested, Chained-relation, Chained-object, same_key_iff,
  check_iff,
}
use auth_lab.Authz.Rebac.Member.{
  HasRule, Member, listed, public, nested, through_relation, through_object,
}
use auth_lab.Authz.Rebac.Expand.{expand_at, on_path, expand, walk, distinct, list_users}
use auth_lab.Authz.Rebac.Expand.Shown.{
  contains-expand_userset, contains-distinct, is_plain, is_plain-eq, is_plain_self,
  fits_wildcard-ends_with, shown, any-cong-Among,
}

-- The keys that a rule asks for are for the same user.
asked_key :
    (tuples : List Tuple) (o r w : String) (rewrite : Userset) (key : Key)
    → Among key (asks tuples o r w rewrite)
    → (o' r' : String) × ((o', r', w) ≡ key)
asked_key tuples o r w rewrite key m = elim (Among-asks tuples o r w key rewrite m) [
  | by_userset c o' r' rule m' s is ↦ (o', r', is)
  | by_relation relation rule is ↦ (o, or_empty relation, is)
  | by_object t relation p rule m' is ↦ (before b'#' p, or_empty relation, is)
]

module _ (e : Rebac) (w : String) where
  shows : Key → Bool
  shows (o, r, u) = grants e.tuples o r (is_plain w) (rewrite_for e o r)

  tagged : List (String × String) → List Key
  tagged [] = []
  tagged ((o, r) ∷ path) = (o, r, w) ∷ tagged path

  on_path-tagged :
      (o r : String) (path : List (String × String))
      → on_path o r path ≡ any (same_key (o, r, w)) (tagged path)
  unfolding tagged
  on_path-tagged o r [] = refl
  on_path-tagged o r ((o', r') ∷ path) = ground (arith, on_path-tagged o r path, eq_refl w)

  expand_at-eq-search :
      (left : ℕ) (path : List (String × String)) (o r : String)
      → contains (walk (expand_at e left path o r)) w
        ≡ search same_key shows (asked e) left (tagged path) (o, r, w)
  unfolding expand_at search shows asked walk tagged
  expand_at-eq-search zero path o r = refl
  expand_at-eq-search (suc left) path o r =
      let path' = (o, r) ∷ path in
      let rewrite = rewrite_for e o r in
      let keys = asks e.tuples o r w rewrite in
      let below = search same_key shows (asked e) left (tagged path') in
      let same : any (shown (expand_at e left path')) keys ≡ any below keys =
        any-cong-Among (shown (expand_at e left path')) below keys (λ key m.
          let (o', r', is) = asked_key e.tuples o r w rewrite key m in
          subst (λ k. shown (expand_at e left path') k ≡ below k) is
            (expand_at-eq-search left path' o' r')) in
      ground (
        arith,
        on_path-tagged o r path,
        same,
        contains-expand_userset e.tuples o r w (expand_at e left path') rewrite,
      )

  list_users-eq-search :
      (o r : String)
      → contains (list_users e o r) w
        ≡ search same_key shows (asked e) (e.max_depth + 1) [] (o, r, w)
  unfolding list_users expand tagged
  list_users-eq-search o r =
      let all = walk (expand_at e (e.max_depth + 1) [] o r) in
      contains-sort_texts (distinct all) w
      ∙ contains-distinct all w
      ∙ expand_at-eq-search (e.max_depth + 1) [] o r

  -- A user that a rule lists, or that its wildcard names, is a member.
  shows-Member :
      (user : String)
      → (w ≡ user) ⊎ (fits_wildcard user w ≡ true)
      → (o r : String) → shows (o, r, w) ≡ true
      → Member e user 0 o r
  unfolding shows
  shows-Member user covers o r shown_here =
      let (rule, plain) = this-grants e.tuples o r (is_plain w) (rewrite_for e o r) shown_here in
      let (c, m, is) = any→Among (is_plain w) (direct e.tuples o r) plain in
      let same = is_plain-eq w c is in
      let m' = subst (λ x. Among x (direct e.tuples o r)) same m in
      elim covers [
        | inl exact ↦ listed rule (subst (λ x. Among x (direct e.tuples o r)) exact m')
        | inr fits ↦ public w rule m' fits
      ]

  Chained-zero :
      (o r : String)
      → HasRule this (rewrite_for e o r)
      → Among w (direct e.tuples o r)
      → split_once b'#' w ≡ none
      → Chained e w shows 0 o r
  unfolding Chained shows
  Chained-zero o r rule m plain = (
    [],
    grants-this e.tuples o r (is_plain w) (rewrite_for e o r) rule
        (Among→any (is_plain w) (direct e.tuples o r) w m (is_plain_self w plain)),
    refl,
  )

direct-Among :
    (ts : List Tuple) (o r c : String)
    → Among c (direct ts o r)
    → (t : Tuple) × Among t ts × (t.user ≡ c)
unfolding direct
direct-Among [] o r c m = absurd m
direct-Among (t ∷ ts) o r c m = elim (Bool-cases (str_eq t.object o && str_eq t.relation r)) [
  | inr other ↦
      let (t', among, is) = direct-Among ts o r c (rw (other, direct) at m) in (t', inr among, is)
  | inl here ↦
      let m' : Among c (t.user ∷ direct ts o r) = rw (here, direct) at m in
      elim m' [
        | inl is ↦ (t, inl refl, is)
        | inr later ↦ let (t', among, is) = direct-Among ts o r c later in (t', inr among, is)
      ]
]

module _ (e : Rebac) (user : String) (plain : split_once b'#' user ≡ none)
    (tidy : (t : Tuple)
      → Among t e.tuples
      → ends_with ":*" t.user ≡ true
      → split_once b'#' t.user ≡ none) where
  -- An entry that stands for the user.
  abbrev Covers : String → Type 0
  Covers w = (w ≡ user) ⊎ (fits_wildcard user w ≡ true)

  Member-Chained :
      {n : ℕ} {o r : String}
      → Member e user n o r
      → (w : String) × Covers w × Chained e w (shows e w) n o r
  Member-Chained {o = o} {r = r} (listed rule m) =
      (user, inl refl, Chained-zero e user o r rule m plain)
  Member-Chained {o = o} {r = r} (public c rule m fits) =
      let (t, among, is) = direct-Among e.tuples o r c m in
      let ends = fits_wildcard-ends_with user c fits in
      let no_hash =
        subst (λ x. split_once b'#' x ≡ none) is
          (tidy t among (subst (λ x. ends_with ":*" x ≡ true) (sym is) ends)) in
      (c, inr fits, Chained-zero e c o r rule m no_hash)
  Member-Chained {n = suc n} {o = o} {r = r} (nested c o' r' rule m s mem) =
      let (w, covers, chained) = Member-Chained mem in
      (w, covers, Chained-nested e w (shows e w) n o r c o' r' rule m s chained)
  Member-Chained {n = suc n} {o = o} {r = r} (through_relation relation rule mem) =
      let (w, covers, chained) = Member-Chained mem in
      (w, covers, Chained-relation e w (shows e w) n o r relation rule chained)
  Member-Chained {n = suc n} {o = o} {r = r} (through_object p t relation rule m mem) =
      let (w, covers, chained) = Member-Chained mem in
      (w, covers, Chained-object e w (shows e w) n o r p t relation rule m chained)

  -- `check` answers yes to a user, one that is no userset itself, exactly where `list_users` has the
  -- user or a wildcard that the user's name fits, as long as no stored wildcard is a userset too.
  pub check-list_users :
      (o r : String)
      → (check e o r user ≡ true) ↔ ((w : String) × In w (list_users e o r) × Covers w)
  unfolding Chained
  check-list_users o r = (
    λ h.
        let (n, short, mem) = (check_iff e o r user).0 h in
        let (w, covers, (ks, chain, is)) = Member-Chained mem in
        let found =
          (search_iff same_key (shows e w) (asked e) same_key_iff e.max_depth (o, r, w)).1
            (ks, chain, omega arith) in
        (w, contains→In (list_users e o r) w (list_users-eq-search e w o r ∙ found), covers),
    λ (w, listed_w, covers).
        let found =
          sym (list_users-eq-search e w o r) ∙ In→contains (list_users e o r) w listed_w in
        let (ks, chain, short) =
          (search_iff same_key (shows e w) (asked e) same_key_iff e.max_depth (o, r, w)).0 found in
        (check_iff e o r user).1 (
          length ks,
          short,
          IsChain-Member e w (shows e w) user (shows-Member e w user covers) o r ks chain,
        ),
  )
