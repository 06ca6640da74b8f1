-- ===== src/Directory/Ldap/Login.antt =====
-- Who passes a login.
use auth_lab.Prelude.{
  ◌≡◌, refl, sym, ap, ◌∙◌, subst, inl, inr, String, Bool, true, false, Option, none, some, List, [],
  ◌∷◌, Bool-cases, if◌then◌else◌, Among, Option-cases,
}
use auth_lab.Prelude.Text.{strip, is_nonempty}
use auth_lab.Prelude.Result.{Result, ok, err, >>=-eq-ok}
use auth_lab.Url.{lower}
use auth_lab.Dict.{get}
use auth_lab.Directory.Ldap.Filter.{Error, Entry, values_of, equals, uid_filter}
use auth_lab.Directory.Ldap.Filter.Holds.{behind_prefix}
use auth_lab.Directory.Ldap.Filter.Comparison.{is_attribute, parse_filter-uid_filter}
use auth_lab.Directory.Ldap.{
  Hasher, Name, parse_dn, show_dn, Ldap, first_of, check_stored, bind_entry, bind_name, simple_bind,
  select, search, bind_match, authenticate,
}
use auth_lab.Directory.Ldap.Selected.{Hits, select-all, select-Hits}

-- The entry of the name has the password.
pub record Bound (hasher : Hasher) (password dn : String) (d : Ldap) : Type 0 where
  pub name : Name
  pub holder : Entry
  pub stored : String
  pub encoded : String
  pub named : parse_dn dn ≡ ok name
  pub there : get d.entries (show_dn name) ≡ some holder
  pub has_password : first_of (values_of holder "userpassword") ≡ some stored
  pub labelled : behind_prefix "{LAB}" stored ≡ some encoded
  pub verified : hasher.verify password encoded ≡ true

check_stored-yes :
    (hasher : Hasher) (password : String) (o : Option String)
    → check_stored hasher password o ≡ true
    → (stored : String) × (encoded : String) × (o ≡ some stored)
      × (behind_prefix "{LAB}" stored ≡ some encoded)
      × (hasher.verify password encoded ≡ true)
unfolding check_stored
check_stored-yes hasher password none h = cc
check_stored-yes hasher password (some stored) h =
    elim (Option-cases (behind_prefix "{LAB}" stored)) [
      | inl other ↦ absurd (let bad = rw (other, check_stored) at h in cc)
      | inr (encoded, is) ↦ (stored, encoded, refl, is, rw (is, check_stored) at h)
    ]

bind_name-yes :
    (hasher : Hasher) (password dn : String) (d : Ldap) (r : Result Error Name)
    → parse_dn dn ≡ r
    → bind_name hasher password d r ≡ true
    → Bound hasher password dn d
unfolding bind_name bind_entry
bind_name-yes hasher password dn d (err e) is h = cc
bind_name-yes hasher password dn d (ok name) is h =
    elim (Option-cases (get d.entries (show_dn name))) [
      | inl nobody ↦ absurd (let bad = rw nobody at h in cc)
      | inr (holder, there) ↦
          let (stored, encoded, has, labelled, verified) =
            check_stored-yes hasher password (first_of (values_of holder "userpassword"))
              (rw there at h) in
          record {
            name = name;
            holder = holder;
            stored = stored;
            encoded = encoded;
            named = is;
            there = there;
            has_password = has;
            labelled = labelled;
            verified = verified;
          }
    ]

simple_bind-Bound :
    (hasher : Hasher) (dn password : String) (d : Ldap)
    → simple_bind hasher dn password d ≡ ok true
    → (is_nonempty password ≡ true) × Bound hasher password dn d
unfolding simple_bind
simple_bind-Bound hasher dn password d h = elim (Bool-cases (is_nonempty password)) [
  | inl given ↦ (
    given,
    bind_name-yes hasher password dn d (parse_dn dn) refl (let h' = rw given at h in cc h'),
  )
  | inr empty ↦ absurd (let bad = rw empty at h in cc)
]

only_bound :
    (b : Bool) (e : Entry) {entry : Entry}
    → Path (Result Error (Option Entry)) (ok (if b then some e else none)) (ok (some entry))
    → (b ≡ true) × (e ≡ entry)
only_bound true e h = (refl, cc h)
only_bound false e h = cc

bind_match-ok :
    (hasher : Hasher) (password : String) (found : List Entry) (d : Ldap) {entry : Entry}
    → bind_match hasher password found d ≡ ok (some entry)
    → (found ≡ entry ∷ []) × (simple_bind hasher entry.dn password d ≡ ok true)
unfolding bind_match
bind_match-ok hasher password [] d h = cc
bind_match-ok hasher password (e ∷ []) d h =
    let (bound, binds, is) = >>=-eq-ok (simple_bind hasher e.dn password d) _ h in
    let (yes_bound, same) = only_bound bound e is in
    (
      ap (λ x. x ∷ []) same,
      subst (λ (x : Entry). simple_bind hasher x.dn password d ≡ ok true) same
          (binds ∙ ap ok yes_bound),
    )
bind_match-ok hasher password (e ∷ f ∷ es) d h = cc

authenticate-found :
    (hasher : Hasher) (username password base_dn uid_attr : String) (d : Ldap) {entry : Entry}
    → authenticate hasher username password base_dn uid_attr d ≡ ok (some entry)
    → (found : List Entry) × (search base_dn (uid_filter uid_attr username) d ≡ ok found)
      × (bind_match hasher password found d ≡ ok (some entry))
unfolding authenticate
authenticate-found hasher username password base_dn uid_attr d h =
    elim (Bool-cases (is_nonempty password)) [
      | inl given ↦
          >>=-eq-ok (search base_dn (uid_filter uid_attr username) d) _
            (let h' = rw given at h in cc h')
      | inr empty ↦ absurd (let bad = rw empty at h in cc)
    ]

search-uid_filter :
    (base_dn uid_attr username : String) (d : Ldap) {found : List Entry}
    → is_attribute uid_attr ≡ true
    → search base_dn (uid_filter uid_attr username) d ≡ ok found
    → (base : Name) × (parse_dn base_dn ≡ ok base)
      × (select base (equals (lower (strip uid_attr)) username) d.entries ≡ ok found)
unfolding search
search-uid_filter base_dn uid_attr username d named h =
    let (base, is_base, h1) = >>=-eq-ok (parse_dn base_dn) _ h in
    (base, is_base, let h2 = rw (parse_filter-uid_filter uid_attr username named) at h1 in h2)

-- A login returns an entry below the base that has the user's name, as it stands, as a value of the
-- attribute; it is the only such entry, whatever characters the name has; the password is not empty,
-- and it is that of the entry which the directory has under the name of the one found. The name of
-- the attribute has no syntax of filters in it.
pub authenticate-ok :
    (hasher : Hasher) (username password base_dn uid_attr : String) (d : Ldap) (entry : Entry)
    → is_attribute uid_attr ≡ true
    → authenticate hasher username password base_dn uid_attr d ≡ ok (some entry)
    → (base : Name) × (parse_dn base_dn ≡ ok base)
      × Hits base (equals (lower (strip uid_attr)) username) entry
      × ((key : String) (e : Entry)
          → Among (key, e) d.entries
          → Hits base (equals (lower (strip uid_attr)) username) e
          → e ≡ entry)
      × (is_nonempty password ≡ true)
      × Bound hasher password entry.dn d
authenticate-ok hasher username password base_dn uid_attr d entry named h =
    let f = equals (lower (strip uid_attr)) username in
    let (found, searched, matched) =
      authenticate-found hasher username password base_dn uid_attr d h in
    let (base, is_base, selected) = search-uid_filter base_dn uid_attr username d named searched in
    let (one, binds) = bind_match-ok hasher password found d matched in
    let (given, bound) = simple_bind-Bound hasher entry.dn password d binds in
    let (key, there, hits) =
      select-Hits base f d.entries found entry selected
        (subst (Among entry) (sym one) (inl refl)) in
    (
      base,
      is_base,
      hits,
      λ k e among hits_e.
          elim (subst (Among e) one (select-all base f d.entries found k e selected among hits_e)) [
            | inl same ↦ sym same
            | inr nothing ↦ absurd nothing
          ],
      given,
      bound,
    )
