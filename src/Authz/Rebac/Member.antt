-- ===== src/Authz/Rebac/Member.antt =====
-- What the rewrite rules promise: who is a member of a relation, and over how many hops.
use auth_lab.Prelude.{ℕ, suc, ◌≡◌, ◌⊎◌, true, Option, some, String, Among}
use auth_lab.Prelude.Text.{split_once, before, or_empty}
use auth_lab.Authz.Rebac.{
  Userset, this, computed, through, union, unknown, Usersets, nil, cons, Rebac, rewrite_for, direct,
  fits_wildcard,
}

-- The rule is the rewrite, or a branch of it.
unfoldable mutual
  pub HasRule : Userset → Userset → Type 0
  HasRule rule this = this ≡ rule
  HasRule rule (computed r) = computed r ≡ rule
  HasRule rule (through t r) = through t r ≡ rule
  HasRule rule (union children) = AnyRule rule children
  HasRule rule unknown = ⊥

  pub AnyRule : Userset → Usersets → Type 0
  AnyRule rule nil = ⊥
  AnyRule rule (cons child children) = HasRule rule child ⊎ AnyRule rule children

-- `user` is in the relation of the object, over this many hops to other usersets.
pub data Member (e : Rebac) (user : String) : ℕ → String → String → Type 0 where
  -- the tuple `object#relation@user`
  listed :
      {o r : String}
      → HasRule this (rewrite_for e o r)
      → Among user (direct e.tuples o r)
      → Member e user 0 o r
  -- a tuple for `prefix:*`, where the user's name begins with `prefix:`
  public :
      {o r : String} (candidate : String)
      → HasRule this (rewrite_for e o r)
      → Among candidate (direct e.tuples o r)
      → fits_wildcard user candidate ≡ true
      → Member e user 0 o r
  -- a tuple for the userset `object'#relation'`
  nested :
      {n : ℕ} {o r : String} (candidate o' r' : String)
      → HasRule this (rewrite_for e o r)
      → Among candidate (direct e.tuples o r)
      → split_once b'#' candidate ≡ some (o', r')
      → Member e user n o' r'
      → Member e user (suc n) o r
  -- another relation of the object
  through_relation :
      {n : ℕ} {o r : String} (relation : Option String)
      → HasRule (computed relation) (rewrite_for e o r)
      → Member e user n o (or_empty relation)
      → Member e user (suc n) o r
  -- a relation of an object that the object's tuples name
  through_object :
      {n : ℕ} {o r : String} (parent : String) (tupleset relation : Option String)
      → HasRule (through tupleset relation) (rewrite_for e o r)
      → Among parent (direct e.tuples o (or_empty tupleset))
      → Member e user n (before b'#' parent) (or_empty relation)
      → Member e user (suc n) o r
