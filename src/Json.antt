-- ===== src/Json.antt =====
-- The values that `json.loads` returns and `json.dumps` takes, as far as the library reads them.
-- An object's members are kept in order, each name once.
use auth_lab.Prelude.{
  String, Bool, true, false, Option, none, some, List, [], ◌∷◌, str_eq, if◌then◌else◌,
}
use auth_lab.Prelude.Int.{ℤ, pos}

mutual
  pub data Json : Type 0 where
    null : Json
    bool : Bool → Json
    int : ℤ → Json
    -- the literal of a number with a fraction or an exponent
    float : String → Json
    str : String → Json
    arr : Items → Json
    obj : Fields → Json

  pub data Items : Type 0 where
    nil : Items
    cons : Json → Items → Items

  pub data Fields : Type 0 where
    end : Fields
    field : String → Json → Fields → Fields

-- `o.get(name)` of an object
unfoldable pub member : String → Fields → Option Json
member k end = none
member k (field j v o) = if str_eq j k then some v else member k o

-- `isinstance(x, str)`
abbrev pub as_str : Option Json → Option String
as_str (some (str s)) = some s
as_str _ = none

-- `isinstance(x, int)`: a `bool` is an `int` in Python.
abbrev pub as_int : Option Json → Option ℤ
as_int (some (int n)) = some n
as_int (some (bool true)) = some (pos 1)
as_int (some (bool false)) = some (pos 0)
as_int _ = none

abbrev pub items : List Json → Items
items [] = nil
items (x ∷ xs) = cons x (items xs)

abbrev pub texts : List String → Items
texts [] = nil
texts (x ∷ xs) = cons (str x) (texts xs)

-- `o[name] = v` behind the members that are there.
unfoldable pub with_member : Fields → String → Json → Fields
with_member end k v = field k v end
with_member (field j w o) k v = if str_eq j k then field j v o else field j w (with_member o k v)

-- `o.update(p)`
unfoldable pub merge : Fields → Fields → Fields
unfolding with_member
merge o end = o
merge o (field k v p) = merge (with_member o k v) p
