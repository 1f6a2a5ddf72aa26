-- ===== src/Json.antt =====
-- JSON values as `json.loads` returns them, and Python's tests on them.
use pasi_engineering_workspa.Prelude.{
  ℤ, pos, Bool, true, false, List, [], ◌∷◌, String, str_eq, Option, none, some, if◌then◌else◌,
}

-- A number with a fraction part or an exponent is a `float`, with the integer that it equals if
-- there is one. The keys of an object are texts, in the order of the document; as in a Python dict,
-- none stands twice.
mutual
  pub data Value : Type 0 where
    obj : Fields → Value
    arr : Items → Value
    str : String → Value
    int : ℤ → Value
    float : Option ℤ → Value
    bool : Bool → Value
    null : Value

  pub data Fields : Type 0 where
    end : Fields
    field : String → Value → Fields → Fields

  pub data Items : Type 0 where
    last : Items
    item : Value → Items → Items

unfoldable pub get : String → Fields → Option Value
get key end = none
get key (field k v fs) = if str_eq k key then some v else get key fs

-- `value.get(key, default)`
abbrev pub get_or : String → Value → Fields → Value
get_or key d fs = elim (get key fs) [ none ↦ d | some v ↦ v ]

abbrev pub entries : Fields → List (String × Value)
entries end = []
entries (field k v fs) = (k, v) ∷ entries fs

-- The integer of an `isinstance(value, int)`: a bool is one too.
abbrev pub as_int : Value → Option ℤ
as_int (int n) = some n
as_int (bool true) = some (pos 1)
as_int (bool false) = some (pos 0)
as_int _ = none

-- The integer that a value is equal to by `==`, if any.
abbrev pub as_number : Value → Option ℤ
as_number (float n) = n
as_number v = as_int v
