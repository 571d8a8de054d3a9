-- ===== src/Star/Values.antt =====
-- Starlark values, as far as the Go code tells them apart. A float is its 64-bit pattern. The keys
-- of a dict are strings, as in all dicts that JSON yields; a Go map of values is such a list too,
-- with one entry for a key.
use starlark_worker.Prelude.{
  ℕ, ℤ, Bool, Option, none, some, List, [], ◌∷◌, Text, ◌==◌, nat_eq, list_eq, if◌then◌else◌,
}

mutual
  pub data Value : Type 0 where
    null : Value
    boolean : Bool → Value
    int : ℤ → Value
    float : ℕ → Value
    string : Text → Value
    bytes : Text → Value
    list : Items → Value
    tuple : Items → Value
    dict : Fields → Value
    dataclass : Fields → Value
    callable : ℕ → Value

  pub data Items : Type 0 where
    nil : Items
    cons : Value → Items → Items

  pub data Fields : Type 0 where
    empty : Fields
    field : Text → Value → Fields → Fields

-- Reading a key, as `dict.Get` and `m[k]` do.
abbrev pub get_field : Text → Fields → Option Value
get_field k empty = none
get_field k (field j v fs) = if j == k then some v else get_field k fs

-- Writing a key, as `dict.SetKey` and `m[k] = v` do: a new key goes to the end.
abbrev pub set_field : Text → Value → Fields → Fields
set_field k v empty = field k v empty
set_field k v (field j w fs) = if j == k then field j v fs else field j w (set_field k v fs)

abbrev pub keys : Fields → List Text
keys empty = []
keys (field k v fs) = k ∷ keys fs

abbrev pub items_of : List Value → Items
items_of [] = nil
items_of (v ∷ vs) = cons v (items_of vs)

abbrev pub values_of : Items → List Value
values_of nil = []
values_of (cons v vs) = v ∷ values_of vs
