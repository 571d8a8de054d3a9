-- ===== src/Star/Dataclass.antt =====
-- star/dataclass.go, and the helpers of star/utils.go on string dictionaries.
pub mod Maps
pub mod Invariant
use starlark_worker.Prelude.{
  ℕ, zero, suc, ◌-◌, Bool, true, false, not, ◌&&◌, Option, none, some, List, [], ◌∷◌, Text, text,
  ◌==◌, nat_eq, list_eq, ltb, if◌then◌else◌, Result, ok, err, ◌>>=◌, length,
}
use starlark_worker.Star.Errors.{
  Err, attribute_not_found, invalid_state, no_positional_arguments, not_implemented,
}
use starlark_worker.Star.Values.{
  Value, null, boolean, string, dict, dataclass, Items, Fields, empty, field, get_field, set_field,
  keys,
}

-- DataclassType, codecAttr
abbrev pub dataclass_type : Text
dataclass_type = text "dataclass"

abbrev pub codec_attr : Text
codec_attr = text "__codec__"

-- dict.Items()
abbrev pub items : Fields → List (Text × Value)
items empty = []
items (field k v fs) = (k, v) ∷ items fs

-- The loop of KeywordsToStringDict and StringDictToDict: each pair is written to the map.
abbrev pub set_all : List (Text × Value) → Fields → Fields
set_all [] m = m
set_all ((k, v) ∷ rest) m = set_all rest (set_field k v m)

-- KeywordsToStringDict
unfoldable pub keywords_to_string_dict : List (Text × Value) → Fields
keywords_to_string_dict keywords = set_all keywords empty

-- StringDictToDict
unfoldable pub string_dict_to_dict : Fields → Fields
string_dict_to_dict a = set_all (items a) empty

abbrev pub found : Option Value → Bool
found none = false
found (some v) = true

-- NewDataclass
unfoldable pub new_dataclass : Fields → Fields
new_dataclass attrs =
    let copy = set_all (items attrs) empty in
    if found (get_field codec_attr copy)
    then copy
    else set_field codec_attr (string dataclass_type) copy

-- NewDataclassFromDict
unfoldable pub new_dataclass_from_dict : Fields → Fields
unfolding new_dataclass keywords_to_string_dict
new_dataclass_from_dict d = new_dataclass (keywords_to_string_dict (items d))

-- (*_Dataclass).Truth
unfoldable pub truth : Fields → Bool
truth attrs = ltb 0 (length (keys attrs))

-- (*_Dataclass).SetField
unfoldable pub set_attr : Text → Value → Fields → Result Err Fields
set_attr name v attrs =
    if found (get_field name attrs)
    then ok (set_field name v attrs)
    else err (attribute_not_found name)

-- MakeDataclass
unfoldable pub make_dataclass : List Value → List (Text × Value) → Result Err Value
unfolding new_dataclass keywords_to_string_dict
make_dataclass [] kwargs = ok (dataclass (new_dataclass (keywords_to_string_dict kwargs)))
make_dataclass (a ∷ args) kwargs = err no_positional_arguments

-- `equal_depth` is starlark.EqualDepth; a depth that would be negative is 0 here.
module _ (equal_depth : Value → Value → ℕ → Result Err Bool) where
  -- The loop of StringDictEqualDepth over the entries of `x`.
  equal_entries : Fields → Fields → ℕ → Result Err Bool
  equal_entries empty y depth = ok true
  equal_entries (field k xv rest) y depth =
      let others = equal_entries rest y depth in
      elim (get_field k y) [
        | none ↦ ok false
        | some yv ↦ do eq ← equal_depth xv yv (depth - 1); if eq then others else ok false
      ]

  -- StringDictEqualDepth
  unfoldable pub string_dict_equal_depth : Fields → Fields → ℕ → Result Err Bool
  unfolding equal_entries
  string_dict_equal_depth x y depth =
      if length (keys x) == length (keys y) then equal_entries x y depth else ok false

  pub data Token : Type 0 where
    eql neq lt le gt ge : Token

  -- (*_Dataclass).CompareSameType
  unfoldable pub compare_same_type : Token → Fields → Fields → ℕ → Result Err Bool
  unfolding string_dict_equal_depth
  compare_same_type eql x y depth = string_dict_equal_depth x y depth
  compare_same_type neq x y depth = do same ← string_dict_equal_depth x y depth; ok (not same)
  compare_same_type _ x y depth = err not_implemented

-- (*_Dataclass).MarshalJSON, `encode` being star.Encode.
unfoldable pub marshal_json : (Value → Result Err Text) → Fields → Result Err Text
unfolding string_dict_to_dict
marshal_json encode attrs =
    if found (get_field codec_attr attrs)
    then encode (dict (string_dict_to_dict attrs))
    else err invalid_state
