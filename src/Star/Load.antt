-- ===== src/Star/Load.antt =====
-- star/star.go: loading modules, scripts and data files, and calling a function of a script; also
-- the attribute lookup of star/utils.go and the callable objects of star/callable_object.go.
pub mod Dispatch
mod Tests
use starlark_worker.Prelude.{
  ℕ, zero, suc, Bool, true, false, ◌||◌, Option, none, some, List, [], ◌∷◌, ◌++◌, reverse, Text,
  text, ◌==◌, nat_eq, list_eq, has_prefix, if◌then◌else◌, Result, ok, err, ◌>>=◌, lookup, insert,
}
use starlark_worker.Star.Errors.{Err, module_not_found, function_not_found, unsupported_extension}
use starlark_worker.Star.Values.{Value, string, Items, Fields, empty, field, get_field, set_field}

-- strings.HasSuffix
abbrev pub has_suffix : Text → Text → Bool
has_suffix s t = has_prefix (reverse s) (reverse t)

-- filepath.Ext: the last dot behind the last slash, and what follows it.
abbrev pub ext_from : Text → Text → Text
ext_from found [] = found
ext_from found (c ∷ s) = ext_from (if c == b'.' then c ∷ s else if c == b'/' then [] else found) s

abbrev pub is_script : Text → Bool
is_script path = has_suffix path (text ".star") || has_suffix path (text ".py")

-- `read` is FS.Read, `exec` is starlark.ExecFileOptions with the thread and the predeclared names,
-- `decode` is star.Decode to a value.
pub record Loader : Type 0 where
  pub read : Text → Result Err Text
  pub exec : Text → Text → Result Err Fields
  pub decode : Text → Result Err Value

module _ (l : Loader) where
  -- loadDataFile
  unfoldable pub load_data_file : Text → Text → Result Err Fields
  load_data_file path content =
      let ext = ext_from [] path in
      if ext == text ".txt"
      then ok (field (text "txt") (string content) empty)
      else if ext == text ".json"
      then (do v ← l.decode content; ok (field (text "json") v empty))
      else err (unsupported_extension ext)

  -- The path without its first byte; a path that begins with the plugin prefix has one.
  abbrev behind_prefix : Text → Text
  behind_prefix [] = []
  behind_prefix (c ∷ s) = s

  -- The function that ThreadLoad returns.
  unfoldable pub thread_load : List (Text × Fields) → Text → Result Err Fields
  unfolding load_data_file
  thread_load modules path =
      if has_prefix path (text "@")
      then (elim (lookup (behind_prefix path) modules) [
        | none ↦ err (module_not_found path)
        | some mod_dict ↦ ok mod_dict
      ])
      else do src ← l.read path; if is_script path then l.exec path src else load_data_file path src

  -- Call; `call` is starlark.Call of the function.
  unfoldable pub call :
      (Value → Items → List (Text × Value) → Result Err Value)
      → List (Text × Fields)
      → Text
      → Text
      → Items
      → List (Text × Value)
      → Result Err Value
  unfolding thread_load
  call run modules path function args kwargs = do
    globals ← thread_load modules path
    elim (get_field function globals) [
      | none ↦ err (function_not_found function)
      | some fn ↦ run fn args kwargs
    ]

-- Attr: a builtin bound to its receiver, else a property, else nothing.
module _ {R B : Type 0} where
  unfoldable pub attr :
      (R → B → Value)
      → R
      → Text
      → List (Text × B)
      → List (Text × (R → Result Err Value))
      → Result Err (Option Value)
  attr bind receiver name builtins properties = elim (lookup name builtins) [
    | some b ↦ ok (some (bind receiver b))
    | none ↦ elim (lookup name properties) [
      | some p ↦ do v ← p receiver; ok (some v)
      | none ↦ ok none
    ]
  ]

-- The struct _CallableObject: the callable, by its identity, and its attributes.
pub record CallableObject : Type 0 where
  pub src : ℕ
  pub attrs : Fields

-- MakeCallableObject
unfoldable pub make_callable_object : ℕ → CallableObject
make_callable_object fn = record { src = fn; attrs = empty }

-- (*_CallableObject).Attr
unfoldable pub callable_attr : CallableObject → Text → Option Value
callable_attr o name = get_field name o.attrs

-- (*_CallableObject).SetField
unfoldable pub set_callable_attr : CallableObject → Text → Value → CallableObject
set_callable_attr o name v = record o { attrs = set_field name v o.attrs }
