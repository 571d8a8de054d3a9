-- ===== src/Star/Load/Dispatch.antt =====
-- Which of the module table, the interpreter and the data reader of star/star.go a path reaches.
use starlark_worker.Prelude.{
  ◌≡◌, refl, ◌↔◌, false, some, List, ◌∷◌, Text, ◌==◌, nat_eq, list_eq, if◌then◌else◌, Result, ok,
  lookup, arith,
}
use starlark_worker.Star.Errors.{Err}
use starlark_worker.Star.Values.{Value, Fields}
use starlark_worker.Star.Dataclass.Maps.{get_field-set_field}
use starlark_worker.Star.Load.{
  is_script, Loader, thread_load, CallableObject, callable_attr, set_callable_attr,
}

-- Two loaders that read the same files and decode alike load the same from a path that is no
-- script, whatever their interpreters do: modules and data files run no code.
pub thread_load_no_script :
    (l : Loader) (exec : Text → Text → Result Err Fields) (modules : List (Text × Fields))
    (path : Text)
    → is_script path ≡ false
    → thread_load l modules path ≡ thread_load (record l { exec = exec }) modules path
unfolding thread_load
thread_load_no_script l exec modules path h = rw h

-- A path with the plugin prefix is looked up in the module table and reads no file, and fails
-- exactly if the table does not have it.
pub thread_load_module :
    (l : Loader) (read : Text → Result Err Text) (modules : List (Text × Fields)) (name : Text)
    → (thread_load l modules (b'@' ∷ name)
        ≡ thread_load (record l { read = read }) modules (b'@' ∷ name))
      × ((m : Fields)
          → (thread_load l modules (b'@' ∷ name) ≡ ok m) ↔ (lookup name modules ≡ some m))
unfolding thread_load
thread_load_module l read modules name = (refl, λ m. (λ h. ground arith, λ h. ground arith))

-- What an attribute of a callable object reads as after an assignment.
pub callable_attr-set :
    (o : CallableObject) (k j : Text) (v : Value)
    → callable_attr (set_callable_attr o k v) j ≡ (if k == j then some v else callable_attr o j)
unfolding callable_attr set_callable_attr
callable_attr-set o k j v = get_field-set_field k j v o.attrs
