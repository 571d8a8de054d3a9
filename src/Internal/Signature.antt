-- ===== src/Internal/Signature.antt =====
-- internal/utils.go: a workflow function with the context type of an engine. What the code uses of
-- package reflect is written out by its documentation: Call checks the arguments against the
-- parameters, a function of MakeFunc its results; assignability and the making of values are
-- parameters.
pub mod Calls
pub mod Tests
use starlark_worker.Prelude.{
  Bool, true, false, Option, none, some, List, [], ◌∷◌, Text, text, if◌then◌else◌, All,
}
use starlark_worker.Service.Lifecycle.{Attempt, returned, panicked}

-- reflect.Type and reflect.Value: AssignableTo, Elem, the assignment of a value to a variable of a
-- type, Convert, and the slice that Call makes of the last arguments.
pub record Reflect (T V : Type 0) : Type 0 where
  pub type_of : V → T
  pub assignable : T → T → Bool
  pub elem_type : T → T
  pub assign : V → T → V
  pub convert : V → T → Attempt V
  pub make_slice : T → List V → V

-- The type of a function; of a variadic one, the last parameter is a slice.
pub record Signature (T : Type 0) : Type 0 where
  pub ins : List T
  pub outs : List T
  pub variadic : Bool

pub record Function (T V World : Type 0) : Type 0 where
  pub signature : Signature T
  pub body : List V → World → Attempt (List V) × World

-- The value of an `interface{}`.
pub data Any (T V World : Type 0) : Type 0 where
  function : Function T V World → Any T V World
  no_function : V → Any T V World

-- GetRemainingInTypes
unfoldable pub get_remaining_in_types : {T : Type 0} → Signature T → List T
get_remaining_in_types s = elim s.ins [ [] ↦ [] | t ∷ ts ↦ ts ]

-- GetOutTypes
unfoldable pub get_out_types : {T : Type 0} → Signature T → List T
get_out_types s = s.outs

abbrev pub no_context : Text
no_context = text "workflow function must be a function and have at least one argument (context)"

abbrev pub cannot_use : Text
cannot_use = text "reflect: cannot use the arguments or results"

abbrev pub prepend : {V : Type 0} → V → Option (List V) → Option (List V)
prepend v none = none
prepend v (some vs) = some (v ∷ vs)

module _ {T V : Type 0} (reflect : Reflect T V) where
  open reflect use {type_of, assignable, elem_type, assign, make_slice}

  -- As many values as types, each assignable to its type.
  unfoldable pub assign_all : List T → List V → Option (List V)
  assign_all [] [] = some []
  assign_all [] (v ∷ vs) = none
  assign_all (t ∷ ts) [] = none
  assign_all (t ∷ ts) (v ∷ vs) =
      let rest = assign_all ts vs in
      if assignable (type_of v) t then prepend (assign v t) rest else none

  -- Values that are all assignable to one type.
  unfoldable pub assign_each : T → List V → Option (List V)
  assign_each t [] = some []
  assign_each t (v ∷ vs) =
      let rest = assign_each t vs in
      if assignable (type_of v) t then prepend (assign v t) rest else none

  abbrev as_slice : T → Option (List V) → Option (List V)
  as_slice s none = none
  as_slice s (some vs) = some (make_slice s vs ∷ [])

  -- The arguments of a variadic function: those of the last parameter become a slice.
  unfoldable pub assign_variadic : List T → List V → Option (List V)
  unfolding assign_each
  assign_variadic [] vs = none
  assign_variadic (s ∷ []) vs = as_slice s (assign_each (elem_type s) vs)
  assign_variadic (t ∷ u ∷ ts) [] = none
  assign_variadic (t ∷ u ∷ ts) (v ∷ vs) =
      let rest = assign_variadic (u ∷ ts) vs in
      if assignable (type_of v) t then prepend (assign v t) rest else none

module _ {T V World : Type 0} (reflect : Reflect T V) where
  open reflect use {convert}

  abbrev pub run_on :
      Option (List V)
      → (List V → World → Attempt (List V) × World)
      → World
      → Attempt (List V) × World
  run_on none body w = (panicked cannot_use, w)
  run_on (some vs) body w = body vs w

  -- Value.Call
  unfoldable pub call : Function T V World → List V → World → Attempt (List V) × World
  unfolding assign_all assign_variadic
  call f args w =
      if f.signature.variadic
      then run_on (assign_variadic reflect f.signature.ins args) f.body w
      else run_on (assign_all reflect f.signature.ins args) f.body w

  abbrev pub results : List T → Attempt (List V) × World → Attempt (List V) × World
  results outs (panicked p, w) = (panicked p, w)
  results outs (returned vs, w) = elim (assign_all reflect outs vs) [
    | none ↦ (panicked cannot_use, w)
    | some rs ↦ (returned rs, w)
  ]

  -- MakeFunc
  abbrev pub make_func :
      Signature T → (List V → World → Attempt (List V) × World) → Function T V World
  make_func s fn = record { signature = s; body = λ args w. results s.outs (fn args w) }

  abbrev with_first :
      Attempt V
      → List V
      → (List V → World → Attempt (List V) × World)
      → World
      → Attempt (List V) × World
  with_first (panicked p) rest run w = (panicked p, w)
  with_first (returned v) rest run w = run (v ∷ rest) w

  -- The body that UpdateWorkflowFunctionContextArgument gives to MakeFunc.
  unfoldable pub converted_call : Function T V World → T → List V → World → Attempt (List V) × World
  unfolding call
  converted_call f context_type [] w = (panicked (text "index out of range"), w)
  converted_call f context_type (v ∷ vs) w = with_first (convert v context_type) vs (call f) w

  -- UpdateWorkflowFunctionContextArgument
  unfoldable pub update_workflow_function_context_argument :
      Any T V World → T → Attempt (Function T V World)
  unfolding get_remaining_in_types get_out_types converted_call
  update_workflow_function_context_argument (no_function v) context_type = panicked no_context
  update_workflow_function_context_argument (function f) context_type = elim f.signature.ins [
    | [] ↦ panicked no_context
    | t ∷ ts ↦ returned (
        make_func
          (record {
            ins = context_type ∷ get_remaining_in_types f.signature;
            outs = get_out_types f.signature;
            variadic = false;
          })
          (converted_call f context_type))
  ]
