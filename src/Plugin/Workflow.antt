-- ===== src/Plugin/Workflow.antt =====
-- plugin/workflow/module.go: the calls of activities and child workflows by a script, over the
-- functions of workflow/workflow.go. A Starlark value is one of `Value`; the backend's future decodes
-- its result, as bytes or as a value.
pub mod Options
pub mod Objects
mod Tests
use starlark_worker.Prelude.{
  ℕ, Bool, true, false, Option, none, some, List, [], ◌∷◌, map, Text, text, ◌==◌, nat_eq, list_eq,
  if◌then◌else◌, Result, ok, err,
}
use starlark_worker.Star.Values.{Value, string, boolean, bytes}
use starlark_worker.Service.Lifecycle.{Attempt, returned, panicked}

-- A keyword and its value; Starlark gives the keywords as pairs whose first is a string.
abbrev pub Keywords : Type 0
Keywords = List (Text × Value)

-- The error that NewCustomError makes: its reason, and the key that is not supported, if it names one.
pub data CallError (E : Type 0) : Type 0 where
  unimplemented : CallError E
  unsupported_key : Text → CallError E
  failed : E → CallError E

-- The functions of workflow/workflow.go that the module calls, with the context and the engine's
-- state `World`; `get_bytes` and `get_value` are the Get of a future. WithWorkflowDomain sets no search
-- attributes, so no engine panics at it.
pub record Calls (Ctx Future E World : Type 0) : Type 0 where
  pub with_task_list : Ctx → Text → Ctx
  pub with_workflow_domain : Ctx → Text → World → Ctx × World
  pub with_workflow_task_list : Ctx → Text → Ctx
  pub execute_activity : Ctx → Text → List Value → World → Future × World
  pub execute_child_workflow : Ctx → Text → List Value → World → Future × World
  pub get_bytes : Future → Ctx → World → Result E Text × World
  pub get_value : Future → Ctx → World → Result E Value × World

-- How a call ends: with a value or an error, or with a panic; and the state.
abbrev pub Ends : Type 0 → Type 0 → Type 0
Ends E World = Attempt (Result (CallError E) Value) × World

abbrev interface_conversion : Text
interface_conversion = text "interface conversion"

module _ {Ctx Future E World : Type 0} (calls : Calls Ctx Future E World) where
  open calls use {
    with_task_list, with_workflow_domain, with_workflow_task_list, execute_activity,
    execute_child_workflow, get_bytes, get_value,
  }

  abbrev got_bytes : Result E Text × World → Ends E World
  got_bytes (err e, w) = (returned (err (failed e)), w)
  got_bytes (ok b, w) = (returned (ok (bytes b)), w)

  abbrev got_value : Result E Value × World → Ends E World
  got_value (err e, w) = (returned (err (failed e)), w)
  got_value (ok v, w) = (returned (ok v), w)

  -- executeFuture
  unfoldable pub execute_future : Ctx → Bool → Future × World → Ends E World
  execute_future ctx true (f, w) = got_bytes (get_bytes f ctx w)
  execute_future ctx false (f, w) = got_value (get_value f ctx w)

  -- The type assertions of the keyword's value.
  abbrev on_string : Value → (Text → World → Ends E World) → World → Ends E World
  on_string (string s) rest w = rest s w
  on_string v rest w = (panicked interface_conversion, w)

  abbrev on_bool : Value → (Bool → World → Ends E World) → World → Ends E World
  on_bool (boolean b) rest w = rest b w
  on_bool v rest w = (panicked interface_conversion, w)

  -- The loop over the keywords, and the call behind it.
  unfoldable pub activity_keywords :
      Text → List Value → Ctx → Bool → Keywords → World → Ends E World
  unfolding execute_future
  activity_keywords id args ctx as_bytes [] w =
      execute_future ctx as_bytes (execute_activity ctx id args w)
  activity_keywords id args ctx as_bytes ((k, v) ∷ kwargs) w =
      let with_list =
        on_string v (λ s u. activity_keywords id args (with_task_list ctx s) as_bytes kwargs u) w in
      let with_bytes = on_bool v (λ b u. activity_keywords id args ctx b kwargs u) w in
      if k == text "task_list"
      then with_list
      else if k == text "as_bytes"
      then with_bytes
      else if k == text "headers"
      then (returned (err unimplemented), w)
      else (returned (err (unsupported_key k)), w)

  -- _executeActivity
  unfoldable pub execute_activity_call : Ctx → List Value → Keywords → World → Ends E World
  unfolding activity_keywords
  execute_activity_call ctx [] kwargs w = (panicked (text "index out of range"), w)
  execute_activity_call ctx (string id ∷ args) kwargs w =
      activity_keywords id args ctx false kwargs w
  execute_activity_call ctx (_ ∷ args) kwargs w = (panicked interface_conversion, w)

  unfoldable pub workflow_keywords :
      Text → List Value → Ctx → Bool → Keywords → World → Ends E World
  unfolding execute_future
  workflow_keywords id args ctx as_bytes [] w =
      execute_future ctx as_bytes (execute_child_workflow ctx id args w)
  workflow_keywords id args ctx as_bytes ((k, v) ∷ kwargs) w =
      let with_domain =
        on_string v
          (λ s u.
            let (c, t) = with_workflow_domain ctx s u in
            workflow_keywords id args c as_bytes kwargs t)
          w in
      let with_list =
        on_string v
          (λ s u. workflow_keywords id args (with_workflow_task_list ctx s) as_bytes kwargs u) w in
      let with_bytes = on_bool v (λ b u. workflow_keywords id args ctx b kwargs u) w in
      if k == text "domain"
      then with_domain
      else if k == text "task_list"
      then with_list
      else if k == text "as_bytes"
      then with_bytes
      else if k == text "headers"
      then (returned (err unimplemented), w)
      else (returned (err (unsupported_key k)), w)

  -- _executeWorkflow
  unfoldable pub execute_workflow_call : Ctx → List Value → Keywords → World → Ends E World
  unfolding workflow_keywords
  execute_workflow_call ctx [] kwargs w = (panicked (text "index out of range"), w)
  execute_workflow_call ctx (string id ∷ args) kwargs w =
      workflow_keywords id args ctx false kwargs w
  execute_workflow_call ctx (_ ∷ args) kwargs w = (panicked interface_conversion, w)
