-- ===== src/Internal/Engine.antt =====
-- The objects of internal/internal_cadence.go and internal/internal_temporal.go that wrap those of
-- an SDK: futures, settables, selectors, contexts and workers. The SDK is a parameter. A context is
-- one of the engine, so the assertions of its type hold.
pub mod Cadence
pub mod Temporal
pub mod Made
pub mod Workers
mod Tests
use starlark_worker.Prelude.{ℤ, Bool, Option, List, Text, text, Result}
use starlark_worker.Service.Lifecycle.{Attempt, returned, panicked}
use starlark_worker.Internal.Types.{WorkflowExecution}

-- The types of an SDK. `Any` is a value of any type, `Foreign` a future of another implementation,
-- `World` the state of the engine.
pub record SdkTypes : Type 1 where
  pub Ctx : Type 0
  pub World : Type 0
  pub Any : Type 0
  pub Error : Type 0
  pub Future : Type 0
  pub ChildFuture : Type 0
  pub BatchFuture : Type 0
  pub Settable : Type 0
  pub Selector : Type 0
  pub Foreign : Type 0

-- What a variable of the interface Future holds: the wrapper of a future, that of a child workflow's
-- future, or something else.
pub data Wrapped (t : SdkTypes) : Type 0 where
  plain : t.Future → Wrapped t
  child : t.ChildFuture → Wrapped t
  foreign : t.Foreign → Wrapped t

module _ (t : SdkTypes) where
  open t use {Ctx, World, Any, Error, Future, ChildFuture, BatchFuture, Settable, Selector, Foreign}

  -- The calls of an SDK. A factory of a batch and a callback may panic.
  pub record Sdk : Type 0 where
    pub get : Future → Ctx → World → Result Error Any × World
    pub is_ready : Future → World → Bool
    pub batch_get : BatchFuture → Ctx → World → Result Error (List Any) × World
    pub batch_is_ready : BatchFuture → World → Bool
    pub batch_futures : BatchFuture → List Future
    pub child_get : ChildFuture → Ctx → World → Result Error Any × World
    pub child_is_ready : ChildFuture → World → Bool
    pub child_execution : ChildFuture → Future
    pub child_signal : ChildFuture → Ctx → Text → Any → World → Future × World
    pub set : Settable → Any → Option Error → World → World
    pub set_value : Settable → Any → World → World
    pub set_error : Settable → Option Error → World → World
    pub chain : Settable → Future → World → World
    pub workflow_execution : Ctx → WorkflowExecution
    pub execute_activity : Ctx → Any → List Any → World → Future × World
    pub execute_child_workflow : Ctx → Any → List Any → World → ChildFuture × World
    pub with_value : Ctx → Any → Any → Ctx
    pub new_disconnected_context : Ctx → World → (Ctx × Any) × World
    pub metrics_scope : Ctx → Any
    pub with_task_list : Ctx → Text → Ctx
    pub with_workflow_domain : Ctx → Text → Ctx
    pub with_workflow_task_list : Ctx → Text → Ctx
    pub set_query_handler : Ctx → Text → Any → World → Option Error × World
    pub new_future : Ctx → World → (Future × Settable) × World
    pub new_batch_future :
        Ctx
        → ℤ
        → List (Ctx → World → Attempt Future × World)
        → World
        → (Option BatchFuture × Option Error) × World
    pub go : Ctx → (Ctx → World → World) → World → World
    pub side_effect : Ctx → (Ctx → World → Any × World) → World → Any × World
    pub now : Ctx → World → ℤ
    pub sleep : Ctx → ℤ → World → Option Error × World
    pub new_selector : Ctx → World → Selector × World
    pub add_future :
        Selector → Future → (Future → World → Attempt (Unit {0}) × World) → World → World
    pub select : Selector → Ctx → World → World

  -- The type assertion of a future, and what is done with the future within.
  abbrev pub on_plain :
      {R : Type 0} → Wrapped t → (Future → World → Attempt R × World) → World → Attempt R × World
  on_plain (plain f) run w = run f w
  on_plain (child c) run w = (panicked (text "interface conversion"), w)
  on_plain (foreign o) run w = (panicked (text "interface conversion"), w)

  -- The function that the code makes of a factory.
  abbrev pub cast_factory : (Ctx → World → Wrapped t × World) → Ctx → World → Attempt Future × World
  cast_factory factory ctx w = let (f, u) = factory ctx w in on_plain f (λ p v. (returned p, v)) u
