-- ===== src/Workflow.antt =====
-- workflow/workflow.go: the functions that scripts' plugins call, over the engine that the context
-- carries. The methods of the interface internal.Workflow are parameters; `World` is the state of
-- the engine and of the operating system, which a call may change.
pub mod Tests
use starlark_worker.Prelude.{ℤ, Bool, false, Option, none, some, List, Text, text, Result, ok, err}
use starlark_worker.Internal.Types.{
  ActivityOptions, ActivityInfo, ChildWorkflowOptions, RetryPolicy,
}
use starlark_worker.Service.Lifecycle.{Attempt, returned}

-- The types of the interface. `Backend` is a value that implements it, `Any` a Go value that does
-- not.
pub record Types : Type 1 where
  pub Ctx : Type 0
  pub World : Type 0
  pub Backend : Type 0
  pub Any : Type 0
  pub Logger : Type 0
  pub Future : Type 0
  pub ChildFuture : Type 0
  pub Settable : Type 0
  pub BatchFuture : Type 0
  pub Selector : Type 0
  pub Info : Type 0
  pub Error : Type 0

-- What a context has under a key.
pub data Held (t : Types) : Type 0 where
  backend : t.Backend → Held t
  other : t.Any → Held t

module _ (t : Types) where
  open t use {
    Ctx, World, Backend, Any, Logger, Future, ChildFuture, Settable, BatchFuture, Selector, Info,
    Error,
  }

  -- ctx.Value, the methods of a backend, and the calls of package time. Those methods of an engine panic
  -- that set the options of child workflows: the search attributes may be no strings.
  pub record Methods : Type 0 where
    pub value : Ctx → Text → Option (Held t)
    pub get_logger : Backend → Ctx → Logger
    pub get_activity_logger : Backend → Ctx → Logger
    pub get_activity_info : Backend → Ctx → ActivityInfo
    pub with_value : Backend → Ctx → Text → Held t → Ctx
    pub new_disconnected_context : Backend → Ctx → World → (Ctx × Any) × World
    pub get_metrics_scope : Backend → Ctx → Any
    pub execute_activity : Backend → Ctx → Any → List Any → World → Future × World
    pub with_task_list : Backend → Ctx → Text → Ctx
    pub get_info : Backend → Ctx → Info
    pub with_activity_options : Backend → Ctx → ActivityOptions → Ctx
    pub with_child_options : Backend → Ctx → ChildWorkflowOptions → World → Attempt Ctx × World
    pub set_query_handler : Backend → Ctx → Text → Any → World → Option Error × World
    pub with_workflow_domain : Backend → Ctx → Text → World → Attempt Ctx × World
    pub with_workflow_task_list : Backend → Ctx → Text → Ctx
    pub execute_child_workflow : Backend → Ctx → Any → List Any → World → ChildFuture × World
    pub new_custom_error : Backend → Text → List Any → Error
    pub new_future : Backend → Ctx → World → (Future × Settable) × World
    pub new_batch_future :
        Backend
        → Ctx
        → ℤ
        → List (Ctx → World → Future × World)
        → World
        → (BatchFuture × Option Error) × World
    pub go : Backend → Ctx → (Ctx → World → World) → World → World
    pub side_effect : Backend → Ctx → (Ctx → World → Any × World) → World → Any × World
    pub now : Backend → Ctx → World → ℤ
    pub sleep : Backend → Ctx → ℤ → World → Option Error × World
    pub is_canceled_error : Backend → Ctx → Error → Bool
    pub with_retry_policy : Backend → Ctx → RetryPolicy → Ctx
    pub new_selector : Backend → Ctx → World → Selector × World
    pub time_now : World → ℤ
    pub time_sleep : ℤ → World → World

-- BackendContextKey
abbrev pub backend_context_key : Text
backend_context_key = text "BackendContextKey"

pub data Panic : Type 0 where
  failed_to_set_backend : Panic

module _ (t : Types) (m : Methods t) where
  open t use {
    Ctx, World, Backend, Any, Logger, Future, ChildFuture, Settable, BatchFuture, Selector, Info,
    Error,
  }

  -- The type assertion `.(Workflow)`
  abbrev pub backend_of : Option (Held t) → Option Backend
  backend_of (some (backend b)) = some b
  backend_of _ = none

  unfoldable pub get_backend : Ctx → Option Backend
  get_backend ctx = backend_of (m.value ctx backend_context_key)

  unfoldable pub with_backend : Ctx → Backend → Result Panic Ctx
  unfolding get_backend
  with_backend parent w =
      let c = m.with_value w parent backend_context_key (backend w) in
      elim (get_backend c) [ none ↦ err failed_to_set_backend | some b ↦ ok c ]

  -- `if backend, ok := GetBackend(ctx); ok { return ... }; return ...`
  abbrev pub on_backend : {R : Type 0} → Option Backend → (Backend → R) → R → R
  on_backend none call default = default
  on_backend (some b) call default = call b

  -- A nil result is `none`.
  unfoldable pub get_logger : Ctx → Option Logger
  unfolding get_backend
  get_logger ctx = on_backend (get_backend ctx) (λ b. some (m.get_logger b ctx)) none

  unfoldable pub with_value : Ctx → Text → Held t → Ctx
  unfolding get_backend
  with_value parent key val =
      on_backend (get_backend parent) (λ b. m.with_value b parent key val) parent

  -- A missing backend gives a nil context and a cancel function that does nothing.
  unfoldable pub new_disconnected_context : Ctx → World → Option (Ctx × Any) × World
  unfolding get_backend
  new_disconnected_context parent w =
      on_backend (get_backend parent)
        (λ b. let (r, v) = m.new_disconnected_context b parent w in (some r, v)) (none, w)

  unfoldable pub get_metrics_scope : Ctx → Option Any
  unfolding get_backend
  get_metrics_scope ctx = on_backend (get_backend ctx) (λ b. some (m.get_metrics_scope b ctx)) none

  unfoldable pub execute_activity : Ctx → Any → List Any → World → Option Future × World
  unfolding get_backend
  execute_activity ctx activity args w =
      on_backend (get_backend ctx)
        (λ b. let (f, v) = m.execute_activity b ctx activity args w in (some f, v)) (none, w)

  unfoldable pub with_task_list : Ctx → Text → Ctx
  unfolding get_backend
  with_task_list ctx name = on_backend (get_backend ctx) (λ b. m.with_task_list b ctx name) ctx

  unfoldable pub get_info : Ctx → Option Info
  unfolding get_backend
  get_info ctx = on_backend (get_backend ctx) (λ b. some (m.get_info b ctx)) none

  unfoldable pub with_activity_options : Ctx → ActivityOptions → Ctx
  unfolding get_backend
  with_activity_options ctx options =
      on_backend (get_backend ctx) (λ b. m.with_activity_options b ctx options) ctx

  unfoldable pub with_child_options : Ctx → ChildWorkflowOptions → World → Attempt Ctx × World
  unfolding get_backend
  with_child_options ctx cwo w =
      on_backend (get_backend ctx) (λ b. m.with_child_options b ctx cwo w) (returned ctx, w)

  unfoldable pub set_query_handler : Ctx → Text → Any → World → Option Error × World
  unfolding get_backend
  set_query_handler ctx query_type handler w =
      on_backend (get_backend ctx) (λ b. m.set_query_handler b ctx query_type handler w) (none, w)

  unfoldable pub with_workflow_domain : Ctx → Text → World → Attempt Ctx × World
  unfolding get_backend
  with_workflow_domain ctx name w =
      on_backend (get_backend ctx) (λ b. m.with_workflow_domain b ctx name w) (returned ctx, w)

  unfoldable pub with_workflow_task_list : Ctx → Text → Ctx
  unfolding get_backend
  with_workflow_task_list ctx name =
      on_backend (get_backend ctx) (λ b. m.with_workflow_task_list b ctx name) ctx

  unfoldable pub execute_child_workflow : Ctx → Any → List Any → World → Option ChildFuture × World
  unfolding get_backend
  execute_child_workflow ctx child args w =
      on_backend (get_backend ctx)
        (λ b. let (f, v) = m.execute_child_workflow b ctx child args w in (some f, v)) (none, w)

  unfoldable pub new_custom_error : Ctx → Text → List Any → Option Error
  unfolding get_backend
  new_custom_error ctx reason details =
      on_backend (get_backend ctx) (λ b. some (m.new_custom_error b reason details)) none

  unfoldable pub new_future : Ctx → World → Option (Future × Settable) × World
  unfolding get_backend
  new_future ctx w =
      on_backend (get_backend ctx) (λ b. let (r, v) = m.new_future b ctx w in (some r, v)) (none, w)

  unfoldable pub new_batch_future :
      Ctx
      → ℤ
      → List (Ctx → World → Future × World)
      → World
      → (Option BatchFuture × Option Error) × World
  unfolding get_backend
  new_batch_future ctx batch_size factories w =
      on_backend (get_backend ctx)
        (λ b. let ((f, e), v) = m.new_batch_future b ctx batch_size factories w in ((some f, e), v))
        ((none, none), w)

  unfoldable pub new_selector : Ctx → World → Option Selector × World
  unfolding get_backend
  new_selector ctx w =
      on_backend (get_backend ctx) (λ b. let (s, v) = m.new_selector b ctx w in (some s, v))
        (none, w)

  unfoldable pub go : Ctx → (Ctx → World → World) → World → World
  unfolding get_backend
  go ctx f w = on_backend (get_backend ctx) (λ b. m.go b ctx f w) w

  unfoldable pub side_effect : Ctx → (Ctx → World → Any × World) → World → Option Any × World
  unfolding get_backend
  side_effect ctx f w =
      on_backend (get_backend ctx) (λ b. let (a, v) = m.side_effect b ctx f w in (some a, v))
        (none, w)

  unfoldable pub now : Ctx → World → ℤ
  unfolding get_backend
  now ctx w = on_backend (get_backend ctx) (λ b. m.now b ctx w) (m.time_now w)

  unfoldable pub sleep : Ctx → ℤ → World → Option Error × World
  unfolding get_backend
  sleep ctx d w = on_backend (get_backend ctx) (λ b. m.sleep b ctx d w) (none, m.time_sleep d w)

  unfoldable pub is_canceled_error : Ctx → Error → Bool
  unfolding get_backend
  is_canceled_error ctx e = on_backend (get_backend ctx) (λ b. m.is_canceled_error b ctx e) false

  unfoldable pub with_retry_policy : Ctx → RetryPolicy → Ctx
  unfolding get_backend
  with_retry_policy ctx p = on_backend (get_backend ctx) (λ b. m.with_retry_policy b ctx p) ctx
