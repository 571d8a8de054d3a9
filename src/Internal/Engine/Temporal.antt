-- ===== src/Internal/Engine/Temporal.antt =====
-- The wrappers of internal/internal_temporal.go.
use starlark_worker.Prelude.{ℤ, Bool, Option, List, Text, Result, map}
use starlark_worker.Service.Lifecycle.{Attempt, returned}
use starlark_worker.Internal.Engine.{SdkTypes, Wrapped, plain, child, Sdk, on_plain, cast_factory}

module _ (t : SdkTypes) (sdk : Sdk t) where
  open t use {Ctx, World, Any, Error, Future, ChildFuture, BatchFuture, Settable, Selector}

  -- Get of (*temporalFuture)
  unfoldable pub temp_get : Future → Ctx → World → Result Error Any × World
  temp_get f ctx w = sdk.get f ctx w

  unfoldable pub temp_is_ready : Future → World → Bool
  temp_is_ready f w = sdk.is_ready f w

  -- Get of (*temporalBatchFuture)
  unfoldable pub temp_batch_get : BatchFuture → Ctx → World → Result Error (List Any) × World
  temp_batch_get bf ctx w = sdk.batch_get bf ctx w

  unfoldable pub temp_batch_is_ready : BatchFuture → World → Bool
  temp_batch_is_ready bf w = sdk.batch_is_ready bf w

  -- GetFutures
  unfoldable pub temp_get_futures : BatchFuture → List (Wrapped t)
  temp_get_futures bf = map (λ f. plain f) (sdk.batch_futures bf)

  -- Get of (*temporalChildWorkflowFuture)
  unfoldable pub temp_child_get : ChildFuture → Ctx → World → Result Error Any × World
  temp_child_get cf ctx w = sdk.child_get cf ctx w

  unfoldable pub temp_child_is_ready : ChildFuture → World → Bool
  temp_child_is_ready cf w = sdk.child_is_ready cf w

  -- GetChildWorkflowExecution
  unfoldable pub temp_get_child_workflow_execution : ChildFuture → Wrapped t
  temp_get_child_workflow_execution cf = plain (sdk.child_execution cf)

  -- SignalChildWorkflow
  unfoldable pub temp_signal_child_workflow :
      ChildFuture → Ctx → Text → Any → World → Wrapped t × World
  temp_signal_child_workflow cf ctx name data_value w =
      let (f, u) = sdk.child_signal cf ctx name data_value w in (plain f, u)

  unfoldable pub temp_set : Settable → Any → Option Error → World → World
  temp_set s value e w = sdk.set s value e w

  unfoldable pub temp_set_value : Settable → Any → World → World
  temp_set_value s value w = sdk.set_value s value w

  unfoldable pub temp_set_error : Settable → Option Error → World → World
  temp_set_error s e w = sdk.set_error s e w

  -- Chain
  unfoldable pub temp_chain : Settable → Wrapped t → World → Attempt (Unit {0}) × World
  temp_chain s future w = on_plain t future (λ f u. (returned tt, sdk.chain s f u)) w

  -- ExecutionID and RunID of what GetInfo gives, which holds the context.
  unfoldable pub temp_execution_id : Ctx → Text
  temp_execution_id ctx = (sdk.workflow_execution ctx).id

  unfoldable pub temp_run_id : Ctx → Text
  temp_run_id ctx = (sdk.workflow_execution ctx).run_id

  unfoldable pub temp_execute_activity : Ctx → Any → List Any → World → Wrapped t × World
  temp_execute_activity ctx activity args w =
      let (f, u) = sdk.execute_activity ctx activity args w in (plain f, u)

  unfoldable pub temp_execute_child_workflow : Ctx → Any → List Any → World → Wrapped t × World
  temp_execute_child_workflow ctx workflow args w =
      let (f, u) = sdk.execute_child_workflow ctx workflow args w in (child f, u)

  unfoldable pub temp_with_value : Ctx → Any → Any → Ctx
  temp_with_value parent key val = sdk.with_value parent key val

  unfoldable pub temp_new_disconnected_context : Ctx → World → (Ctx × Any) × World
  temp_new_disconnected_context parent w = sdk.new_disconnected_context parent w

  unfoldable pub temp_get_metrics_scope : Ctx → Any
  temp_get_metrics_scope ctx = sdk.metrics_scope ctx

  unfoldable pub temp_with_task_list : Ctx → Text → Ctx
  temp_with_task_list ctx name = sdk.with_task_list ctx name

  -- WithWorkflowTaskList calls WithTaskQueue, as WithTaskList does.
  unfoldable pub temp_with_workflow_task_list : Ctx → Text → Ctx
  temp_with_workflow_task_list ctx name = sdk.with_task_list ctx name

  unfoldable pub temp_set_query_handler : Ctx → Text → Any → World → Option Error × World
  temp_set_query_handler ctx query_type handler w = sdk.set_query_handler ctx query_type handler w

  unfoldable pub temp_new_future : Ctx → World → (Wrapped t × Settable) × World
  temp_new_future ctx w = let ((f, s), u) = sdk.new_future ctx w in ((plain f, s), u)

  -- NewBatchFuture
  unfoldable pub temp_new_batch_future :
      Ctx
      → ℤ
      → List (Ctx → World → Wrapped t × World)
      → World
      → (Option BatchFuture × Option Error) × World
  temp_new_batch_future ctx batch_size factories w =
      sdk.new_batch_future ctx batch_size (map (cast_factory t) factories) w

  unfoldable pub temp_go : Ctx → (Ctx → World → World) → World → World
  temp_go ctx f w = sdk.go ctx (λ c u. f c u) w

  unfoldable pub temp_side_effect : Ctx → (Ctx → World → Any × World) → World → Any × World
  temp_side_effect ctx f w = sdk.side_effect ctx (λ c u. f c u) w

  unfoldable pub temp_now : Ctx → World → ℤ
  temp_now ctx w = sdk.now ctx w

  unfoldable pub temp_sleep : Ctx → ℤ → World → Option Error × World
  temp_sleep ctx d w = sdk.sleep ctx d w

  unfoldable pub temp_new_selector : Ctx → World → Selector × World
  temp_new_selector ctx w = sdk.new_selector ctx w

  -- AddFuture of the selector
  unfoldable pub temp_add_future :
      Selector
      → Wrapped t
      → (Wrapped t → World → Attempt (Unit {0}) × World)
      → World
      → Attempt Selector × World
  temp_add_future s future f w =
      on_plain t future (λ p u. (returned s, sdk.add_future s p (λ q v. f (plain q) v) u)) w

  unfoldable pub temp_select : Selector → Ctx → World → World
  temp_select s ctx w = sdk.select s ctx w
