-- ===== src/Plugin/Workflow/Objects.antt =====
-- plugin/workflow/future.go and plugin/workflow/batch_future.go: the objects that a script gets for a future
-- and for a batch, and the ids of the run that plugin/workflow/module.go gives. `Get` of a batch future gives all values, or the error.
use starlark_worker.Prelude.{Bool, List, map, Result, ok, err}
use starlark_worker.Star.Values.{Value, string, boolean, list, items_of}
use starlark_worker.Internal.Types.{WorkflowExecution}

-- Get of a future, and the methods of a batch future.
pub record Futures (Ctx Future Batch E World : Type 0) : Type 0 where
  pub get : Future → Ctx → World → Result E Value × World
  pub batch_get : Batch → Ctx → World → Result E (List Value) × World
  pub futures_of : Batch → List Future
  pub batch_ready : Batch → World → Bool

module _ {Ctx Future Batch E World : Type 0} (futures : Futures Ctx Future Batch E World) where
  -- (*Future).Result
  unfoldable pub future_result : Future → Ctx → World → Result E Value × World
  future_result f ctx w = futures.get f ctx w

  abbrev listed : Result E (List Value) × World → Result E Value × World
  listed (err e, w) = (err e, w)
  listed (ok vs, w) = (ok (list (items_of vs)), w)

  -- (*BatchFuture).Get
  unfoldable pub batch_future_get : Batch → Ctx → World → Result E Value × World
  batch_future_get bf ctx w = listed (futures.batch_get bf ctx w)

  -- (*BatchFuture).GetFutures: the futures that the tuple's objects hold
  unfoldable pub batch_get_futures : Batch → List Future
  batch_get_futures bf = map (λ f. f) (futures.futures_of bf)

  -- (*BatchFuture).IsReady
  unfoldable pub batch_is_ready : Batch → World → Value
  batch_is_ready bf w = boolean (futures.batch_ready bf w)

-- _executionID and _executionRunID
unfoldable pub execution_id : WorkflowExecution → Value
execution_id info = string info.id

unfoldable pub execution_run_id : WorkflowExecution → Value
execution_run_id info = string info.run_id
