-- ===== src/Internal/Engine/Made.antt =====
-- The futures that the wrappers of internal/internal_cadence.go give, and what the wrappers that take
-- a future, Chain, AddFuture and a batch's factories, do with them.
use starlark_worker.Prelude.{ℕ, ◌≡◌, refl, some, List, Text, text, get_elem?}
use starlark_worker.Service.Lifecycle.{Attempt, panicked}
use starlark_worker.Internal.Engine.{SdkTypes, Wrapped, Sdk, cast_factory}
use starlark_worker.Internal.Engine.Cadence.{
  cad_get_futures, cad_get_child_workflow_execution, cad_signal_child_workflow, cad_chain,
  cad_execute_activity, cad_execute_child_workflow, cad_new_future, cad_add_future,
}
use starlark_worker.Internal.Engine.Temporal.{
  temp_chain, temp_execute_child_workflow, temp_add_future,
}

module _ (t : SdkTypes) (sdk : Sdk t) where
  open t use {Ctx, World, Any, Error, Future, ChildFuture, BatchFuture, Settable, Selector}

  -- The futures that the methods give, but for those of child workflows.
  pub data Made : Wrapped t → Type 0 where
    activity :
        (ctx : Ctx) (a : Any) (args : List Any) (w : World)
        → Made (cad_execute_activity t sdk ctx a args w).0
    new : (ctx : Ctx) (w : World) → Made ((cad_new_future t sdk ctx w).0).0
    of_batch :
        (bf : BatchFuture) (i : ℕ) (f : Wrapped t)
        → get_elem? (cad_get_futures t sdk bf) i ≡ some f
        → Made f
    execution : (cf : ChildFuture) → Made (cad_get_child_workflow_execution t sdk cf)
    signal :
        (cf : ChildFuture) (ctx : Ctx) (name : Text) (v : Any) (w : World)
        → Made (cad_signal_child_workflow t sdk cf ctx name v w).0

  -- The future of a child workflow is refused by Chain, by AddFuture, and as what a factory of a
  -- batch returns: each of them panics, with Cadence and with Temporal.
  pub child_refused :
      (ctx : Ctx) (workflow : Any) (args : List Any) (s : Settable) (l : Selector)
      (callback : Wrapped t → World → Attempt (Unit {0}) × World) (w u : World)
      → let refused = text "interface conversion" in
        let cad = (cad_execute_child_workflow t sdk ctx workflow args w).0 in
        let temp = (temp_execute_child_workflow t sdk ctx workflow args w).0 in
        ((cad_chain t sdk s cad u ≡ (panicked refused, u))
          × (cad_add_future t sdk l cad callback u ≡ (panicked refused, u))
          × (cast_factory t (λ c. cad_execute_child_workflow t sdk c workflow args) ctx w
              ≡ (panicked refused, (cad_execute_child_workflow t sdk ctx workflow args w).1)))
        × ((temp_chain t sdk s temp u ≡ (panicked refused, u))
            × (temp_add_future t sdk l temp callback u ≡ (panicked refused, u)))
  unfolding cad_chain cad_add_future cad_execute_child_workflow temp_chain temp_add_future
      temp_execute_child_workflow
  child_refused ctx workflow args s l callback w u = ((refl, refl, refl), (refl, refl))
