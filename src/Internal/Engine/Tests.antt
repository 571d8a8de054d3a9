-- ===== src/Internal/Engine/Tests.antt =====
-- The theorems on the wrappers of internal/ for an SDK whose objects are numbers.
use starlark_worker.Prelude.{ℕ, suc, ◌+◌, pos, true, none, some, [], ◌∷◌, ok}
use starlark_worker.Service.Lifecycle.{Attempt, returned}
use starlark_worker.Internal.Engine.{SdkTypes, Wrapped, Sdk}

abbrev types : SdkTypes
types = record {
  Ctx = ℕ;
  World = ℕ;
  Any = ℕ;
  Error = ℕ;
  Future = ℕ;
  ChildFuture = ℕ;
  BatchFuture = ℕ;
  Settable = ℕ;
  Selector = ℕ;
  Foreign = ℕ;
}

abbrev sdk : Sdk types
sdk = record {
  get = λ f c w. (ok f, w);
  is_ready = λ f w. true;
  batch_get = λ b c w. (ok (b ∷ []), w);
  batch_is_ready = λ b w. true;
  batch_futures = λ b. b ∷ suc b ∷ [];
  child_get = λ f c w. (ok f, w);
  child_is_ready = λ f w. true;
  child_execution = λ f. f;
  child_signal = λ f c n v w. (f, w);
  set = λ s v e w. w;
  set_value = λ s v w. w;
  set_error = λ s e w. w;
  chain = λ s f w. s + f;
  workflow_execution = λ c. record { id = []; run_id = [] };
  execute_activity = λ c a args w. (a, suc w);
  execute_child_workflow = λ c a args w. (a, suc w);
  with_value = λ c k v. c;
  new_disconnected_context = λ c w. ((c, 0), w);
  metrics_scope = λ c. 0;
  with_task_list = λ c n. c;
  with_workflow_domain = λ c n. c;
  with_workflow_task_list = λ c n. c;
  set_query_handler = λ c q h w. (none, w);
  new_future = λ c w. ((0, 0), w);
  new_batch_future = λ c n fs w. ((some 0, none), w);
  go = λ c f w. f c w;
  side_effect = λ c f w. f c w;
  now = λ c w. pos w;
  sleep = λ c d w. (none, w);
  new_selector = λ c w. (0, w);
  add_future = λ s f k w. (k f w).1;
  select = λ s c w. w;
}

abbrev no_callback : Wrapped types → ℕ → Attempt (Unit {0}) × ℕ
no_callback f w = (returned tt, suc w)
