-- ===== src/Workflow/Tests.antt =====
-- Runs of the model of workflow/workflow.go for an engine whose contexts are lists of keys and values.
use starlark_worker.Prelude.{
  ℕ, pos, ◌≡◌, refl, false, Option, none, some, List, [], ◌∷◌, Text, text, ◌==◌, nat_eq, list_eq,
  list_beq, if◌then◌else◌, ok, err, ◌⊎◌, inl, inr,
}
use starlark_worker.Workflow.{
  Types, Held, backend, other, Methods, backend_context_key, get_backend, with_backend, with_value,
}
use starlark_worker.Service.Lifecycle.{returned, panicked}
use starlark_worker.Activity.{empty_info}

-- A backend is the left, any other value the right.
abbrev pub types : Types
types = record {
  Ctx = List (Text × (ℕ ⊎ ℕ));
  World = ℕ;
  Backend = ℕ;
  Any = ℕ;
  Logger = ℕ;
  Future = ℕ;
  ChildFuture = ℕ;
  Settable = ℕ;
  BatchFuture = ℕ;
  Selector = ℕ;
  Info = ℕ;
  Error = ℕ;
}

abbrev held : (ℕ ⊎ ℕ) → Held types
held (inl b) = backend b
held (inr a) = other a

abbrev unheld : Held types → ℕ ⊎ ℕ
unheld (backend b) = inl b
unheld (other a) = inr a

abbrev find : List (Text × (ℕ ⊎ ℕ)) → Text → Option (Held types)
find [] j = none
find ((k, v) ∷ c) j = if k == j then some (held v) else find c j

abbrev pub methods : Methods types
methods = record {
  value = find;
  get_logger = λ b c. 0;
  get_activity_logger = λ b c. b;
  get_activity_info = λ b c. record empty_info { task_list = b ∷ [] };
  with_value = λ b c k v. (k, unheld v) ∷ c;
  new_disconnected_context = λ b c w. ((c, 0), w);
  get_metrics_scope = λ b c. 0;
  execute_activity = λ b c a args w. (0, w);
  with_task_list = λ b c n. c;
  get_info = λ b c. 0;
  with_activity_options = λ b c o. c;
  with_child_options =
      λ b c o w. (if o.domain == [] then returned c else panicked (text "interface conversion"), w);
  set_query_handler = λ b c q h w. (none, w);
  with_workflow_domain = λ b c n w. (returned c, w);
  with_workflow_task_list = λ b c n. c;
  execute_child_workflow = λ b c a args w. (0, w);
  new_custom_error = λ b r ds. 0;
  new_future = λ b c w. ((0, 0), w);
  new_batch_future = λ b c n fs w. ((0, none), w);
  go = λ b c f w. f c w;
  side_effect = λ b c f w. f c w;
  now = λ b c w. pos 7;
  sleep = λ b c d w. (none, w);
  is_canceled_error = λ b c e. false;
  with_retry_policy = λ b c p. c;
  new_selector = λ b c w. (0, w);
  time_now = λ w. pos 0;
  time_sleep = λ d w. w;
}

-- WithBackend sets the backend, which a value under another key leaves.
kept :
    (elim (with_backend types methods [] 3) [
      | err e ↦ none
      | ok c ↦ get_backend types methods (with_value types methods c (text "k") (other 5))
    ])
    ≡ some 3
unfolding with_backend get_backend with_value list_beq
kept = refl

-- A value under the key of the backend takes its place.
replaced :
    get_backend types methods
      (with_value types methods ((backend_context_key, inl 3) ∷ []) backend_context_key (other 5))
    ≡ none
unfolding get_backend with_value list_beq
replaced = refl
