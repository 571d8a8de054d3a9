-- ===== src/Plugin/Workflow/Tests.antt =====
-- The theorems on plugin/workflow/module.go, at an engine that records what is executed.
use starlark_worker.Prelude.{ℕ, true, List, [], ◌∷◌, Text, text, nat_eq, list_eq, ok}
use starlark_worker.Star.Values.{string, boolean}
use starlark_worker.Plugin.Workflow.{Keywords, Calls}

-- A context is its task list, the world what was executed where; a future is its context.
abbrev recording : Calls Text Text ℕ (List (Text × Text))
recording = record {
  with_task_list = λ ctx s. s;
  with_workflow_domain = λ ctx s w. (ctx, w);
  with_workflow_task_list = λ ctx s. s;
  execute_activity = λ ctx id args w. (ctx, (ctx, id) ∷ w);
  execute_child_workflow = λ ctx id args w. (ctx, (ctx, id) ∷ w);
  get_bytes = λ f ctx w. (ok f, w);
  get_value = λ f ctx w. (ok (string f), w);
}

abbrev options : Keywords
options =
    (text "task_list", string (text "a"))
    ∷ (text "as_bytes", boolean true)
    ∷ (text "task_list", string (text "b"))
    ∷ []
