-- ===== src/Service/SetUp/Tests.antt =====
-- The start of a run for an engine whose contexts are lists of keys and values.
use starlark_worker.Prelude.{ℕ, ◌≡◌, refl, ◌⊎◌, inl, inr, some, List, [], ◌∷◌, Text, text, list_beq}
use starlark_worker.Workflow.{backend_context_key, with_backend, with_value, get_backend}
use starlark_worker.Workflow.{with_activity_options, with_child_options}
use starlark_worker.Workflow.Tests.{types, methods}
use starlark_worker.Service.Lifecycle.{returned}
use starlark_worker.Service.Builder.{default_activity_options, default_child_workflow_options}
use starlark_worker.Service.SetUp.{started, recovered, context_key_globals, set_up, get_globals}

-- The context of a run with the engine 3 and the globals 5, on a parent without values.
abbrev ready : List (Text × (ℕ ⊎ ℕ))
ready = (context_key_globals, inr 5) ∷ (backend_context_key, inl 3) ∷ []

starts :
    set_up types methods
      (some 3)
      (default_activity_options [])
      default_child_workflow_options
      5
      []
      0
    ≡ started (ready, 0)
unfolding set_up with_backend with_value with_activity_options with_child_options get_backend
    list_beq
starts = refl

has_globals : get_globals types methods ready ≡ returned 5
unfolding get_globals list_beq
has_globals = refl

-- The engine panics at the options of child workflows: the error is made in the context reached.
recovers :
    set_up types methods
      (some 3)
      (default_activity_options [])
      (record default_child_workflow_options { domain = text "d" })
      5
      []
      0
    ≡ recovered (((backend_context_key, inl 3) ∷ []), 0) (text "interface conversion")
unfolding set_up with_backend with_value with_activity_options with_child_options get_backend
    list_beq
recovers = refl
