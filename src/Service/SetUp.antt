-- ===== src/Service/SetUp.antt =====
-- The start of Run of service/service.go: the context that a run works with, over workflow/workflow.go. Logging
-- is left out.
mod Tests
use starlark_worker.Prelude.{false, Bool, Option, none, some, List, [], Text, text, err, ok}
use starlark_worker.Star.Values.{Fields, empty}
use starlark_worker.Internal.Types.{ActivityOptions, ChildWorkflowOptions}
use starlark_worker.Service.Lifecycle.{Attempt, returned, panicked}
use starlark_worker.Workflow.{
  Types, other, Methods, with_backend, with_value, with_activity_options, with_child_options,
}

-- The struct _Globals: the hooks are of type `H`, the registry of the plugins of type `P`.
pub record Globals (H P : Type 0) : Type 0 where
  pub exit_hooks : H
  pub is_canceled : Bool
  pub logs : List Text
  pub environ : Fields
  pub progress : List Text
  pub plugins : P

-- contextKeyGlobals
abbrev pub context_key_globals : Text
context_key_globals = text "globals"

-- The globals at the start; a missing environment is an empty dict.
unfoldable pub new_globals : {H P : Type 0} → H → P → Option Fields → Globals H P
new_globals no_hooks plugins environ = record {
  exit_hooks = no_hooks;
  is_canceled = false;
  logs = [];
  environ = elim environ [ none ↦ empty | some e ↦ e ];
  progress = [];
  plugins = plugins;
}

-- A run starts with a context; or WithChildOptions panics, from which Run recovers: it returns the
-- custom error that it makes of the panic in the context reached; or Run returns the error of a
-- service without an engine; or WithBackend panics, before Run can recover.
pub data Started (C : Type 0) : Type 0 where
  started : C → Started C
  recovered : C → Text → Started C
  not_initialized set_panic : Started C

module _ (t : Types) (m : Methods t) where
  open t use {Ctx, World, Backend, Any}

  -- What follows WithChildOptions, which got the context `before`.
  abbrev pub with_globals : Ctx → Any → Attempt Ctx × World → Started (Ctx × World)
  with_globals before globals (panicked p, w) = recovered (before, w) p
  with_globals before globals (returned c, w) =
      started (with_value t m c context_key_globals (other globals), w)

  -- The context of a run; `globals` is the pointer to its globals.
  unfoldable pub set_up :
      Option Backend
      → ActivityOptions
      → ChildWorkflowOptions
      → Any
      → Ctx
      → World
      → Started (Ctx × World)
  set_up none ao cwo globals parent w = not_initialized
  set_up (some b) ao cwo globals parent w = elim (with_backend t m parent b) [
    | err e ↦ set_panic
    | ok c ↦
        let optioned = with_activity_options t m c ao in
        with_globals optioned globals (with_child_options t m optioned cwo w)
  ]

  -- getGlobals; a context without them is a panic of the type assertion.
  unfoldable pub get_globals : Ctx → Attempt Any
  get_globals ctx = elim (m.value ctx context_key_globals) [
    | some (other g) ↦ returned g
    | _ ↦ panicked (text "interface conversion")
  ]
