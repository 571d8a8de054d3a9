-- ===== src/Service/Lifecycle/Runs.antt =====
-- What a run of service/service.go returns.
use starlark_worker.Prelude.{
  ◌≡◌, refl, ◌↔◌, Option, none, some, List, Text, text, ◌==◌, nat_eq, list_eq, list_beq, ok,
  if◌then◌else◌, Bool-cases, inl, inr,
}
use starlark_worker.Star.Files.{TarEvent, new_tar_fs}
use starlark_worker.Service.Builder.{
  Service, Backend, build, set_client_task_list, set_plugins, new_service_builder, cadence,
  temporal, default_activity_options, default_child_workflow_options, new_service,
}
use starlark_worker.Service.Lifecycle.{
  Meta, returned, Host, read_meta, default_to, join_errors, processed, canceled, after_main,
  run_end, run_main, run,
}

-- The service with the default options, both with the task list.
abbrev pub default_service : {P : Type 0} → List Text → P → Text → Backend → Service P
default_service codes plugins task_list backend = record {
  plugins = plugins;
  activity_options = record (default_activity_options codes) { task_list = task_list };
  child_workflow_options = record default_child_workflow_options { task_list = task_list };
  workflow = backend;
}

-- NewService builds a service for the backends `cadence` and `temporal` and for no other; it has the
-- plugins, and the default options but for the task list, which both options get.
pub new_service_cases :
    {P : Type 0} (no_plugins plugins : P) (codes : List Text) (task_list backend : Text)
    → new_service no_plugins codes plugins task_list backend ≡ (
        if backend == text "cadence"
        then some (default_service codes plugins task_list cadence)
        else if backend == text "temporal"
        then some (default_service codes plugins task_list temporal)
        else none)
unfolding new_service build set_client_task_list set_plugins new_service_builder list_beq
new_service_cases no_plugins plugins codes task_list backend =
    elim (Bool-cases (backend == text "cadence")) [
      | inl a ↦ rw (a, new_service) refl
      | inr a ↦ elim (Bool-cases (backend == text "temporal")) [
        | inl b ↦ rw (a, b, new_service) refl
        | inr b ↦ rw (a, b, new_service) refl
      ]
    ]

module _ {Ctx World V E D : Type 0} (host : Host Ctx World V E D) where
  open host use {create_plugins, set_query_handler, call_main, run_hooks, new_disconnected_context}

  error_end :
      (ctx : Ctx) (e h : Option E)
      → (processed host ctx (join_errors host e h) ≡ none) ↔ ((e ≡ none) × (h ≡ none))
  error_end ctx none none = (λ q. (refl, refl), λ q. refl)
  error_end ctx none (some b) = (λ q. absurd cc, λ q. absurd cc)
  error_end ctx (some a) none = (λ q. absurd cc, λ q. absurd cc)
  error_end ctx (some a) (some b) = (λ q. absurd cc, λ q. absurd cc)

  run_end_result :
      (ctx : Ctx) (res : Option V) (e h : Option E) (w w1 : World)
      → run_hooks ctx (canceled host e) (after_main host ctx e w).1 ≡ (returned h, w1)
      → ((run_end host ctx res e w).0.0 ≡ res)
        × ((run_end host ctx res e w).1 ≡ w1)
        × (((run_end host ctx res e w).0.1 ≡ none) ↔ ((e ≡ none) × (h ≡ none)))
  unfolding run_end
  run_end_result ctx res e h w w1 q =
      rw (q, run_end) (refl, refl, error_end (after_main host ctx e w).0 e h)

  -- A run whose archive and metadata can be read, whose plugins and query handlers can be set up, and
  -- in which neither the main call nor the exit hooks panic: the exit hooks run behind the main call,
  -- whether that failed or not; the run returns the main call's value, and has no error exactly if
  -- neither the main call nor the hooks have one.
  pub run_result :
      (ctx : Ctx) (tar : List TarEvent) (path function : Text) (files : List (Text × Text))
      (meta : Meta) (res : Option V) (e h : Option E) (w w1 w2 w3 w4 w5 : World)
      → new_tar_fs tar ≡ ok files
      → read_meta host files ≡ ok meta
      → create_plugins ctx w ≡ (returned tt, w1)
      → set_query_handler ctx (text "logs") w1 ≡ (none, w2)
      → set_query_handler ctx (text "task_progress") w2 ≡ (none, w3)
      → call_main ctx
          (default_to host path meta.main_file)
          (default_to host function meta.main_function)
          w3
        ≡ (returned (res, e), w4)
      → run_hooks ctx (canceled host e) (after_main host ctx e w4).1 ≡ (returned h, w5)
      → ((run host ctx tar path function w).0.0 ≡ res)
        × ((run host ctx tar path function w).1 ≡ w5)
        × (((run host ctx tar path function w).0.1 ≡ none) ↔ ((e ≡ none) × (h ≡ none)))
  unfolding run run_main
  run_result ctx tar path function files meta res e h w w1 w2 w3 w4 w5 t r p l g m q =
      rw (run_end_of) (run_end_result ctx res e h w4 w5 q)
    where
      run_end_of : run host ctx tar path function w ≡ run_end host ctx res e w4
      run_end_of = rw (t, run, r) (rw (p, run_main) (rw l (rw g (rw m refl))))
