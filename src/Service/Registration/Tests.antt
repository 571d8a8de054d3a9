-- ===== src/Service/Registration/Tests.antt =====
-- The theorem on the registration of the service's workflow, for a worker that keeps one function for a name.
use starlark_worker.Prelude.{
  ℕ, ◌≡◌, refl, Option, none, some, [], ◌∷◌, Text, ◌==◌, nat_eq, list_eq, list_beq_refl,
  if◌then◌else◌,
}
use starlark_worker.Service.Lifecycle.{returned, panicked}
use starlark_worker.Internal.Signature.{Function, Any, update_workflow_function_context_argument}
use starlark_worker.Internal.Signature.Tests.{numbers, numbers-Documented, echo, echo_typed}
use starlark_worker.Internal.Engine.Workers.{
  CadRegisterOptions, Done, SdkWorker, cad_register_workflow, cad_register_activity,
}
use starlark_worker.Service.Registration.{
  Registry, service_workflow_func, register_plugins, register, cad_registry,
}
use starlark_worker.Service.Registration.Registered.{registered, registered_run, run_function}

-- The state of the worker: nothing, or the name under which it has the service's function.
abbrev State : Type 0
State = Option Text

abbrev keep_name : Function ℕ (ℕ × ℕ) State → CadRegisterOptions → State → Done State
keep_name f o none = (returned tt, some o.name)
keep_name f o (some n) = (panicked n, some n)

abbrev worker : SdkWorker ℕ (ℕ × ℕ) State (Unit {0}) ℕ CadRegisterOptions CadRegisterOptions
worker = record {
  context_type = 2;
  register_workflow_with_options = keep_name;
  register_activity = λ a w. (returned tt, w);
  register_activity_with_options = λ a o w. (returned tt, w);
  start = λ w. (none, w);
  run = λ i w. (none, w);
  stop = λ w. w;
}

abbrev service_function : Function ℕ (ℕ × ℕ) State
service_function = registered numbers numbers-Documented worker 1 (3 ∷ []) (3 ∷ 4 ∷ []) echo

abbrev found : State → Text → Option (Function ℕ (ℕ × ℕ) State)
found none n = none
found (some m) n = if m == n then some service_function else none

found-keep_name :
    (o : CadRegisterOptions) (w : State)
    → (keep_name service_function o w).0 ≡ returned tt
    → found (keep_name service_function o w).1 o.name ≡ some service_function
found-keep_name o none h = rw (list_beq_refl nat_eq o.name) refl
found-keep_name o (some n) h = cc

-- A plugin that registers one activity.
abbrev plugin : Registry (Any ℕ (ℕ × ℕ) State) (ℕ × ℕ) State → State → Done State
plugin r w = r.register_activity (9, 0) w

registered_run_example :
    (g : Function ℕ (ℕ × ℕ) State) × (found
        (register
          (run_function numbers numbers-Documented worker 1 (3 ∷ []) (3 ∷ 4 ∷ []) echo)
          (plugin ∷ [])
          (cad_registry numbers worker)
          none).1
        service_workflow_func
      ≡ some g)
    × (g.body ((2, 8) ∷ (3, 9) ∷ []) none ≡ echo ((1, 8) ∷ (3, 9) ∷ []) none)
unfolding register register_plugins cad_register_workflow cad_register_activity
    update_workflow_function_context_argument
registered_run_example =
    registered_run numbers numbers-Documented worker 1 (3 ∷ []) (3 ∷ 4 ∷ []) echo (plugin ∷ []) none
      none (2, 8) ((3, 9) ∷ []) found found-keep_name echo_typed refl (λ w h. h, tt) refl
      (refl, (refl, tt))
