-- ===== src/Cmd/Service/Tests.antt =====
-- Runs of the process of the worker at concrete options; the world counts the calls.
use starlark_worker.Prelude.{ℕ, suc, ◌≡◌, refl, none, [], text, list_beq}
use starlark_worker.Service.Lifecycle.{returned}
use starlark_worker.Service.Builder.{build, set_client_task_list, set_plugins, new_service_builder}
use starlark_worker.Cmd.Service.{Options, Worker, panic, main}

abbrev options : Options
options = record {
  backend = [];
  url = text "grpc://localhost:7833";
  domain = text "default";
  task_list = text "default";
  client_task_list = [];
}

abbrev counting : Worker ℕ ℕ ℕ
counting = record {
  new_cadence_worker = λ u d t w. (returned 7, suc w);
  new_temporal_worker = λ u d t w. (returned 8, suc w);
  register = λ s c w. (returned tt, suc w);
  start = λ c w. (none, suc w);
  wait = λ w. w;
  stop = λ c w. suc w;
}

-- The worker is made, takes the service, starts, and stops after a signal; then main panics.
stops : main 0 3 [] counting options 0 ≡ (panic (text "nil pointer dereference"), 4)
unfolding main list_beq build set_client_task_list set_plugins new_service_builder
stops = refl
