-- ===== src/Cmd/Service.antt =====
-- cmd/service/main.go: the command that starts a worker. The flags' parser, the connection to the engine and logging
-- are left out.
pub mod Ends
mod Tests
use starlark_worker.Prelude.{
  Option, none, some, List, [], Text, text, ◌==◌, nat_eq, list_eq, if◌then◌else◌,
}
use starlark_worker.Service.Lifecycle.{Attempt, returned, panicked}
use starlark_worker.Service.Builder.{
  Service, new_service_builder, set_plugins, set_client_task_list, build,
}

-- _Options, as far as main tells them apart.
pub record Options : Type 0 where
  pub backend : Text
  pub url : Text
  pub domain : Text
  pub task_list : Text
  pub client_task_list : Text

-- The worker of an engine: its making, the registration of a service with it, Start and Stop; `wait`
-- is the time up to a signal.
pub record Worker (P Conn World : Type 0) : Type 0 where
  pub new_cadence_worker : Text → Text → Text → World → Attempt Conn × World
  pub new_temporal_worker : Text → Text → Text → World → Attempt Conn × World
  pub register : Service P → Conn → World → Attempt (Unit {0}) × World
  pub start : Conn → World → Option Text × World
  pub wait : World → World
  pub stop : Conn → World → World

-- How the process ends.
pub data Exit : Type 0 where
  exited : Exit
  fatal : Text → Exit
  panic : Text → Exit

module _ {P Conn World : Type 0} (no_plugins registry : P) (codes : List Text)
    (worker : Worker P Conn World) where
  open worker use {new_cadence_worker, new_temporal_worker, register, start, wait, stop}

  -- deferFunc, which nothing sets
  abbrev pub defer_func : Option (World → World)
  defer_func = none

  -- The call of a function variable.
  abbrev pub call_func : Option (World → World) → World → Exit × World
  call_func none w = (panic (text "nil pointer dereference"), w)
  call_func (some f) w = (exited, f w)

  abbrev started : Conn → Option Text × World → Exit × World
  started c (some e, w) = (fatal e, w)
  started c (none, w) = call_func defer_func (stop c (wait w))

  abbrev registered : Conn → Attempt (Unit {0}) × World → Exit × World
  registered c (panicked p, w) = (panic p, w)
  registered c (returned _, w) = started c (start c w)

  abbrev built : Conn → Option (Service P) → World → Exit × World
  built c none w = (panic (text "unsupported backend"), w)
  built c (some s) w = registered c (register s c w)

  -- From the worker on, with the name of the backend.
  abbrev connected : Text → Options → Attempt Conn × World → Exit × World
  connected backend opt (panicked p, w) = (panic p, w)
  connected backend opt (returned c, w) =
      built c
        (build no_plugins codes (
          set_client_task_list no_plugins codes opt.client_task_list
            (set_plugins no_plugins codes registry (new_service_builder no_plugins codes backend))))
        w

  -- main, behind the flags
  unfoldable pub main : Options → World → Exit × World
  main opt w =
      if opt.backend == text "cadence"
      then connected (text "cadence") opt (new_cadence_worker opt.url opt.domain opt.task_list w)
      else if opt.backend == []
      then connected (text "cadence") opt (new_cadence_worker opt.url opt.domain opt.task_list w)
      else if opt.backend == text "temporal"
      then connected (text "temporal") opt (new_temporal_worker opt.url opt.domain opt.task_list w)
      else (fatal (text "not supported backend"), w)
