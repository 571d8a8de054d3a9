-- ===== src/Service/Lifecycle.antt =====
-- service/service.go: a run of a service. It is modelled
-- from the context that has the backend, the options and the globals; logging and metrics are left
-- out.
pub mod Runs
pub mod Canceled
mod Tests
use starlark_worker.Prelude.{
  ℕ, zero, ◌*◌, ℤ, pos, Bool, true, false, Option, none, some, List, [], ◌∷◌, ◌++◌, Text, text,
  ◌==◌, nat_eq, list_eq, if◌then◌else◌, Result, ok, err,
}
use starlark_worker.Star.Errors.{Err, not_exist}
use starlark_worker.Star.Files.{TarEvent, new_tar_fs, read}
use starlark_worker.Internal.Types.{RetryPolicy, ActivityOptions, ChildWorkflowOptions}

pub record Meta : Type 0 where
  pub main_file : Text
  pub main_function : Text

-- What a call that may panic does.
pub data Attempt (A : Type 0) : Type 0 where
  returned : A → Attempt A
  panicked : Text → Attempt A

-- What processError finds of a custom error: its reason, and its details if it has some, an error text
-- standing for those that cannot be extracted.
pub record CustomParts (D : Type 0) : Type 0 where
  pub reason : Text
  pub details : Option (Result Text D)

-- The details map that processError makes.
pub record Details (D : Type 0) : Type 0 where
  pub error : Text
  pub backtrace : Option Text
  pub details : Option (Result Text D)

-- What a run calls: the engine, the interpreter, the plugins and the exit hooks. `World` is all of their
-- state; `call_main` is star.Call of the thread that CreateThread makes, `run_hooks` the exit hooks'
-- Run, told whether the run is canceled.
pub record Host (Ctx World V E D : Type 0) : Type 0 where
  pub unmarshal : Text → Result E Meta
  pub star_error : Err → E
  pub new_custom_error : Ctx → Text → Details D → E
  pub invalid_argument : Ctx → Err → E
  pub panic_error : Ctx → Text → E
  pub create_plugins : Ctx → World → Attempt (Unit {0}) × World
  pub set_query_handler : Ctx → Text → World → Option E × World
  pub call_main : Ctx → Text → Text → World → Attempt (Option V × Option E) × World
  pub run_hooks : Ctx → Bool → World → Attempt (Option E) × World
  pub is_canceled_error : E → Bool
  pub new_disconnected_context : Ctx → World → Ctx × World
  pub join : List E → E
  pub error_text : E → Text
  pub as_eval_error : E → Option Text
  pub as_custom_error : E → Option (CustomParts D)
  pub code_unknown : Text

module _ {Ctx World V E D : Type 0} (host : Host Ctx World V E D) where
  open host use {
    unmarshal, star_error, new_custom_error, invalid_argument, panic_error, create_plugins,
    set_query_handler, call_main, run_hooks, is_canceled_error, new_disconnected_context, join,
    error_text, as_eval_error, as_custom_error, code_unknown,
  }

  -- processError of an error that is not nil
  unfoldable pub process_error : Ctx → E → E
  process_error ctx e = elim (as_custom_error e) [
    | none ↦
        new_custom_error ctx code_unknown
          (record { error = error_text e; backtrace = as_eval_error e; details = none })
    | some c ↦
        new_custom_error ctx c.reason
          (record { error = error_text e; backtrace = as_eval_error e; details = c.details })
  ]

  -- The metadata of the archive, if it has some.
  unfoldable pub read_meta : List (Text × Text) → Result E Meta
  read_meta files = elim (read files (text "/meta.json")) [
    | err (not_exist p) ↦ ok (record { main_file = []; main_function = [] })
    | err e ↦ err (star_error e)
    | ok b ↦ unmarshal b
  ]

  abbrev pub default_to : Text → Text → Text
  default_to [] d = d
  default_to (c ∷ s) d = c ∷ s

  -- errors.Join of the errors that are not nil, if the hooks have one.
  abbrev pub join_errors : Option E → Option E → Option E
  join_errors a none = a
  join_errors none (some b) = some (join (b ∷ []))
  join_errors (some a) (some b) = some (join (a ∷ b ∷ []))

  abbrev pub processed : Ctx → Option E → Option E
  processed ctx none = none
  processed ctx (some e) = some (process_error ctx e)

  -- Whether the main call was canceled.
  abbrev pub canceled : Option E → Bool
  canceled none = false
  canceled (some e) = is_canceled_error e

  -- The context and the world behind the main call.
  abbrev pub after_main : Ctx → Option E → World → Ctx × World
  after_main ctx e w = if canceled e then new_disconnected_context ctx w else (ctx, w)

  abbrev pub hooks_done :
      Ctx → Option V → Option E → Attempt (Option E) × World → (Option V × Option E) × World
  hooks_done ctx res e (panicked p, w) = ((res, some (panic_error ctx p)), w)
  hooks_done ctx res e (returned h, w) = ((res, processed ctx (join_errors e h)), w)

  -- The end of Run, behind the main call: the hooks, and the error of the run.
  unfoldable pub run_end : Ctx → Option V → Option E → World → (Option V × Option E) × World
  unfolding process_error
  run_end ctx res e w =
      let after = after_main ctx e w in
      hooks_done after.0 res e (run_hooks ctx (canceled e) after.1)

  -- Behind each of the calls of `run_main`, with what it gave.
  abbrev pub main_done : Ctx → Attempt (Option V × Option E) × World → (Option V × Option E) × World
  main_done ctx (panicked p, w) = ((none, some (panic_error ctx p)), w)
  main_done ctx (returned r, w) = run_end ctx r.0 r.1 w

  abbrev pub progress_done : Ctx → Text → Text → Option E × World → (Option V × Option E) × World
  progress_done ctx path function (some e, w) = ((none, some e), w)
  progress_done ctx path function (none, w) = main_done ctx (call_main ctx path function w)

  abbrev pub logs_done : Ctx → Text → Text → Option E × World → (Option V × Option E) × World
  logs_done ctx path function (some e, w) = ((none, some e), w)
  logs_done ctx path function (none, w) =
      progress_done ctx path function (set_query_handler ctx (text "task_progress") w)

  abbrev pub plugins_done :
      Ctx → Text → Text → Attempt (Unit {0}) × World → (Option V × Option E) × World
  plugins_done ctx path function (panicked p, w) = ((none, some (panic_error ctx p)), w)
  plugins_done ctx path function (returned _, w) =
      logs_done ctx path function (set_query_handler ctx (text "logs") w)

  -- Run from the plugins on.
  unfoldable pub run_main : Ctx → Text → Text → World → (Option V × Option E) × World
  unfolding run_end
  run_main ctx path function w = plugins_done ctx path function (create_plugins ctx w)

  -- Run
  unfoldable pub run : Ctx → List TarEvent → Text → Text → World → (Option V × Option E) × World
  unfolding read_meta run_main
  run ctx tar path function w = elim (new_tar_fs tar) [
    | err e ↦ ((none, some (invalid_argument ctx e)), w)
    | ok files ↦ elim (read_meta files) [
      | err e ↦ ((none, some e), w)
      | ok meta ↦
          run_main ctx (default_to path meta.main_file) (default_to function meta.main_function) w
    ]
  ]
