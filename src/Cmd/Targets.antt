-- ===== src/Cmd/Targets.antt =====
-- The dispatch and the command `package` of cmd/cadence_client_main/main.go; cmd/temporal_client_main/main.go has
-- the same.
use starlark_worker.Prelude.{
  ℕ, ◌||◌, Option, none, some, List, [], ◌∷◌, Text, text, ◌==◌, nat_eq, list_eq, if◌then◌else◌,
  Result, ok, err,
}
use starlark_worker.Client.Package.{package_files}
use starlark_worker.Cmd.Run.{Fatal, file_required, called, Machine}

-- What main does with the arguments of the process: it ends with a fatal error, prints its help, or
-- calls a target with the rest.
pub data Chosen : Type 0 where
  args_undefined target_undefined printed_help : Chosen
  unsupported_target : Text → Chosen
  package_target run_target : List Text → Chosen

unfoldable pub choose : List Text → Chosen
choose [] = args_undefined
choose (program ∷ []) = target_undefined
choose (program ∷ arg ∷ rest) =
    if arg == text "--help" || arg == text "-h"
    then printed_help
    else if arg == text "package"
    then package_target rest
    else if arg == text "run"
    then run_target rest
    else unsupported_target arg

module _ {E : Type 0} (machine : Machine E) where
  open machine use {disk, write_tar}

  abbrev written : Result E (List (Text × Text)) → Result (Fatal E) Text
  written (err e) = called (err e)
  written (ok files) = called (write_tar files)

  -- __package__ of the flags `root-dir` and `file`: what is written to standard output. The first
  -- argument is the fuel of Package.
  unfoldable pub package_command : ℕ → Text → Text → Option (Result (Fatal E) Text)
  unfolding package_files
  package_command n root_dir file =
      if file == []
      then some (err file_required)
      else (elim (package_files disk n root_dir file) [ none ↦ none | some r ↦ some (written r) ])
