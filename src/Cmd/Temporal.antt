-- ===== src/Cmd/Temporal.antt =====
-- cmd/temporal_client_main/main.go: the command `run` up to the arguments of the client's Run, beside that of
-- Cmd/Run, whose flags, environment and machine it shares.
pub mod Agree
mod Tests
use starlark_worker.Prelude.{
  ℕ, Bool, true, false, Option, none, some, List, [], ◌∷◌, Text, text, ◌==◌, nat_eq, list_eq,
  if◌then◌else◌, Result, ok, err, ◌>>=◌,
}
use starlark_worker.Star.Codec.{Json, tuple_out, keywords_out, decode}
use starlark_worker.Client.Package.{package_files}
use starlark_worker.Cmd.Run.{
  Flags, Fatal, file_required, library, Start, Machine, parse_env, as_tuple, as_keywords, decoded,
  called, packed,
}

-- os.Stat and IsDir, and the bytes that os.ReadFile has read when it fails.
pub record Stat (E : Type 0) : Type 0 where
  pub stat_is_dir : Text → Result E Bool
  pub read_so_far : Text → Text

-- `err == nil && fi.IsDir()`
abbrev pub is_true : {E : Type 0} → Result E Bool → Bool
is_true (ok b) = b
is_true (err e) = false

-- The bytes of a file; the error is set in a variable of the condition's scope, and nobody reads it.
abbrev pub bytes_read : {E : Type 0} → Text → Result E Text → Text
bytes_read so_far (ok tar) = tar
bytes_read so_far (err e) = so_far

module _ {E : Type 0} (json : Json) (machine : Machine E) (stat : Stat E) where
  open machine use {disk, stdin}

  -- The package, and the name of the main file in it; the first argument is the fuel of Package.
  unfoldable pub temp_read_package : ℕ → Text → Text → Option (Result (Fatal E) (Text × Text))
  unfolding package_files
  temp_read_package n path file =
      let from_dir = packed json machine path file (package_files disk n path file) in
      let from_file = some (ok (bytes_read (stat.read_so_far path) (disk.read_file path), file)) in
      if path == text "-"
      then some (called (stdin >>= λ tar. ok (tar, file)))
      else if is_true (stat.stat_is_dir path)
      then from_dir
      else from_file

  -- From the package on.
  unfoldable pub temp_make_start : Flags → Text → Text → Result (Fatal E) Start
  unfolding parse_env
  temp_make_start flags tar file = do
    env ← parse_env flags.env
    args ← decoded (decode json flags.args tuple_out)
    kwargs ← decoded (decode json flags.kwargs keywords_out)
    ok (record {
      tar = tar;
      main_file = file;
      main_function = flags.function;
      arguments = as_tuple args;
      keywords = as_keywords kwargs;
      environ = env;
    })

  -- __run__, up to the call of Run; `none` if Package has not enough fuel.
  unfoldable pub temp_run_command : ℕ → Flags → Option (Result (Fatal E) Start)
  unfolding temp_read_package temp_make_start
  temp_run_command n flags =
      if flags.file == []
      then some (err file_required)
      else (elim (temp_read_package n flags.package_path flags.file) [
        | none ↦ none
        | some (err e) ↦ some (err e)
        | some (ok (tar, file)) ↦ some (temp_make_start flags tar file)
      ])
