-- ===== src/Cmd/Run.antt =====
-- cmd/cadence_client_main/main.go: the command `run`, from its flags to the arguments of the client's
-- Run. A fatal error ends the process. The flags' parser, the file system and the logs are left out.
pub mod Env
mod Tests
use starlark_worker.Prelude.{
  ℕ, Bool, true, false, Option, none, some, List, [], ◌∷◌, Text, text, ◌==◌, nat_eq, list_eq,
  if◌then◌else◌, Result, ok, err, ◌>>=◌,
}
use starlark_worker.Star.Errors.{Err}
use starlark_worker.Star.Values.{
  Value, string, list, tuple, Items, nil, cons, Fields, empty, set_field,
}
use starlark_worker.Star.Codec.{
  Json, Decoded, got_value, got_keywords, got_nil, got_raw, tuple_out, keywords_out, decode,
}
use starlark_worker.Client.Package.{Disk, package_files}
use starlark_worker.Service.Lifecycle.{Attempt, returned, panicked}

pub record Flags : Type 0 where
  pub package_path : Text
  pub file : Text
  pub function : Text
  pub args : Text
  pub kwargs : Text
  pub env : List Text

-- What log.Fatal is called with.
pub data Fatal (E : Type 0) : Type 0 where
  file_required : Fatal E
  library : E → Fatal E
  bad_env : Text → Fatal E
  not_decoded : Err → Fatal E

-- What the client's Run gets. A dict that was not made is `none`.
pub record Start : Type 0 where
  pub tar : Text
  pub main_file : Text
  pub main_function : Text
  pub arguments : Items
  pub keywords : List Items
  pub environ : Option Fields

-- The rest of the machine: standard input, whether a path is a directory (os.Open and Stat), and
-- ext.WriteTar to a buffer.
pub record Machine (E : Type 0) : Type 0 where
  pub disk : Disk E
  pub stdin : Result E Text
  pub is_dir : Text → Result E Bool
  pub write_tar : List (Text × Text) → Result E Text

-- StringSliceValue.Set
abbrev pub set_flag : Text → List Text → List Text
set_flag value [] = value ∷ []
set_flag value (v ∷ vs) = v ∷ set_flag value vs

-- strings.Cut at one byte.
abbrev pub cut : ℕ → Text → Option (Text × Text)
cut sep [] = none
cut sep (c ∷ s) =
    if c == sep
    then some ([], s)
    else (elim (cut sep s) [ none ↦ none | some p ↦ some (c ∷ p.0, p.1) ])

-- The loop over the environment.
unfoldable pub set_env : {E : Type 0} → List Text → Fields → Result (Fatal E) Fields
set_env [] env = ok env
set_env (kv ∷ kvs) env = elim (cut b'=' kv) [
  | none ↦ err (bad_env kv)
  | some (k, v) ↦ set_env kvs (set_field k (string v) env)
]

-- The dict of the environment, if there is one variable at least.
unfoldable pub parse_env : {E : Type 0} → List Text → Result (Fatal E) (Option Fields)
unfolding set_env
parse_env [] = ok none
parse_env (kv ∷ kvs) = do env ← set_env (kv ∷ kvs) empty; ok (some env)

abbrev pub as_tuple : Decoded → Items
as_tuple (got_value (tuple l)) = l
as_tuple _ = nil

abbrev pub as_keywords : Decoded → List Items
as_keywords (got_keywords ks) = ks
as_keywords _ = []

abbrev pub decoded : {E A : Type 0} → Result Err A → Result (Fatal E) A
decoded (err e) = err (not_decoded e)
decoded (ok a) = ok a

abbrev pub called : {E A : Type 0} → Result E A → Result (Fatal E) A
called (err e) = err (library e)
called (ok a) = ok a

-- The log of the keywords indexes each by 0 and 1.
abbrev pub are_pairs : List Items → Bool
are_pairs [] = true
are_pairs (cons k (cons v l) ∷ ks) = are_pairs ks
are_pairs (l ∷ ks) = false

module _ {E : Type 0} (json : Json) (machine : Machine E) where
  open machine use {disk, stdin, is_dir, write_tar}

  abbrev pub packed :
      Text → Text → Option (Result E (List (Text × Text))) → Option (Result (Fatal E) (Text × Text))
  packed dir file none = none
  packed dir file (some (err e)) = some (err (library e))
  packed dir file (some (ok files)) =
      some (called (write_tar files >>= λ tar. disk.rel dir file >>= λ name. ok (tar, name)))

  -- The package, and the name of the main file in it; the first argument is the fuel of Package.
  unfoldable pub read_package : ℕ → Text → Text → Option (Result (Fatal E) (Text × Text))
  unfolding package_files
  read_package n path file =
      let from_dir = packed path file (package_files disk n path file) in
      let from_file = some (called (disk.read_file path >>= λ tar. ok (tar, file))) in
      if path == text "-"
      then some (called (stdin >>= λ tar. ok (tar, file)))
      else (elim (is_dir path) [
        | err e ↦ some (err (library e))
        | ok dir ↦ if dir then from_dir else from_file
      ])

  -- From the package on.
  unfoldable pub make_start : Flags → Text → Text → Result (Fatal E) Start
  unfolding parse_env
  make_start flags tar file = do
    env ← parse_env flags.env
    args ← decoded (decode json flags.args tuple_out)
    kwargs ← decoded (decode json flags.kwargs keywords_out)
    ok (record {
      tar = tar;
      main_file = file;
      main_function = flags.function;
      arguments = as_tuple args;
      keywords = as_keywords kwargs;
      environ = env;
    })

  abbrev pub logged : Result (Fatal E) Start → Attempt (Result (Fatal E) Start)
  logged (err e) = returned (err e)
  logged (ok s) =
      if are_pairs s.keywords then returned (ok s) else panicked (text "index out of range")

  -- __run__, up to the call of Run; `none` if Package has not enough fuel.
  unfoldable pub run_command : ℕ → Flags → Option (Attempt (Result (Fatal E) Start))
  unfolding read_package make_start
  run_command n flags =
      if flags.file == []
      then some (returned (err file_required))
      else (elim (read_package n flags.package_path flags.file) [
        | none ↦ none
        | some (err e) ↦ some (returned (err e))
        | some (ok (tar, file)) ↦ some (logged (make_start flags tar file))
      ])
