-- ===== src/Cmd/Temporal/Agree.antt =====
-- The command `run` of cmd/temporal_client_main/main.go beside that of cmd/cadence_client_main/main.go.
use starlark_worker.Prelude.{
  ℕ, ◌≡◌, refl, sym, ap, ◌∙◌, Bool, true, Option, none, some, [], Text, text, ◌==◌, nat_eq, list_eq,
  if◌then◌else◌, Bool-cases, Result, ok, err, ◌⊎◌, inl, inr,
}
use mathlib.Core.Option
use starlark_worker.Star.Codec.{Json}
use starlark_worker.Service.Lifecycle.{Attempt, returned}
use starlark_worker.Cmd.Run.{
  Flags, Fatal, Start, Machine, read_package, make_start, logged, run_command,
}
use starlark_worker.Cmd.Temporal.{Stat, temp_read_package, temp_make_start, temp_run_command}

module _ {E : Type 0} (json : Json) (machine : Machine E) (stat : Stat E) where
  open machine use {disk, is_dir}

  -- The package is standard input, or both commands can look at it in the same way, and it is a
  -- directory or a file that can be read.
  abbrev pub Readable : Text → Type 0
  Readable path =
      ((path == text "-") ≡ true)
      ⊎ ((dir : Bool) × (is_dir path ≡ ok dir)
          × (stat.stat_is_dir path ≡ ok dir)
          × ((dir ≡ true) ⊎ ((tar : Text) × (disk.read_file path ≡ ok tar))))

  read_package_agree :
      (n : ℕ) (path file : Text)
      → Readable path
      → temp_read_package json machine stat n path file ≡ read_package json machine n path file
  unfolding temp_read_package read_package
  read_package_agree n path file (inl e) = rw (temp_read_package, read_package, e) refl
  read_package_agree n path file (inr (dir, d, s, r)) = elim (Bool-cases (path == text "-")) [
    | inl e ↦ rw (temp_read_package, read_package, e) refl
    | inr e ↦ elim r [
      | inl y ↦ rw (temp_read_package, read_package, e, d, s, y) refl
      | inr (tar, q) ↦ rw (temp_read_package, read_package, e, d, s, q) (by_kind dir _ _)
    ]
  ]
    where
      by_kind : {A : Type 0} (b : Bool) (x y : A) → (if b then x else y) ≡ (if b then x else y)
      by_kind b x y = refl

  start_agree :
      (flags : Flags) (tar file : Text)
      → temp_make_start json machine stat flags tar file ≡ make_start json machine flags tar file
  unfolding temp_make_start make_start
  start_agree flags tar file = refl

  abbrev temporal_end :
      Flags → Option (Result (Fatal E) (Text × Text)) → Option (Attempt (Result (Fatal E) Start))
  temporal_end flags o = Option.map (logged json machine) (elim o [
    | none ↦ none
    | some (err e) ↦ some (err e)
    | some (ok (tar, file)) ↦ some (temp_make_start json machine stat flags tar file)
  ])

  ends :
      (flags : Flags) (o : Option (Result (Fatal E) (Text × Text)))
      → (elim o [
        | none ↦ none
        | some (err e) ↦ some (returned (err e))
        | some (ok (tar, file)) ↦
            some (logged json machine (make_start json machine flags tar file))
      ])
        ≡ temporal_end flags o
  unfolding temp_make_start make_start
  ends flags none = refl
  ends flags (some (err e)) = refl
  ends flags (some (ok (tar, file))) = refl

  -- For a package that is standard input, or that both commands can look at in the same way and that
  -- is a directory or a file that can be read: the Cadence command starts what the Temporal command
  -- starts, and ends with the fatal errors of that one, those of reading standard input included, but
  -- that it panics where a keyword to start with is no pair.
  pub run_command_agree :
      (n : ℕ) (flags : Flags)
      → Readable flags.package_path
      → run_command json machine n flags
        ≡ Option.map (logged json machine) (temp_run_command json machine stat n flags)
  unfolding run_command temp_run_command
  run_command_agree n flags r = elim (Bool-cases (flags.file == [])) [
    | inl f ↦ rw (run_command, temp_run_command, f) refl
    | inr f ↦
        rw (run_command, temp_run_command, f)
          (ends flags (read_package json machine n flags.package_path flags.file)
            ∙ ap (temporal_end flags) (sym (read_package_agree n flags.package_path flags.file r)))
  ]
