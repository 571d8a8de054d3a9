-- ===== src/Cmd/Temporal/Tests.antt =====
-- The theorems on the commands at the flags of a package file, once there and once missing.
use starlark_worker.Prelude.{
  ◌≡◌, refl, false, inr, some, [], Text, text, nat_eq, list_eq, list_beq, Result, ok, err, ◌==◌,
  if◌then◌else◌,
}
use mathlib.Core.Option
use starlark_worker.Star.Values.{nil, list}
use starlark_worker.Star.Codec.{Json}
use starlark_worker.Client.Package.{Disk}
use starlark_worker.Service.Lifecycle.{returned}
use starlark_worker.Cmd.Run.{Flags, library, Machine, logged, run_command}
use starlark_worker.Cmd.Temporal.{Stat, temp_make_start, temp_run_command}
use starlark_worker.Cmd.Temporal.Agree.{run_command_agree}

abbrev read : Text → Result Text Text
read p = if p == text "app.tar" then ok (text "TAR") else err (text "no such file")

abbrev disk : Disk Text
disk = record {
  abs = λ p. ok p;
  join = λ r p. p;
  rel = λ r p. ok p;
  read_file = read;
  source_program = λ p. ok [];
  out_of_root = λ r p. text "out-of-root";
}

abbrev machine : Machine Text
machine = record {
  disk = disk;
  stdin = ok (text "TAR");
  is_dir = λ p. ok false;
  write_tar = λ fs. ok (text "TAR");
}

abbrev stat : Stat Text
stat = record { stat_is_dir = λ p. ok false; read_so_far = λ p. [] }

-- A library to which every document is an empty list.
abbrev library_json : Json
library_json = record {
  encode_value = λ v. ok (text "[]");
  decode_value = λ t. ok (list nil);
  unmarshal_string = λ t. ok t;
}

abbrev flags_of : Text → Flags
flags_of package_path = record {
  package_path = package_path;
  file = text "main.star";
  function = text "main";
  args = text "[]";
  kwargs = text "[]";
  env = [];
}

run_command_agree_example :
    run_command library_json machine 1 (flags_of (text "app.tar"))
    ≡ Option.map
        (logged library_json machine)
        (temp_run_command library_json machine stat 1 (flags_of (text "app.tar")))
unfolding list_beq
run_command_agree_example =
    run_command_agree library_json machine stat 1 (flags_of (text "app.tar"))
      (inr (false, refl, refl, inr (text "TAR", refl)))

-- The two commands differ on a file that cannot be read: the one of Cadence ends with that error, the
-- one of Temporal goes on with the bytes that were read before it.
unreadable :
    (run_command library_json machine 1 (flags_of (text "gone.tar"))
      ≡ some (returned (err (library (text "no such file")))))
    × (temp_run_command library_json machine stat 1 (flags_of (text "gone.tar"))
        ≡ some (
            temp_make_start library_json machine stat
              (flags_of (text "gone.tar"))
              []
              (text "main.star")))
unfolding list_beq run_command temp_run_command
unreadable = (refl, refl)
