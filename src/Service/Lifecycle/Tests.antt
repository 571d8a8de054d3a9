-- ===== src/Service/Lifecycle/Tests.antt =====
-- The theorems on runs at concrete values.
use starlark_worker.Prelude.{
  ℕ, ◌+◌, ◌≡◌, refl, ◌↔◌, Bool, false, ◌==◌, Option, none, some, List, [], ◌∷◌, Text, text, nat_eq,
  list_eq, list_beq, ok, lookup, insert,
}
use starlark_worker.Star.Files.{TarEvent, entry, add_file, clean, new_tar_fs, read}
use starlark_worker.Service.Lifecycle.{Meta, returned, Host, read_meta, hooks_done, run_end, run}
use starlark_worker.Service.Lifecycle.Runs.{run_result}
use starlark_worker.Service.Lifecycle.Canceled.{
  Method, implements, as_interface, is_canceled, run_end_custom,
}

-- A world counts the calls of hooks; errors are numbers, and the main function fails with 4.
abbrev host : Host ℕ ℕ ℕ ℕ ℕ
host = record {
  unmarshal = λ t. ok (record { main_file = text "main.star"; main_function = text "main" });
  star_error = λ e. 1;
  new_custom_error = λ c r d. 2;
  invalid_argument = λ c e. 3;
  panic_error = λ c p. 5;
  create_plugins = λ c w. (returned tt, w);
  set_query_handler = λ c q w. (none, w);
  call_main = λ c p f w. (returned (none, some 4), w);
  run_hooks = λ c canceled w. (returned none, w + 1);
  is_canceled_error = λ e. false;
  new_disconnected_context = λ c w. (c, w);
  join = λ es. 6;
  error_text = λ e. text "failed";
  as_eval_error = λ e. none;
  as_custom_error = λ e. none;
  code_unknown = text "unknown";
}

abbrev archive : List TarEvent
archive = entry (text "meta.json") (text "{}") ∷ []

abbrev archive_files : List (Text × Text)
archive_files = (text "/meta.json", text "{}") ∷ []

abbrev meta : Meta
meta = record { main_file = text "main.star"; main_function = text "main" }

archive_accepted : new_tar_fs archive ≡ ok archive_files
unfolding new_tar_fs add_file insert clean list_beq lookup
archive_accepted = refl

meta_read : read_meta host archive_files ≡ ok meta
unfolding read_meta read clean list_beq lookup
meta_read = refl

run_result_example :
    ((run host 0 archive [] [] 0).0.0 ≡ none)
    × ((run host 0 archive [] [] 0).1 ≡ 1)
    × (((run host 0 archive [] [] 0).0.1 ≡ none)
        ↔ (Path (Option ℕ) (some 4) none × Path (Option ℕ) none none))
run_result_example =
    run_result host 0 archive [] [] archive_files meta none (some 4) none 0 0 0 0 0 1
      archive_accepted meta_read refl refl refl refl refl

-- The links of an error are the error alone; 4 has all four methods.
abbrev has_all : ℕ → Method → Bool
has_all l m = l == 4

abbrev told_host : Host ℕ ℕ ℕ ℕ ℕ
told_host = record host {
  is_canceled_error = λ e. is_canceled has_all (e ∷ []);
  new_disconnected_context = λ c w. (c + 1, w);
}

run_end_custom_example :
    run_end told_host 0 none (some 4) 0 ≡ hooks_done told_host 1 none (some 4) (returned none, 1)
unfolding as_interface implements
run_end_custom_example =
    run_end_custom has_all told_host (λ e. e ∷ []) 0 none 4 4 0 (λ e. refl) refl
