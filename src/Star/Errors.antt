-- ===== src/Star/Errors.antt =====
-- The errors of package star/, by the place that makes them. `library` is an error of code outside
-- the repository, by its text.
use starlark_worker.Prelude.{Text}

pub data Err : Type 0 where
  library : Text → Err
  unsupported_type : Err
  unexpected_type : Err
  incompatible_data : Err
  illegal_output : Err
  decode_panic : Err
  corrupt_input : Err
  invalid_state : Err
  attribute_not_found : Text → Err
  no_positional_arguments : Err
  not_implemented : Err
  module_not_found : Text → Err
  function_not_found : Text → Err
  unsupported_extension : Text → Err
  file_collision : Text → Err
  not_exist : Text → Err
