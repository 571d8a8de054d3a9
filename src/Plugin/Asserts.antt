-- ===== src/Plugin/Asserts.antt =====
-- plugin/test/module.go: the assertions of test scripts, behind the unpacking of their arguments. A
-- failed assertion is the reason of a custom error; the Truth, the String and the equality of
-- Starlark's values are parameters.
pub mod Duality
mod Tests
use starlark_worker.Prelude.{
  Bool, true, false, Option, none, some, List, [], ◌∷◌, ◌++◌, Text, text, Result, ok, err, ◌>>=◌,
  if◌then◌else◌,
}

pub record Values (V E : Type 0) : Type 0 where
  pub truth : V → Bool
  pub show : V → Text
  pub equal : V → V → Result E Bool

-- An error of the comparison, or the custom error with its reason.
pub data AssertError (E : Type 0) : Type 0 where
  incomparable : E → AssertError E
  failed : Text → AssertError E

module _ {V E : Type 0} (values : Values V E) where
  open values use {truth, show, equal}

  -- `assert`, with the message if there is one.
  abbrev pub code_of : Option V → Text
  code_of none = text "assert"
  code_of (some message) = text "assert: " ++ show message

  -- _true
  unfoldable pub assert_true : V → Option V → Result (AssertError E) (Unit {0})
  assert_true v message = if truth v then ok tt else err (failed (code_of message))

  -- _false
  unfoldable pub assert_false : V → Option V → Result (AssertError E) (Unit {0})
  assert_false v message = if truth v then err (failed (code_of message)) else ok tt

  -- The reason with both values; 10 is the line feed.
  abbrev pub compared : Option V → V → V → Text
  compared message expected actual =
      code_of message
      ++ 10 ∷ text "Expected : "
      ++ show expected
      ++ 10 ∷ text "Actual   : "
      ++ show actual

  -- _equal
  unfoldable pub assert_equal : V → V → Option V → Result (AssertError E) (Unit {0})
  assert_equal expected actual message = elim (equal expected actual) [
    | err e ↦ err (incomparable e)
    | ok true ↦ ok tt
    | ok false ↦ err (failed (compared message expected actual))
  ]

  -- _notEqual
  unfoldable pub assert_not_equal : V → V → Option V → Result (AssertError E) (Unit {0})
  assert_not_equal expected actual message = elim (equal expected actual) [
    | err e ↦ err (incomparable e)
    | ok true ↦ err (failed (compared message expected actual))
    | ok false ↦ ok tt
  ]
