-- ===== src/Plugin/Asserts/Tests.antt =====
-- Runs of the assertions of plugin/test/module.go, at numbers.
use starlark_worker.Prelude.{ℕ, ◌≡◌, refl, none, some, [], ◌∷◌, Text, text, ◌==◌, nat_eq, ok, err}
use starlark_worker.Plugin.Asserts.{Values, failed, assert_true, assert_equal, assert_not_equal}

abbrev numbers : Values ℕ Text
numbers = record { truth = λ n. n == 1; show = λ n. n ∷ []; equal = λ m n. ok (m == n) }

false_fails : assert_true numbers 0 (some b'!') ≡ err (failed (text "assert: !"))
unfolding assert_true
false_fails = refl

same_passes : assert_equal numbers 4 4 none ≡ ok tt
unfolding assert_equal
same_passes = refl

same_fails :
    assert_not_equal numbers b'4' b'4' none
    ≡ err (failed (text "assert\nExpected : 4\nActual   : 4"))
unfolding assert_not_equal
same_fails = refl
