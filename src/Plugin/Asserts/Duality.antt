-- ===== src/Plugin/Asserts/Duality.antt =====
-- The assertions of plugin/test/module.go come in pairs.
use starlark_worker.Prelude.{
  ◌≡◌, ◌⊎◌, inl, inr, refl, Option, Result, ok, err, Bool-cases, Result-cases,
}
use starlark_worker.Plugin.Asserts.{
  Values, AssertError, incomparable, failed, code_of, compared, assert_true, assert_false,
  assert_equal, assert_not_equal,
}

-- One of two assertions passes, and the other fails with the reason.
abbrev pub Opposite :
    {E : Type 0} (reason : AssertError E) (a b : Result (AssertError E) (Unit {0})) → Type 0
Opposite reason a b = ((a ≡ ok tt) × (b ≡ err reason)) ⊎ ((a ≡ err reason) × (b ≡ ok tt))

module _ {V E : Type 0} (values : Values V E) where
  truths :
      (v : V) (message : Option V)
      → Opposite
          (failed (code_of values message))
          (assert_true values v message)
          (assert_false values v message)
  unfolding assert_true assert_false
  truths v message = elim (Bool-cases (values.truth v)) [
    | inl e ↦ inl (rw (e, assert_true) refl, rw (e, assert_false) refl)
    | inr e ↦ inr (rw (e, assert_true) refl, rw (e, assert_false) refl)
  ]

  equals :
      (expected actual : V) (message : Option V)
      → ((e : E) × (assert_equal values expected actual message ≡ err (incomparable e))
          × (assert_not_equal values expected actual message ≡ err (incomparable e)))
        ⊎ Opposite
            (failed (compared values message expected actual))
            (assert_equal values expected actual message)
            (assert_not_equal values expected actual message)
  unfolding assert_equal assert_not_equal
  equals expected actual message = elim (Result-cases (values.equal expected actual)) [
    | inl (e, f) ↦ inl (e, rw (f, assert_equal) refl, rw (f, assert_not_equal) refl)
    | inr (b, f) ↦ elim (Bool-cases b) [
      | inl t ↦ inr (inl (rw (f, t, assert_equal) refl, rw (f, t, assert_not_equal) refl))
      | inr t ↦ inr (inr (rw (f, t, assert_equal) refl, rw (f, t, assert_not_equal) refl))
    ]
  ]

  -- Of `true` and `false` of one value, one passes and the other fails with the message. Of `equal` and
  -- `not_equal` of the same two values, both give the error of the comparison, or one passes and the
  -- other fails with the message and both values.
  pub asserts-Opposite :
      (v expected actual : V) (message : Option V)
      → Opposite
          (failed (code_of values message))
          (assert_true values v message)
          (assert_false values v message)
        × (((e : E) × (assert_equal values expected actual message ≡ err (incomparable e))
              × (assert_not_equal values expected actual message ≡ err (incomparable e)))
            ⊎ Opposite
                (failed (compared values message expected actual))
                (assert_equal values expected actual message)
                (assert_not_equal values expected actual message))
  asserts-Opposite v expected actual message = (truths v message, equals expected actual message)
