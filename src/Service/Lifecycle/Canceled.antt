-- ===== src/Service/Lifecycle/Canceled.antt =====
-- How Run of service/service.go tells a canceled run: errors.As with the interface CanceledError of
-- internal/types.go. An error is the links that errors.As looks at, in its order; `has` tells which of
-- the methods the type of a link has.
use starlark_worker.Prelude.{
  ◌≡◌, refl, Bool, true, false, ◌&&◌, Option, none, some, List, [], ◌∷◌, if◌then◌else◌, arith, ◌∙◌,
}
use starlark_worker.Service.Lifecycle.{Host, hooks_done, run_end}

pub data Method : Type 0 where
  error reason has_details details : Method

-- The interfaces CustomError and CanceledError
abbrev pub custom_error : List Method
custom_error = error ∷ reason ∷ has_details ∷ details ∷ []

abbrev pub canceled_error : List Method
canceled_error = error ∷ has_details ∷ details ∷ []

-- A type that has all methods of an interface implements it.
unfoldable pub implements : (Method → Bool) → List Method → Bool
implements has [] = true
implements has (m ∷ ms) = has m && implements has ms

module _ {Link : Type 0} (has : Link → Method → Bool) where
  -- errors.As for an interface
  unfoldable pub as_interface : List Method → List Link → Option Link
  unfolding implements
  as_interface ms [] = none
  as_interface ms (l ∷ ls) =
      let rest = as_interface ms ls in if implements (has l) ms then some l else rest

  -- The test of Run
  abbrev pub is_some : Option Link → Bool
  is_some none = false
  is_some (some l) = true

  unfoldable pub is_canceled : List Link → Bool
  unfolding as_interface
  is_canceled ls = is_some (as_interface canceled_error ls)

  -- IsCanceledError of an engine: errors.As for the SDK's own type.
  unfoldable pub is_canceled_type : (Link → Bool) → List Link → Bool
  is_canceled_type own [] = false
  is_canceled_type own (l ∷ ls) = let rest = is_canceled_type own ls in if own l then true else rest

  implements_canceled :
      (h : Method → Bool) → implements h custom_error ≡ true → implements h canceled_error ≡ true
  unfolding implements
  implements_canceled h e = ground arith

  -- An error whose links include one that CustomError matches counts as canceled.
  custom_canceled :
      (ls : List Link) (l : Link) → as_interface custom_error ls ≡ some l → is_canceled ls ≡ true
  unfolding is_canceled as_interface
  custom_canceled [] l h = cc
  custom_canceled (k ∷ ls) l h = grind (arith, implements_canceled (has k), custom_canceled ls l)

  -- So does one that IsCanceledError of the engine tells, if the SDK's type has the three methods.
  pub canceled_type_canceled :
      (own : Link → Bool) (ls : List Link)
      → ((l : Link) → own l ≡ true → implements (has l) canceled_error ≡ true)
      → is_canceled_type own ls ≡ true
      → is_canceled ls ≡ true
  unfolding is_canceled as_interface is_canceled_type
  canceled_type_canceled own [] k h = cc
  canceled_type_canceled own (l ∷ ls) k h = grind (arith, k l, canceled_type_canceled own ls k)

  module _ {Ctx World V E D : Type 0} (host : Host Ctx World V E D) (links : E → List Link) where
    -- For a run whose host tells a canceled run by that test: if the error of the main call has a
    -- link that CustomError matches, the run goes on with a disconnected context, and the exit hooks
    -- are told that it is canceled.
    pub run_end_custom :
        (ctx : Ctx) (res : Option V) (e : E) (l : Link) (w : World)
        → ((f : E) → host.is_canceled_error f ≡ is_canceled (links f))
        → as_interface custom_error (links e) ≡ some l
        → run_end host ctx res (some e) w ≡ (
            let (c, u) = host.new_disconnected_context ctx w in
            hooks_done host c res (some e) (host.run_hooks ctx true u))
    unfolding run_end
    run_end_custom ctx res e l w test h =
        let told : host.is_canceled_error e ≡ true = test e ∙ custom_canceled (links e) l h in
        rw told refl
