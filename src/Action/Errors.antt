-- ===== src/Action/Errors.antt =====
-- The errors that the actions return, and the steps that return them.
use aws_ecommerce_k8s.Base.{Option, none, some, List, [], ◌∷◌, Bool, if◌then◌else◌}
use aws_ecommerce_k8s.Base.Bytes.{Bytes}
use aws_ecommerce_k8s.Driver.Errors.{Error, Result, ok, err, foreign, wrapped}
use aws_ecommerce_k8s.Storage.{Storage}
use aws_ecommerce_k8s.Action.Step.{Outcome, done, raised, Step, pure, fail, map_error}
use aws_ecommerce_k8s.Action.World.{World}
use aws_ecommerce_k8s.Action.Hooks.{HookError}

-- An error that comes from below or has a text of its own, the error of a hook, and what is returned
-- when the cleanup of created resources fails, or an uninstallation goes on after errors: of the wait,
-- of the hooks and of the purge, in this order.
pub data ActionError : Type 0 where
  plain : Error → ActionError
  hook : HookError → ActionError
  cleanup_failed : List Error → ActionError
  completed_with : List Error → List HookError → List Error → ActionError

-- `errors.New`
abbrev pub text : Bytes → ActionError
text message = plain (foreign message)

-- `fmt.Errorf` of a text and `%w`
abbrev pub in_context : Bytes → Error → ActionError
in_context context e = plain (wrapped context e)

module _ {K D : Type 0} where
  -- A result, or the error that it is.
  abbrev pub returned : {A : Type 0} → Result A → Step (World K D) ActionError A
  returned (ok a) = pure a
  returned (err e) = fail (plain e)

  abbrev pub raise : Option Error → Step (World K D) ActionError (Unit {0})
  raise none = pure tt
  raise (some e) = fail (plain e)

  -- A method of the storage that reads it.
  abbrev pub read : {A : Type 0} → (Storage D → Result A) → Step (World K D) ActionError A
  read f w = returned (f w.releases) w

  -- A method of the storage that changes it.
  abbrev stored_result :
      World K D → Option Error × Storage D → Outcome ActionError (Unit {0}) × World K D
  stored_result w (e, s) = raise e (record w { releases = s })

  abbrev pub write :
      (Storage D → Option Error × Storage D) → Step (World K D) ActionError (Unit {0})
  write f w = stored_result w (f w.releases)

  abbrev pub run_hooks_step :
      Step (World K D) HookError (Unit {0}) → Step (World K D) ActionError (Unit {0})
  run_hooks_step m w = map_error hook (m w)

  -- A step that is run under a condition.
  abbrev pub unless :
      Bool → Step (World K D) ActionError (Unit {0}) → Step (World K D) ActionError (Unit {0})
  unless b m = if b then pure tt else m

-- The error of a hook, kept for later.
abbrev pub caught :
    {W : Type 0} → Outcome HookError (Unit {0}) × W → Outcome ActionError (List HookError) × W
caught (done _, w) = (done [], w)
caught (raised e, w) = (done (e ∷ []), w)
