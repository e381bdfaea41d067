-- ===== src/Action/World.antt =====
-- The configuration that the actions share (action.go), as the state that they change.
use aws_ecommerce_k8s.Release.Defs.{Release}
use aws_ecommerce_k8s.Driver.Errors.{Error, Result, ok, err}
use aws_ecommerce_k8s.Driver.Interface.{Driver}
use aws_ecommerce_k8s.Storage
use aws_ecommerce_k8s.Storage.{Storage}
use aws_ecommerce_k8s.Action.Step.{Outcome, done, raised, Step}

-- What the pointers of the Go code reach: the cluster, the storage of releases, and the release that
-- is worked on, whose hooks are changed in place. A hook is pointed at by its place in the release.
pub record World (K D : Type 0) : Type 0 where
  pub cluster : K
  pub releases : Storage D
  pub rl : Release

module _ {K D E : Type 0} where
  -- A call of the client that returns a value, with what the code wraps its error in.
  abbrev pub attempt_result :
      {A : Type 0} → (Error → E) → Result A × K → World K D → Outcome E A × World K D
  attempt_result wrap (ok a, k) w = (done a, record w { cluster = k })
  attempt_result wrap (err e, k) w = (raised (wrap e), record w { cluster = k })

  abbrev pub attempt : {A : Type 0} → (Error → E) → (K → Result A × K) → Step (World K D) E A
  attempt wrap call w = attempt_result wrap (call w.cluster) w

  -- A call of the client that returns something to be looked at.
  abbrev pub observe : {A : Type 0} → (K → A × K) → Step (World K D) E A
  observe call w = let (a, k) = call w.cluster in (done a, record w { cluster = k })

  -- `recordRelease` of a release: an error of the storage is only logged.
  abbrev pub record_this : Driver D → Release → Step (World K D) E (Unit {0})
  record_this drv rls w = (done tt, record w { releases = (Storage.update drv rls w.releases).1 })

  -- `recordRelease` of the release that is worked on.
  abbrev pub record_release : Driver D → Step (World K D) E (Unit {0})
  record_release drv w = record_this drv w.rl w
