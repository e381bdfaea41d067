-- ===== src/Action/Rollback.antt =====
-- rollback.go: a new revision with what an earlier revision held.
pub mod Prepare
pub mod Stored
pub mod Deployed
pub mod Run
pub mod DryRun
use aws_ecommerce_k8s.Base.{
  ℕ, Bool, true, false, not, Option, none, some, List, [], ◌∷◌, ◌++◌, if◌then◌else◌, is_some,
}
use aws_ecommerce_k8s.Base.Bytes.{Bytes, bytes, contains}
use aws_ecommerce_k8s.Base.Int.{ℤ, pos, negsuc, eq_int, lt_int, add_one, sub_one}
use aws_ecommerce_k8s.Base.Decimal.{itoa}
use aws_ecommerce_k8s.Release.Status.{
  status_superseded, status_failed, status_pending_rollback, status_deployed,
}
use aws_ecommerce_k8s.Release.Hook.{HookEvent, pre_rollback, post_rollback}
use aws_ecommerce_k8s.Release.Defs.{Release, set_status}
use aws_ecommerce_k8s.Driver.Errors.{Error, Result, ok, err, error_text, quote, wrapped}
use aws_ecommerce_k8s.Driver.Interface.{Driver}
use aws_ecommerce_k8s.Storage
use aws_ecommerce_k8s.Storage.{Storage}
use aws_ecommerce_k8s.Chart.Names.{validate_release_name}
use aws_ecommerce_k8s.Action.Step.{Step, ◌>>=◌, ◌>>◌, pure, fail, gets, modify, each}
use aws_ecommerce_k8s.Action.Kube.{KubeClient}
use aws_ecommerce_k8s.Action.World.{World, attempt, observe, record_this, record_release}
use aws_ecommerce_k8s.Action.Hooks.Exec.{exec_hook}
use aws_ecommerce_k8s.Action.Errors.{
  ActionError, plain, cleanup_failed, text, in_context, returned, raise, read, write,
  run_hooks_step, unless,
}

-- The fields of the struct, less the configuration.
pub record Rollback : Type 0 where
  pub version : ℤ
  pub timeout : ℕ
  pub wait_strategy : Bytes
  pub wait_for_jobs : Bool
  pub disable_hooks : Bool
  pub dry_run : Bool
  pub force : Bool
  pub cleanup_on_fail : Bool
  pub max_history : ℤ

-- The loop over the history.
unfoldable pub version_exists : ℤ → List Release → Bool
version_exists version [] = false
version_exists version (rel ∷ rels) =
    let rest = version_exists version rels in if eq_int version rel.version then true else rest

abbrev pub previous_version : ℤ → Release → ℤ
previous_version version current =
    if eq_int version (pos 0) then sub_one current.version else version

-- The new release: what `previous` held, as the revision after `current`.
unfoldable pub target_release : Bytes → Release → Release → ℤ → ℕ → Release
target_release name current previous version now = record {
  name = name;
  info = record {
    first_deployed = current.info.first_deployed;
    last_deployed = now;
    deleted = 0;
    description = bytes "Rollback to " ++ itoa version;
    status = status_pending_rollback;
    notes = previous.info.notes;
  };
  chart = previous.chart;
  config = previous.config;
  manifest = previous.manifest;
  hooks = previous.hooks;
  version = add_one current.version;
  namespace = current.namespace;
  labels = previous.labels;
}

-- `Info.Status = …` alone
abbrev pub with_status : Bytes → Release → Release
with_status status rls = record rls { info = record rls.info { status = status } }

-- The texts that `performRollback` puts in front of an error.
abbrev pub current_context : Bytes
current_context = bytes "unable to build kubernetes objects from current release manifest: "

abbrev pub new_context : Bytes
new_context = bytes "unable to build kubernetes objects from new release manifest: "

abbrev pub metadata_context : Bytes
metadata_context = bytes "unable to set metadata visitor from target release: "

module _ {K D : Type 0} where
  abbrev pub change : (Release → Release) → Step (World K D) ActionError (Unit {0})
  change f = modify (λ w. record w { rl = f w.rl })

  -- `joinErrors` of the errors of a cleanup
  unfoldable pub raise_cleanup : List Error → Step (World K D) ActionError (Unit {0})
  raise_cleanup [] = pure tt
  raise_cleanup (e ∷ es) = fail (cleanup_failed (e ∷ es))

module _ {K R P V D : Type 0} (kube : KubeClient K R P V) (drv : Driver D) (r : Rollback) where
  -- The current release and the new one.
  unfoldable pub prepare_rollback : Bytes → Step (World K D) ActionError (Release × Release)
  unfolding target_release version_exists itoa
  prepare_rollback name = do
    unless (not (is_some (validate_release_name name)))
        (fail (text (bytes "prepareRollback: Release name is invalid: " ++ name)))
    unless (not (lt_int r.version (pos 0))) (fail (text (bytes "invalid release revision")))
    current ← read (Storage.last drv name)
    history ← read (Storage.history drv name)
    unless (version_exists (previous_version r.version current) history) (
        fail (
          text (
            bytes "release has no "
            ++ (itoa (previous_version r.version current) ++ bytes " version"))))
    previous ← read (Storage.get drv name (previous_version r.version current))
    now ← gets (λ w. kube.now w.cluster)
    pure (current, target_release name current previous (previous_version r.version current) now)

  -- The resources that a failed update created are deleted where this is asked for.
  unfoldable pub clean_up_created : R → Step (World K D) ActionError (Unit {0})
  unfolding raise_cleanup
  clean_up_created created = do raise_cleanup (← observe (kube.delete created))

  unfoldable pub update_result :
      Release → R × Option Error → Step (World K D) ActionError (Unit {0})
  unfolding clean_up_created
  update_result current (created, none) = pure tt
  update_result current (created, some e) = do
    change (λ target.
        set_status target status_failed
          (bytes "Rollback " ++ (quote target.name ++ (bytes " failed: " ++ error_text e))))
    record_this drv (with_status status_superseded current)
    record_release drv
    unless (not r.cleanup_on_fail) (clean_up_created created)
    fail (plain e)

  unfoldable pub wait_result : Release → Option Error → Step (World K D) ActionError (Unit {0})
  wait_result current none = pure tt
  wait_result current (some e) = do
    change (λ target.
        set_status target status_failed
          (bytes "Release " ++ (quote target.name ++ (bytes " failed: " ++ error_text e))))
    record_this drv current
    record_release drv
    name ← gets (λ w. w.rl.name)
    fail (in_context (bytes "release " ++ (name ++ bytes " failed: ")) e)

  abbrev pub wait_for : V → R → K → Option Error × K
  wait_for waiter resources k =
      if r.wait_for_jobs
      then kube.wait_with_jobs waiter resources r.timeout k
      else kube.wait waiter resources r.timeout k

  -- The deployed revisions; that there are none is no error.
  unfoldable pub deployed_or_none :
      Result (List Release) → Step (World K D) ActionError (List Release)
  unfolding contains error_text
  deployed_or_none (ok rels) = pure rels
  deployed_or_none (err e) =
      if not (contains (error_text e) (bytes "has no deployed releases"))
      then fail (plain e)
      else pure []

  -- Supersedes all previous deployments.
  unfoldable pub supersede : List Release → Step (World K D) ActionError (Unit {0})
  unfolding each
  supersede deployed = each (λ rel. record_this drv (with_status status_superseded rel)) deployed

  abbrev pub hooks_at : HookEvent → Step (World K D) ActionError (Unit {0})
  hooks_at event =
      unless r.disable_hooks (run_hooks_step (exec_hook kube drv r.wait_strategy r.timeout event))

  unfoldable pub finish_rollback : Release → Step (World K D) ActionError (Unit {0})
  unfolding deployed_or_none supersede
  finish_rollback current = do
    deployed ← (λ w. deployed_or_none (Storage.deployed_all drv current.name w.releases) w)
    supersede deployed
    change (with_status status_deployed)

  unfoldable pub update_cluster : Release → Step (World K D) ActionError (Unit {0})
  unfolding update_result wait_result
  update_cluster current = do
    original ← attempt (in_context current_context) (kube.build current.manifest false)
    target ← gets (λ w. w.rl)
    resources ← attempt (in_context new_context) (kube.build target.manifest false)
    hooks_at pre_rollback
    resources ←
        attempt (in_context metadata_context)
          (kube.set_metadata target.name target.namespace true resources)
    update_result current (← observe (kube.update original resources r.force))
    waiter ← attempt (in_context metadata_context) (kube.get_waiter r.wait_strategy)
    wait_result current (← observe (wait_for waiter resources))
    hooks_at post_rollback

  -- `performRollback`; the new release is the one that is worked on.
  unfoldable pub perform_rollback : Release → Step (World K D) ActionError (Unit {0})
  unfolding update_cluster finish_rollback
  perform_rollback current =
      if r.dry_run then pure tt else do update_cluster current; finish_rollback current

  unfoldable pub run : Bytes → Step (World K D) ActionError (Unit {0})
  unfolding prepare_rollback perform_rollback
  run name = do
    raise (← observe kube.is_reachable)
    modify (λ w. record w { releases = record w.releases { max_history = r.max_history } })
    prepared ← prepare_rollback name
    change (λ rl. prepared.1)
    unless r.dry_run (λ w. write (Storage.create drv w.rl) w)
    perform_rollback prepared.0
    unless r.dry_run (λ w. write (Storage.update drv w.rl) w)
