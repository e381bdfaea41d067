-- ===== src/Action/Uninstall/Steps.antt =====
-- uninstall.go: what holds through the steps of an uninstallation, up to its history.
use mathlib.Core.Path.{subst}
use aws_ecommerce_k8s.Base.{
  ◌≡◌, refl, sym, Bool, true, false, List, [], ◌∷◌, none, some, Option, Bool-cases, inl, inr,
  modify_at,
}
use aws_ecommerce_k8s.Base.Bytes.{Bytes, bytes}
use aws_ecommerce_k8s.Release.Status.{status_uninstalled}
use aws_ecommerce_k8s.Release.Hook.{Hook, HookEvent, pre_delete, post_delete}
use aws_ecommerce_k8s.Release.Defs.{Release, set_status}
use aws_ecommerce_k8s.Release.Kinds.{Manifest, uninstall_order}
use aws_ecommerce_k8s.Release.Manifest.{split_manifests}
use aws_ecommerce_k8s.Release.ManifestSorter.{sort_manifests}
use aws_ecommerce_k8s.Driver.Errors.{Error, Result, Result-cases, wrapped}
use aws_ecommerce_k8s.Driver.Interface.{Driver}
use aws_ecommerce_k8s.Storage
use aws_ecommerce_k8s.Action.Step.{
  Outcome, done, raised, ◌>>◌, follow, map_error, gets, Holds, Holds->>=, Ends, Ends-follow,
  Ends-held,
}
use aws_ecommerce_k8s.Action.Kube.{KubeClient}
use aws_ecommerce_k8s.Action.World.{World, attempt, observe, record_release}
use aws_ecommerce_k8s.Action.Hooks.{HookError}
use aws_ecommerce_k8s.Action.Hooks.Exec.{exec_hook}
use aws_ecommerce_k8s.Action.Hooks.Invariant.{exec_hook-Holds}
use aws_ecommerce_k8s.Action.Errors.{caught, unless, run_hooks_step}
use aws_ecommerce_k8s.Action.Rollback.Stored.{IsSameRevision}
use aws_ecommerce_k8s.Action.Uninstall.{
  Uninstall, Response, uninstall_release, delete_release, delete_manifests, finish_history,
  completed, change, hooks_at, post_delete_hooks, raise_all, manifest_stream, delete_built,
  delete_sorted, filter_manifests_to_keep, uninstalling, uninstalled, as_errors, kept_info,
}

caught-state : {W : Type 0} (r : Outcome HookError (Unit {0}) × W) → (caught r).1 ≡ r.1
caught-state (done _, w) = refl
caught-state (raised e, w) = refl

map_error-state :
    {E E' A W : Type 0} (wrap : E → E') (r : Outcome E A × W) → (map_error wrap r).1 ≡ r.1
unfolding map_error
map_error-state wrap (done a, w) = refl
map_error-state wrap (raised e, w) = refl

-- What neither the cluster, nor a change of the release, nor its recording breaks.
pub record IsKept {K D : Type 0} (drv : Driver D) (Inv : World K D → Type 0) : Type 0 where
  pub cluster : (w : World K D) (k : K) → Inv w → Inv (record w { cluster = k })
  pub changed :
      (f : Release → Release)
      → IsSameRevision f
      → (w : World K D) → Inv w
      → Inv (record w { rl = f w.rl })
  pub recorded :
      (w : World K D) → Inv w → Inv (record w { releases = (Storage.update drv w.rl w.releases).1 })

module _ {K D R P V : Type 0} (drv : Driver D) (Inv : World K D → Type 0) (kept : IsKept drv Inv)
    (kube : KubeClient K R P V) (u : Uninstall) where
  exec_hook-kept :
      (event : HookEvent) → Holds Inv (exec_hook kube drv u.wait_strategy u.timeout event)
  exec_hook-kept event =
      exec_hook-Holds Inv kept.cluster kube u.wait_strategy u.timeout drv kept.recorded event
        (λ i f change w h.
          kept.changed (λ rl. record rl { hooks = modify_at i f rl.hooks })
            (λ rl. (refl, refl, refl, refl)) w h)

  run_hooks-Holds :
      (off : Bool) (event : HookEvent)
      → Holds Inv (unless off (run_hooks_step (exec_hook kube drv u.wait_strategy u.timeout event)))
  run_hooks-Holds true event w h = h
  run_hooks-Holds false event w h = subst Inv (sym (map_error-state _ _)) (exec_hook-kept event w h)

  post_delete_hooks-Holds : Holds Inv (post_delete_hooks kube drv u)
  post_delete_hooks-Holds w h = elim (Bool-cases u.disable_hooks) [
    | inl off ↦ rw (off, post_delete_hooks) h
    | inr on ↦
        rw (on, post_delete_hooks)
          (subst Inv (sym (caught-state _)) (exec_hook-kept post_delete w h))
  ]

  attempt-Holds :
      {E A : Type 0} (wrap : Error → E) (call : K → Result A × K) → Holds Inv (attempt wrap call)
  attempt-Holds wrap call w h = elim (Result-cases (call w.cluster).0) [
    | inl (a, e) ↦ rw (e, attempt) (kept.cluster w (call w.cluster).1 h)
    | inr (x, e) ↦ rw (e, attempt) (kept.cluster w (call w.cluster).1 h)
  ]

  raise_all-Holds : (es : List Error) → Holds Inv (raise_all kube drv u es)
  raise_all-Holds [] w h = h
  raise_all-Holds (e ∷ es) w h = h

  delete_manifests-Holds :
      (split : List Manifest × List Manifest) → Holds Inv (delete_manifests kube drv u split)
  unfolding delete_manifests
  delete_manifests-Holds (keep, remaining) =
      Holds->>= Inv _ _
        (attempt-Holds
          (λ e. wrapped (bytes "unable to build kubernetes objects for delete: ") e ∷ [])
          (kube.build (manifest_stream remaining) false))
        (λ resources.
          Holds->>= Inv (observe (delete_built kube drv u resources)) _ (λ w h. kept.cluster w _ h)
            (λ es. Holds->>= Inv _ _ (raise_all-Holds es) (λ _ w h. h)))

  delete_sorted-Holds :
      (sorted : (List Hook × List Manifest) × Option Error)
      → Holds Inv (delete_sorted kube drv u sorted)
  unfolding delete_sorted
  delete_sorted-Holds (sorted, some e) = λ w h. h
  delete_sorted-Holds (sorted, none) = delete_manifests-Holds (filter_manifests_to_keep sorted.1)

  delete_release-Holds : (rel : Release) → Holds Inv (delete_release kube drv u rel)
  unfolding delete_release
  delete_release-Holds rel =
      delete_sorted-Holds
        (sort_manifests kube.parse_head (split_manifests rel.manifest) uninstall_order)

  -- What the end of an uninstallation makes of a world where this holds.
  abbrev pub Finishes : (Response → World K D → Type 0) → List Release → Type 0
  Finishes Post rels =
      (info : Bytes) (waits : List Error) (hooks : List HookError) (w : World K D)
      → Inv w
      → w.rl.info.status ≡ status_uninstalled
      → Ends Post (
          follow (finish_history kube drv u rels w) (λ purges.
            completed kube drv u waits hooks purges
            >> gets (λ w. record { release = w.rl; info = info })))

  pub uninstall_release-Ends :
      (Post : Response → World K D → Type 0) (rels : List Release)
      → Finishes Post rels
      → (waiter : V) (asked : Bytes) (w : World K D) → Inv w
      → Ends Post (uninstall_release kube drv u rels waiter asked w)
  unfolding uninstall_release set_status
  uninstall_release-Ends Post rels finish waiter asked w h =
      Ends-held Inv Post (gets (λ w. kube.now w.cluster)) _ (λ w h. h)
        (λ now.
          Ends-held Inv Post (change kube drv u (uninstalling now)) _
            (kept.changed (uninstalling now) (λ rl. (refl, refl, refl, refl)))
            (λ _.
              Ends-held Inv Post (hooks_at kube drv u pre_delete) _
                (run_hooks-Holds u.disable_hooks pre_delete)
                (λ _. Ends-held Inv Post (record_release drv) _ kept.recorded (λ _.
                  Ends-held Inv Post (λ w. map_error _ (delete_release kube drv u w.rl w)) _
                    (λ w h. subst Inv (sym (map_error-state _ _)) (delete_release-Holds w.rl w h))
                    (λ deleted.
                      Ends-held Inv Post (observe (kube.wait_for_delete waiter deleted.0 u.timeout))
                        _ (λ w h. kept.cluster w _ h)
                        (λ wait_error.
                          Ends-held Inv Post (post_delete_hooks kube drv u) _
                            post_delete_hooks-Holds
                            (λ hook_errors w h.
                              Ends-follow Post
                                (λ _ w. Inv w × (w.rl.info.status ≡ status_uninstalled))
                                (change kube drv u (uninstalled kube drv u) w) _
                                (
                                  kept.changed (uninstalled kube drv u)
                                      (λ rl. (refl, refl, refl, refl)) w h,
                                  refl,
                                )
                                (λ _ w' (h', status).
                                  finish (kept_info deleted.1) (as_errors kube drv u wait_error)
                                    hook_errors w' h' status))))))))
        w h
