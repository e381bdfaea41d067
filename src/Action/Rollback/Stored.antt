-- ===== src/Action/Rollback/Stored.antt =====
-- rollback.go: the new release stays stored while the cluster is updated.
use mathlib.Core.Path.{subst}
use aws_ecommerce_k8s.Base.{
  ℕ, ◌≡◌, refl, sym, ◌∙◌, Bool, true, false, not, Option, none, some, List, [], ◌∷◌, is_some,
  modify_at, arith, inl, inr,
}
use aws_ecommerce_k8s.Base.Bytes.{Bytes}
use aws_ecommerce_k8s.Base.Int.{ℤ}
use aws_ecommerce_k8s.Release.Status.{status_superseded}
use aws_ecommerce_k8s.Release.Hook.{HookEvent, pre_rollback, post_rollback}
use aws_ecommerce_k8s.Release.Defs.{Release, set_status}
use aws_ecommerce_k8s.Driver.Errors.{Error, Result, Result-cases}
use aws_ecommerce_k8s.Driver.Interface.{Driver}
use aws_ecommerce_k8s.Driver.History.{IsRevision, IsHistoryDriver}
use aws_ecommerce_k8s.Storage
use aws_ecommerce_k8s.Action.Step.{
  Outcome, done, raised, map_error, Step, ◌>>◌, gets, Holds, Holds->>=,
}
use aws_ecommerce_k8s.Action.Kube.{KubeClient}
use aws_ecommerce_k8s.Action.World.{World, attempt, observe, record_this, record_release}
use aws_ecommerce_k8s.Action.Hooks.{HookError}
use aws_ecommerce_k8s.Action.Hooks.Exec.{exec_hook}
use aws_ecommerce_k8s.Action.Hooks.Invariant.{exec_hook-Holds}
use aws_ecommerce_k8s.Action.Errors.{ActionError, unless, in_context, run_hooks_step}
use aws_ecommerce_k8s.Action.Rollback.{
  current_context, new_context, metadata_context, Rollback, with_status, change, update_result,
  wait_result, update_cluster, hooks_at, clean_up_created, wait_for, raise_cleanup,
}

-- What of a release is applied to the cluster.
abbrev pub contents : Release → Bytes × Bytes × Bytes
contents rl = (rl.chart, rl.config, rl.manifest)

-- A change of the release that keeps what it is a revision of.
abbrev pub IsSameRevision : (Release → Release) → Type 0
IsSameRevision f =
    (rl : Release)
    → ((f rl).name ≡ rl.name)
      × ((f rl).namespace ≡ rl.namespace)
      × ((f rl).version ≡ rl.version)
      × (contents (f rl) ≡ contents rl)

module _ {K D : Type 0} (drv : Driver D) (name ns : Bytes) (Sound : D → Type 0)
    (at : ℤ → D → Option Release) (laws : IsHistoryDriver drv name ns Sound at) where
  -- The new release is stored as the revision of `t`, with what it holds.
  pub record IsStored (t : Release) (w : World K D) : Type 0 where
    pub sound : Sound w.releases.driver
    pub own : IsRevision name ns w.rl
    pub version : w.rl.version ≡ t.version
    pub content : contents w.rl ≡ contents t
    pub stored : is_some (at t.version w.releases.driver) ≡ true

  pub record_this-Holds :
      (t : Release) (rls : Release)
      → IsRevision name ns rls
      → Holds {E = ActionError} (IsStored t) (record_this drv rls)
  unfolding Storage.update
  record_this-Holds t rls own w h = record {
    sound = laws.update-Sound rls w.releases.driver own h.sound;
    own = h.own;
    version = h.version;
    content = h.content;
    stored = ground (arith, laws.at-update rls w.releases.driver t.version own h.sound, h.stored);
  }

  pub cluster-Holds :
      (t : Release) (w : World K D) (k : K) → IsStored t w → IsStored t (record w { cluster = k })
  cluster-Holds t w k h = record {
    sound = h.sound;
    own = h.own;
    version = h.version;
    content = h.content;
    stored = h.stored;
  }

  pub changed-IsStored :
      (t : Release) (f : Release → Release)
      → IsSameRevision f
      → (w : World K D) → IsStored t w
      → IsStored t (record w { rl = f w.rl })
  changed-IsStored t f same w h = record {
    sound = h.sound;
    own = ((same w.rl).0 ∙ h.own.0, (same w.rl).1 ∙ h.own.1);
    version = (same w.rl).2 ∙ h.version;
    content = (same w.rl).3 ∙ h.content;
    stored = h.stored;
  }

  pub record_release-Holds :
      (E : Type 0) (t : Release) → Holds {E = E} (IsStored t) (record_release drv)
  record_release-Holds E t w h = record_this-Holds t w.rl h.own w h

  pub attempt-Holds :
      {E A : Type 0} (t : Release) (wrap : Error → E) (call : K → Result A × K)
      → Holds (IsStored t) (attempt wrap call)
  attempt-Holds t wrap call w h = elim (Result-cases (call w.cluster).0) [
    | inl (a, e) ↦ rw (e, attempt) (cluster-Holds t w (call w.cluster).1 h)
    | inr (x, e) ↦ rw (e, attempt) (cluster-Holds t w (call w.cluster).1 h)
  ]

  pub map_error-state :
      {E E' A : Type 0} (wrap : E → E') (r : Outcome E A × World K D) → (map_error wrap r).1 ≡ r.1
  unfolding map_error
  map_error-state wrap (done a, w) = refl
  map_error-state wrap (raised e, w) = refl

  module _ {R P V : Type 0} (kube : KubeClient K R P V) (wait_strategy : Bytes) (timeout : ℕ)
      (t : Release) where
    pub exec_hook-IsStored :
        (event : HookEvent) → Holds (IsStored t) (exec_hook kube drv wait_strategy timeout event)
    exec_hook-IsStored event =
        exec_hook-Holds (IsStored t) (cluster-Holds t) kube wait_strategy timeout drv
          (record_release-Holds HookError t) event
          (λ i f change w h.
            changed-IsStored t (λ rl. record rl { hooks = modify_at i f rl.hooks })
              (λ rl. (refl, refl, refl, refl)) w h)

    pub run_hooks-IsStored :
        (off : Bool) (event : HookEvent)
        → Holds
            (IsStored t)
            (unless off (run_hooks_step (exec_hook kube drv wait_strategy timeout event)))
    run_hooks-IsStored true event w h = h
    run_hooks-IsStored false event w h =
        subst (IsStored t) (sym (map_error-state _ _)) (exec_hook-IsStored event w h)

  module _ {R P V : Type 0} (kube : KubeClient K R P V) (r : Rollback) (t : Release) where
    hooks_at-Holds : (event : HookEvent) → Holds (IsStored t) (hooks_at kube drv r event)
    hooks_at-Holds event = run_hooks-IsStored kube r.wait_strategy r.timeout t r.disable_hooks event

    failure-Holds :
        (current : Release)
        → IsRevision name ns current
        → (f : Release → Release) → IsSameRevision f
        → (k : Step (World K D) ActionError (Unit {0})) → Holds (IsStored t) k
        → Holds (IsStored t) (change f >> (record_this drv current >> (record_release drv >> k)))
    failure-Holds current own f same k hk =
        Holds->>= (IsStored t) (change f)
          (λ _. record_this drv current >> (record_release drv >> k)) (changed-IsStored t f same)
          (λ _.
            Holds->>= (IsStored t) (record_this drv current) (λ _. record_release drv >> k)
              (record_this-Holds t current own)
              (λ _.
                Holds->>= (IsStored t) (record_release drv) (λ _. k)
                  (record_release-Holds ActionError t) (λ _. hk)))

    raise_cleanup-Holds : (es : List Error) → Holds (IsStored t) (raise_cleanup es)
    unfolding raise_cleanup
    raise_cleanup-Holds [] w h = h
    raise_cleanup-Holds (e ∷ es) w h = h

    unless-Holds :
        (b : Bool) (m : Step (World K D) ActionError (Unit {0}))
        → Holds (IsStored t) m
        → Holds (IsStored t) (unless b m)
    unless-Holds true m hm w h = h
    unless-Holds false m hm w h = hm w h

    clean_up-Holds : (created : R) → Holds (IsStored t) (clean_up_created kube drv r created)
    unfolding clean_up_created
    clean_up-Holds created =
        Holds->>= (IsStored t) (observe (kube.delete created)) _ (λ w h. cluster-Holds t w _ h)
          raise_cleanup-Holds

    update_result-Holds :
        (current : Release)
        → IsRevision name ns current
        → (result : R × Option Error) → Holds (IsStored t) (update_result kube drv r current result)
    unfolding update_result set_status
    update_result-Holds current own (created, none) = λ w h. h
    update_result-Holds current own (created, some e) =
        failure-Holds (with_status status_superseded current) own _ (λ rl. (refl, refl, refl, refl))
          _
          (Holds->>= (IsStored t) _ _
            (unless-Holds (not r.cleanup_on_fail) _ (clean_up-Holds created)) (λ _ w h. h))

    wait_result-Holds :
        (current : Release)
        → IsRevision name ns current
        → (e : Option Error) → Holds (IsStored t) (wait_result kube drv r current e)
    unfolding wait_result set_status
    wait_result-Holds current own none = λ w h. h
    wait_result-Holds current own (some e) =
        failure-Holds current own _ (λ rl. (refl, refl, refl, refl)) _
          (Holds->>= (IsStored t) (gets (λ w. w.rl.name)) _ (λ w h. h) (λ _ w h. h))

    -- Whatever the cluster answers, the new release stays stored while the cluster is updated.
    pub update_cluster-Holds :
        (current : Release)
        → IsRevision name ns current
        → Holds (IsStored t) (update_cluster kube drv r current)
    unfolding update_cluster
    update_cluster-Holds current own =
        Holds->>= (IsStored t) _ _
          (attempt-Holds t (in_context current_context) (kube.build current.manifest false))
          (λ original.
            Holds->>= (IsStored t) (gets (λ w. w.rl)) _ (λ w h. h)
              (λ target.
                Holds->>= (IsStored t) _ _
                  (attempt-Holds t (in_context new_context) (kube.build target.manifest false))
                  (λ resources. Holds->>= (IsStored t) _ _ (hooks_at-Holds pre_rollback) (λ _.
                    Holds->>= (IsStored t) _ _
                      (attempt-Holds t (in_context metadata_context)
                        (kube.set_metadata target.name target.namespace true resources))
                      (λ resources'.
                        Holds->>= (IsStored t) (observe (kube.update original resources' r.force)) _
                          (λ w h. cluster-Holds t w _ h)
                          (λ result.
                            Holds->>= (IsStored t) _ _ (update_result-Holds current own result)
                              (λ _.
                                Holds->>= (IsStored t) _ _
                                  (attempt-Holds t (in_context metadata_context)
                                    (kube.get_waiter r.wait_strategy))
                                  (λ waiter.
                                    Holds->>= (IsStored t)
                                      (observe (wait_for kube drv r waiter resources')) _
                                      (λ w h. cluster-Holds t w _ h)
                                      (λ e.
                                        Holds->>= (IsStored t) _ _ (wait_result-Holds current own e)
                                          (λ _. hooks_at-Holds post_rollback))))))))))
