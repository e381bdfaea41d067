-- ===== src/Action/Rollback/DryRun.antt =====
-- rollback.go: a dry run.
use aws_ecommerce_k8s.Base.{◌≡◌, refl, ap, Bool, true, false, Option-cases, inl, inr}
use aws_ecommerce_k8s.Base.Bytes.{Bytes}
use aws_ecommerce_k8s.Release.Defs.{Release}
use aws_ecommerce_k8s.Driver.Errors.{Result, Result-cases}
use aws_ecommerce_k8s.Driver.Interface.{Driver}
use aws_ecommerce_k8s.Storage
use aws_ecommerce_k8s.Storage.{Storage}
use aws_ecommerce_k8s.Action.Step.{Step, ◌>>=◌, ◌>>◌, fail, gets, follow, Keeps, Keeps->>=}
use aws_ecommerce_k8s.Action.Kube.{KubeClient}
use aws_ecommerce_k8s.Action.World.{World}
use aws_ecommerce_k8s.Action.Errors.{ActionError, read, unless, write}
use aws_ecommerce_k8s.Action.Rollback.{Rollback, change, run, prepare_rollback, perform_rollback}

module _ {K D : Type 0} where
  -- What there is but for the release that is worked on.
  abbrev pub outside : World K D → K × Storage D
  outside w = (w.cluster, w.releases)

  read-Keeps :
      {A : Type 0} (f : Storage D → Result A) → Keeps {E = ActionError} outside (read {K = K} f)
  read-Keeps f w = elim (Result-cases (f w.releases)) [
    | inl (a, e) ↦ rw (e, read) refl
    | inr (x, e) ↦ rw (e, read) refl
  ]

  refuse-Keeps :
      (b : Bool) (e : ActionError)
      → Keeps {E = ActionError} outside (unless {K = K} {D = D} b (fail e))
  refuse-Keeps true e w = refl
  refuse-Keeps false e w = refl

module _ {K R P V D : Type 0} (kube : KubeClient K R P V) (drv : Driver D) (r : Rollback)
    (name : Bytes) where
  prepare-Keeps : Keeps outside (prepare_rollback kube drv r name)
  unfolding prepare_rollback
  prepare-Keeps = Keeps->>= outside _ _ (refuse-Keeps _ _) (λ _.
      Keeps->>= outside _ _ (refuse-Keeps _ _) (λ _.
        Keeps->>= outside _ _ (read-Keeps (Storage.last drv name)) (λ current.
          Keeps->>= outside _ _ (read-Keeps (Storage.history drv name)) (λ history.
            Keeps->>= outside _ _ (refuse-Keeps _ _) (λ _.
              Keeps->>= outside _ _ (read-Keeps (Storage.get drv name _)) (λ previous.
                Keeps->>= outside (gets (λ w. kube.now w.cluster)) _ (λ w. refl)
                  (λ now w. refl)))))))

  skipped-Keeps :
      (b : Bool) (m : Step (World K D) ActionError (Unit {0}))
      → b ≡ true
      → Keeps outside (unless b m)
  skipped-Keeps true m h w = refl
  skipped-Keeps false m h w = cc

  perform-Keeps :
      (current : Release) → r.dry_run ≡ true → Keeps outside (perform_rollback kube drv r current)
  unfolding perform_rollback
  perform-Keeps current dry = skipped-Keeps r.dry_run _ dry

  begun-Keeps :
      (w : World K D)
      → r.dry_run ≡ true
      → outside
          ((prepare_rollback kube drv r name >>= (λ prepared.
              change (λ rl. prepared.1)
              >> (unless r.dry_run (λ w. write (Storage.create drv w.rl) w)
                  >> (perform_rollback kube drv r prepared.0
                      >> unless r.dry_run (λ w. write (Storage.update drv w.rl) w)))))
            w).1
        ≡ outside w
  begun-Keeps w dry =
      Keeps->>= outside (prepare_rollback kube drv r name) _ prepare-Keeps
        (λ prepared.
          Keeps->>= outside (change (λ rl. prepared.1)) _ (λ w. refl)
            (λ _.
              Keeps->>= outside (unless r.dry_run (λ w. write (Storage.create drv w.rl) w)) _
                (skipped-Keeps r.dry_run _ dry)
                (λ _.
                  Keeps->>= outside (perform_rollback kube drv r prepared.0) _
                    (perform-Keeps prepared.0 dry) (λ _. skipped-Keeps r.dry_run _ dry))))
        w

  -- A dry run, whatever it returns, changes nothing that is stored and asks the cluster only whether it
  -- is reachable.
  pub dry_run_lem :
      (w : World K D)
      → r.dry_run ≡ true
      → ((run kube drv r name w).1.cluster ≡ (kube.is_reachable w.cluster).1)
        × ((run kube drv r name w).1.releases.driver ≡ w.releases.driver)
  unfolding run follow
  dry_run_lem w dry = elim (Option-cases (kube.is_reachable w.cluster).0) [
    | inr (e, unreachable) ↦ rw unreachable (refl, refl)
    | inl reachable ↦
        let kept =
          begun-Keeps
            (record w {
              cluster = (kube.is_reachable w.cluster).1;
              releases = record w.releases { max_history = r.max_history };
            })
            dry in
        rw reachable (ap (λ o. o.0) kept, ap (λ o. o.1.driver) kept)
  ]
