-- ===== src/Action/Rollback/Run.antt =====
-- rollback.go: `Run` as a whole.
use mathlib.Core.Path.{subst}
use aws_ecommerce_k8s.Base.{◌≡◌, refl, sym, ◌∙◌, Bool, false, Option, some, Option-cases, inl, inr}
use aws_ecommerce_k8s.Base.Bytes.{Bytes}
use aws_ecommerce_k8s.Base.Int.{ℤ}
use aws_ecommerce_k8s.Release.Defs.{Release}
use aws_ecommerce_k8s.Driver.Interface.{Driver}
use aws_ecommerce_k8s.Driver.History.{IsRevision, IsHistoryDriver}
use aws_ecommerce_k8s.Storage
use aws_ecommerce_k8s.Storage.Sound.{last-Holds, create-IsCreated}
use aws_ecommerce_k8s.Action.Step.{Step, ◌>>◌, follow, Ends, Ends-follow, Ends-map}
use aws_ecommerce_k8s.Action.Kube.{KubeClient}
use aws_ecommerce_k8s.Action.World.{World}
use aws_ecommerce_k8s.Action.Errors.{ActionError, write, unless}
use aws_ecommerce_k8s.Action.Rollback.{Rollback, run, change, prepare_rollback, perform_rollback}
use aws_ecommerce_k8s.Action.Rollback.Prepare.{IsPrepared, Prepared, prepare_rollback_lem}
use aws_ecommerce_k8s.Action.Rollback.Deployed.{
  IsStoredHere, Finished, Deployed, perform-Finished, update-Deployed,
}

module _ {K R P V D : Type 0} (kube : KubeClient K R P V) (drv : Driver D) (r : Rollback)
    (name ns : Bytes) (Sound : D → Type 0) (at : ℤ → D → Option Release)
    (laws : IsHistoryDriver drv name ns Sound at) (w : World K D) (sound : Sound w.releases.driver)
    (real : r.dry_run ≡ false) where
  -- The state in which the rollback is prepared.
  abbrev pub begun : World K D
  begun = record w {
    cluster = (kube.is_reachable w.cluster).1;
    releases = record w.releases { max_history = r.max_history };
  }

  -- The rollback prepared from the current release to a target that is then the one deployed.
  abbrev pub RolledBack : Unit {0} → World K D → Type 0
  RolledBack _ w' =
      (current : Release) × (target : Release) × IsPrepared kube drv r name begun current target
      × Deployed drv name ns Sound at laws target kube r tt w'

  current-IsRevision :
      (current target : Release)
      → IsPrepared kube drv r name begun current target
      → IsRevision name ns current
  current-IsRevision current target p =
      (subst
        (Storage.Sound.Holds
          (λ rel. IsRevision name ns rel × (at rel.version w.releases.driver ≡ some rel)))
        p.current_is (last-Holds drv name ns Sound at laws begun.releases sound)).0

  target-IsRevision :
      (current target : Release)
      → IsPrepared kube drv r name begun current target
      → IsRevision name ns target
  target-IsRevision current target p =
      (p.target_is.name_is, p.target_is.namespace_is ∙ (current-IsRevision current target p).1)

  -- A target that is stored is rolled back to.
  IsStored-RolledBack :
      (current target : Release) (w' : World K D)
      → IsPrepared kube drv r name begun current target
      → IsStoredHere drv name ns Sound at laws target w'
      → Ends RolledBack
          ((perform_rollback kube drv r current >> (λ w. write (Storage.update drv w.rl) w)) w')
  IsStored-RolledBack current target w' p h =
      Ends-follow RolledBack (Finished drv name ns Sound at laws target kube r)
        (perform_rollback kube drv r current w') _
        (perform-Finished drv name ns Sound at laws target kube r current w' real
          (current-IsRevision current target p) h)
        (λ _ w2 finished.
          Ends-map (Deployed drv name ns Sound at laws target kube r) RolledBack
            (write (Storage.update drv w2.rl) w2) (λ _ w3 deployed. (current, target, p, deployed))
            (update-Deployed drv name ns Sound at laws target kube r w2 finished))

  -- What follows the preparation, in the state `begun`.
  abbrev carry_out : Release × Release → Step (World K D) ActionError (Unit {0})
  carry_out prepared =
      change (λ rl. prepared.1)
      >> ((λ w. write (Storage.create drv w.rl) w)
          >> (perform_rollback kube drv r prepared.0 >> (λ w. write (Storage.update drv w.rl) w)))

  carry_out-RolledBack :
      (current target : Release)
      → IsPrepared kube drv r name begun current target
      → Ends RolledBack (carry_out (current, target) begun)
  unfolding follow
  carry_out-RolledBack current target p =
      let own = target-IsRevision current target p in
      let created = create-IsCreated drv name ns Sound at laws target own begun.releases sound in
      elim (Option-cases (Storage.create drv target begun.releases).0) [
        | inr (e, failed) ↦ rw failed tt
        | inl fine ↦ rw fine (
            IsStored-RolledBack current target _ p (record {
              sound = created.0;
              own = own;
              version = refl;
              content = refl;
              stored = created.1 fine;
            }))
      ]

  -- `carry_out` as `Run` has it, where a dry run leaves steps out.
  abbrev carry_out_unless : Bool → Release × Release → Step (World K D) ActionError (Unit {0})
  carry_out_unless dry prepared =
      change (λ rl. prepared.1)
      >> (unless dry (λ w. write (Storage.create drv w.rl) w)
          >> (perform_rollback kube drv r prepared.0
              >> unless dry (λ w. write (Storage.update drv w.rl) w)))

  Prepared-RolledBack :
      (prepared : Release × Release) (w' : World K D)
      → Prepared kube drv r name begun prepared w'
      → Ends RolledBack (carry_out_unless r.dry_run prepared w')
  Prepared-RolledBack (current, target) w' (same, p) =
      subst (λ b. Ends RolledBack (carry_out_unless b (current, target) w')) (sym real)
        (subst (λ w'. Ends RolledBack (carry_out (current, target) w')) (sym same)
          (carry_out-RolledBack current target p))

  -- With any client, and any driver that keeps what storage drivers promise of the revisions of a
  -- release in one namespace, a rollback that is not a dry run and returns without an error leaves the
  -- prepared target as the one deployed revision of the release: its revision is stored with the status
  -- "deployed" and the chart, config and manifest that were stored, before, for the revision asked for
  -- (for 0, the one before the last), and no other revision has the status "deployed".
  pub run_rolls_back : Ends RolledBack (run kube drv r name w)
  unfolding run follow
  run_rolls_back = elim (Option-cases (kube.is_reachable w.cluster).0) [
    | inr (e, unreachable) ↦ rw unreachable tt
    | inl reachable ↦ rw reachable (
        Ends-follow RolledBack (Prepared kube drv r name begun)
          (prepare_rollback kube drv r name begun) (carry_out_unless r.dry_run)
          (prepare_rollback_lem kube drv r name begun) Prepared-RolledBack)
  ]
