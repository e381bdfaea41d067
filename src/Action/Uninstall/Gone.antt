-- ===== src/Action/Uninstall/Gone.antt =====
-- uninstall.go: `Run` where the history is purged.
use aws_ecommerce_k8s.Base.{
  ◌≡◌, refl, ◌∙◌, true, false, Option, none, some, List, [], ◌∷◌, All, arith, Bool-cases,
  Option-cases, inl, inr,
}
use aws_ecommerce_k8s.Base.Bytes.{Bytes, str_eq}
use aws_ecommerce_k8s.Base.Int.{ℤ, eq_int→eq}
use aws_ecommerce_k8s.Release.Status.{status_uninstalled}
use aws_ecommerce_k8s.Release.Defs.{Release}
use aws_ecommerce_k8s.Driver.Errors.{Error}
use aws_ecommerce_k8s.Driver.Interface.{Driver}
use aws_ecommerce_k8s.Driver.History.{IsRevision, IsHistoryDriver, has_version}
use aws_ecommerce_k8s.Storage
use aws_ecommerce_k8s.Storage.{Storage}
use aws_ecommerce_k8s.Action.Step.{◌>>=◌, ◌>>◌, pure, gets, follow, Ends, Ends-follow}
use aws_ecommerce_k8s.Action.Kube.{KubeClient}
use aws_ecommerce_k8s.Action.World.{World}
use aws_ecommerce_k8s.Action.Hooks.{HookError}
use aws_ecommerce_k8s.Action.Uninstall.{
  Uninstall, Response, change, uninstall_last, uninstalled_already, uninstall_release,
  finish_history, completed, purge_releases,
}
use aws_ecommerce_k8s.Action.Uninstall.Steps.{IsKept, uninstall_release-Ends}
use aws_ecommerce_k8s.Action.Uninstall.Purge.{purged, IsKeyed}

module _ {D : Type 0} (drv : Driver D) (name ns : Bytes) (Sound : D → Type 0)
    (at : ℤ → D → Option Release) (laws : IsHistoryDriver drv name ns Sound at) where
  -- The revisions that are stored are among these.
  abbrev pub Within : {K : Type 0} → List Release → World K D → Type 0
  Within rels w =
      Sound w.releases.driver
      × IsRevision name ns w.rl
      × ((v : ℤ) → has_version v rels ≡ false → at v w.releases.driver ≡ none)

  Within-IsKept : {K : Type 0} (rels : List Release) → IsKept drv (Within {K = K} rels)
  unfolding Storage.update
  Within-IsKept rels = record {
    cluster = λ w k h. h;
    changed = λ f same w (sound, own, among).
        (sound, ((same w.rl).0 ∙ own.0, (same w.rl).1 ∙ own.1), among);
    recorded = λ w (sound, own, among). (
      laws.update-Sound w.rl w.releases.driver own sound,
      own,
      λ v absent. ground (
        arith,
        laws.at-update w.rl w.releases.driver v own sound,
        among v absent,
        among w.rl.version,
        eq_int→eq w.rl.version v,
      ),
    );
  }

  module _ {K R P V : Type 0} (kube : KubeClient K R P V) (u : Uninstall)
      (away : u.keep_history ≡ false) (rels : List Release)
      (keyed : All (IsKeyed drv name ns Sound at laws) rels) where
    -- No revision of the release is stored.
    abbrev pub Empty : World K D → Type 0
    Empty w = (v : ℤ) → at v w.releases.driver ≡ none

    finish-Empty :
        (w : World K D)
        → Within rels w
        → Ends (λ purges w'. purges ≡ [] → Empty w') (finish_history kube drv u rels w)
    unfolding finish_history
    finish-Empty w (sound, own, among) =
        rw away (elim (Option-cases (purge_releases drv rels w.releases).0) [
          | inl clean ↦
              λ _ v. purged drv name ns Sound at laws rels w.releases v sound keyed clean (among v)
          | inr (e, failed) ↦ rw failed (λ bad. cc)
        ])

    completed-Empty :
        (info : Bytes) (waits : List Error) (hooks : List HookError) (purges : List Error)
        (w : World K D)
        → (purges ≡ [] → Empty w)
        → Ends {A = Response}
            (λ response w'. Empty w')
            ((completed kube drv u waits hooks purges
                >> gets (λ w. record { release = w.rl; info = info }))
              w)
    unfolding completed follow
    completed-Empty info [] [] [] w h = h refl
    completed-Empty info [] [] (e ∷ es) w h = tt
    completed-Empty info [] (e ∷ es) purges w h = tt
    completed-Empty info (e ∷ es) hooks purges w h = tt

    pub uninstall_release-Empty :
        (waiter : V) (asked : Bytes) (w : World K D)
        → Within rels w
        → Ends (λ response w'. Empty w') (uninstall_release kube drv u rels waiter asked w)
    uninstall_release-Empty =
        uninstall_release-Ends drv (Within rels) (Within-IsKept rels) kube u
          (λ response w'. Empty w') rels
          (λ info waits hooks w h status.
            Ends-follow (λ response w'. Empty w') (λ purges w'. purges ≡ [] → Empty w')
              (finish_history kube drv u rels w) _ (finish-Empty w h)
              (λ purges w' gone. completed-Empty info waits hooks purges w' gone))

    -- What a run without an error leaves: no response where a missing release is ignored, or no revision.
    abbrev pub Emptied : Option Response → World K D → Type 0
    Emptied none w = u.ignore_not_found ≡ true
    Emptied (some response) w = Empty w

    already-Emptied :
        (rel : Release) (w : World K D)
        → Within rels (record w { rl = rel })
        → Ends Emptied (uninstalled_already kube drv u rels rel name w)
    unfolding uninstalled_already
    already-Emptied rel w (sound, own, among) =
        rw away (elim (Option-cases (purge_releases drv rels w.releases).0) [
          | inl clean ↦
              rw clean (λ v.
                purged drv name ns Sound at laws rels w.releases v sound keyed clean (among v))
          | inr (e, failed) ↦ rw failed tt
        ])

    present-Emptied :
        (rel : Release) (waiter : V) (w : World K D)
        → Within rels (record w { rl = rel })
        → Ends Emptied (
            (change kube drv u (λ rl. rel)
                >> (uninstall_release kube drv u rels waiter name
                    >>= (λ response. pure (some response))))
              w)
    unfolding follow
    present-Emptied rel waiter w h =
        Ends-follow Emptied (λ response w'. Empty w')
          (uninstall_release kube drv u rels waiter name (record w { rl = rel })) _
          (uninstall_release-Empty waiter name _ h) (λ response w' gone. gone)

    pub uninstall_last-Emptied :
        (back : List Release) (waiter : V) (w : World K D)
        → Sound w.releases.driver
        → All (IsRevision name ns) back
        → ((v : ℤ) → has_version v rels ≡ false → at v w.releases.driver ≡ none)
        → Ends Emptied (uninstall_last kube drv u back rels waiter name w)
    unfolding uninstall_last
    uninstall_last-Emptied [] waiter w sound own among = tt
    uninstall_last-Emptied (rel ∷ rest) waiter w sound own among =
        elim (Bool-cases (str_eq rel.info.status status_uninstalled)) [
          | inl already ↦ rw already (already-Emptied rel w (sound, own.0, among))
          | inr present ↦ rw present (present-Emptied rel waiter w (sound, own.0, among))
        ]
