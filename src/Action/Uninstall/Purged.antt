-- ===== src/Action/Uninstall/Purged.antt =====
-- uninstall.go: `Run` where the history is not kept.
use mathlib.Core.List.{reverse}
use mathlib.Core.Path.{subst}
use aws_ecommerce_k8s.Base.{
  ◌≡◌, refl, sym, true, false, Option, none, some, List, All, arith, Bool-cases, Option-cases, inl,
  inr, if◌then◌else◌,
}
use aws_ecommerce_k8s.Base.Bytes.{Bytes}
use aws_ecommerce_k8s.Base.Int.{ℤ}
use aws_ecommerce_k8s.Base.Decimal.{IsInt64}
use aws_ecommerce_k8s.Base.Sort.{sort_by, sort_by-All}
use aws_ecommerce_k8s.Release.Defs.{Release}
use aws_ecommerce_k8s.Release.Sorter.{sort_by_revision, by_revision}
use aws_ecommerce_k8s.Driver.Errors.{Result, ok, err}
use aws_ecommerce_k8s.Driver.Interface.{Driver}
use aws_ecommerce_k8s.Driver.History.{IsRevision, IsHistoryDriver}
use aws_ecommerce_k8s.Storage
use aws_ecommerce_k8s.Storage.Sound.{reverse-All}
use aws_ecommerce_k8s.Storage.Selectors.{owned_by_helm}
use aws_ecommerce_k8s.Chart.Names.{validate_release_name}
use aws_ecommerce_k8s.Action.Step.{◌>>=◌, follow, Ends}
use aws_ecommerce_k8s.Action.Kube.{KubeClient}
use aws_ecommerce_k8s.Action.World.{World, attempt}
use aws_ecommerce_k8s.Action.Errors.{plain}
use aws_ecommerce_k8s.Action.Uninstall.{
  Uninstall, Response, run, load_and_uninstall, show_release, history_result,
}
use aws_ecommerce_k8s.Action.Uninstall.Purge.{revisions-IsKeyed, has_version-sort_by}
use aws_ecommerce_k8s.Action.Uninstall.Gone.{uninstall_last-Emptied}

module _ {K D R P V : Type 0} (drv : Driver D) (name ns : Bytes) (Sound : D → Type 0)
    (at : ℤ → D → Option Release) (laws : IsHistoryDriver drv name ns Sound at)
    (kube : KubeClient K R P V) (u : Uninstall) (away : u.keep_history ≡ false) where
  -- No response where a missing release is ignored, or no revision of the release is stored.
  abbrev pub Purged : Option Response → World K D → Type 0
  Purged none w = u.ignore_not_found ≡ true
  Purged (some response) w = (v : ℤ) → at v w.releases.driver ≡ none

  -- The revisions that the storage lists are of 64 bits.
  abbrev pub AreInt64 : Result (List Release) → Type 0
  AreInt64 (err e) = Unit
  AreInt64 (ok rels) = All (λ rel. IsInt64 rel.version) rels

  history-Purged :
      (r : Result (List Release)) (waiter : V) (w : World K D)
      → Sound w.releases.driver
      → drv.query (owned_by_helm name) w.releases.driver ≡ r
      → AreInt64 r
      → Ends Purged (history_result kube drv u r waiter name w)
  unfolding history_result sort_by_revision
  history-Purged (err e) waiter w sound listed fits = elim (Bool-cases u.ignore_not_found) [
    | inl ignored ↦ rw ignored refl
    | inr raised ↦ rw raised tt
  ]
  history-Purged (ok rels) waiter w sound listed fits =
      let own =
        sort_by-All by_revision (IsRevision name ns) rels
          (laws.owned-IsRevision w.releases.driver rels sound listed) in
      uninstall_last-Emptied drv name ns Sound at laws kube u away (sort_by by_revision rels)
        (revisions-IsKeyed drv name ns Sound at laws (sort_by by_revision rels) own
          (sort_by-All by_revision (λ rel. IsInt64 rel.version) rels fits))
        (reverse (sort_by by_revision rels)) waiter w sound
        (reverse-All (IsRevision name ns) (sort_by by_revision rels) own)
        (λ v absent. ground (
          arith,
          laws.owned-versions w.releases.driver rels v sound listed,
          has_version-sort_by v rels,
          absent,
        ))

  load-Purged :
      (waiter : V) (w : World K D)
      → Sound w.releases.driver
      → AreInt64 (Storage.history drv name w.releases)
      → Ends Purged (load_and_uninstall kube drv u waiter name w)
  unfolding follow Storage.history
  load-Purged waiter w sound fits = elim (Option-cases (validate_release_name name)) [
    | inr (e, invalid) ↦ rw invalid tt
    | inl valid ↦
        rw valid (history-Purged (Storage.history drv name w.releases) waiter w sound refl fits)
  ]

  started-Purged :
      (live : u.dry_run ≡ false) (r : Result V × K) (w : World K D)
      → Sound w.releases.driver
      → AreInt64 (Storage.history drv name w.releases)
      → Ends Purged (
          (attempt plain (λ k. r) >>= (λ waiter.
              if u.dry_run
              then show_release kube drv u name
              else load_and_uninstall kube drv u waiter name))
            w)
  unfolding follow
  started-Purged live (err e, k) w sound fits = tt
  started-Purged live (ok waiter, k) w sound fits =
      subst
        (λ dry. Ends Purged (
          (if dry then show_release kube drv u name else load_and_uninstall kube drv u waiter name)
            (record w { cluster = k })))
        (sym live) (load-Purged waiter (record w { cluster = k }) sound fits)

  -- `Run` without `KeepHistory`, not a dry run, over a driver that keeps to the laws of a history and
  -- lists revisions of 64 bits: if it returns without an error, then it has no response, which is only
  -- with `IgnoreNotFound`, or no revision of the release is stored any more.
  pub run_purges_history :
      (live : u.dry_run ≡ false) (w : World K D)
      → Sound w.releases.driver
      → AreInt64 (Storage.history drv name w.releases)
      → Ends Purged (run kube drv u name w)
  unfolding run follow
  run_purges_history live w sound fits = elim (Option-cases (kube.is_reachable w.cluster).0) [
    | inr (e, lost) ↦ rw lost tt
    | inl reached ↦ rw reached (
        started-Purged live (kube.get_waiter u.wait_strategy (kube.is_reachable w.cluster).1)
          (record w { cluster = (kube.is_reachable w.cluster).1 }) sound fits)
  ]
