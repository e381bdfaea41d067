-- ===== src/Action/Uninstall/Run.antt =====
-- uninstall.go: `Run` where the history is kept.
use mathlib.Core.List.{reverse}
use mathlib.Core.Path.{subst}
use aws_ecommerce_k8s.Base.{
  ◌≡◌, refl, sym, ap, ◌∙◌, true, false, Option, none, some, List, [], ◌∷◌, is_some, Bool-cases,
  Option-cases, inl, inr, if◌then◌else◌,
}
use aws_ecommerce_k8s.Base.Bytes.{Bytes, str_eq}
use aws_ecommerce_k8s.Base.Int.{ℤ, pos}
use aws_ecommerce_k8s.Release.Status.{status_uninstalled}
use aws_ecommerce_k8s.Release.Defs.{Release}
use aws_ecommerce_k8s.Release.Sorter.{sort_by_revision, reverse_sorted}
use aws_ecommerce_k8s.Driver.Errors.{Result, ok, err, no_revision}
use aws_ecommerce_k8s.Driver.Interface.{Driver}
use aws_ecommerce_k8s.Driver.History.{IsRevision, IsHistoryDriver}
use aws_ecommerce_k8s.Storage
use aws_ecommerce_k8s.Storage.Sound.{last-Holds}
use aws_ecommerce_k8s.Chart.Names.{validate_release_name}
use aws_ecommerce_k8s.Action.Step.{◌>>=◌, ◌>>◌, pure, follow, Ends, Ends-follow}
use aws_ecommerce_k8s.Action.Kube.{KubeClient}
use aws_ecommerce_k8s.Action.World.{World, attempt}
use aws_ecommerce_k8s.Action.Errors.{plain}
use aws_ecommerce_k8s.Storage.Selectors.{owned_by_helm}
use aws_ecommerce_k8s.Action.Uninstall.{
  Uninstall, Response, change, run, load_and_uninstall, show_release, history_result,
  uninstall_last, uninstalled_already, uninstall_release,
}
use aws_ecommerce_k8s.Action.Uninstall.Kept.{Here, Kept, uninstall_release-Kept}

module _ {K D R P V : Type 0} (drv : Driver D) (name ns : Bytes) (Sound : D → Type 0)
    (at : ℤ → D → Option Release) (laws : IsHistoryDriver drv name ns Sound at)
    (kube : KubeClient K R P V) (u : Uninstall) (keep : u.keep_history ≡ true) (d : D)
    (sound : Sound d) where
  -- What a run without an error leaves: no response where a missing release is ignored, or the
  -- response about the last revision, which is stored as the response has it.
  abbrev pub Uninstalled : Option Response → World K D → Type 0
  Uninstalled none w = u.ignore_not_found ≡ true
  Uninstalled (some response) w =
      (t : Release) × (Storage.last drv name (record { driver = d; max_history = pos 0 }) ≡ ok t)
      × Kept drv name ns Sound at laws kube u t response w

  abbrev before : Storage.Storage D
  before = record { driver = d; max_history = pos 0 }

  last-Here :
      (rel : Release) (w : World K D)
      → Storage.last drv name before ≡ ok rel
      → w.releases.driver ≡ d
      → Here drv name ns Sound at laws kube u rel (record w { rl = rel })
  last-Here rel w newest same =
      let (own, stored) =
        subst (Storage.Sound.Holds (λ rel. IsRevision name ns rel × (at rel.version d ≡ some rel)))
          newest (last-Holds drv name ns Sound at laws before sound) in
      record {
        sound = subst Sound (sym same) sound;
        own = own;
        version = refl;
        content = refl;
        stored = ap (λ d. is_some (at rel.version d)) same ∙ ap is_some stored;
      }

  present-Uninstalled :
      (rel : Release) (rels : List Release) (waiter : V) (w : World K D)
      → Storage.last drv name before ≡ ok rel
      → w.releases.driver ≡ d
      → Ends Uninstalled (
          (change kube drv u (λ rl. rel)
              >> (uninstall_release kube drv u rels waiter name
                  >>= (λ response. pure (some response))))
            w)
  unfolding follow
  present-Uninstalled rel rels waiter w newest same =
      Ends-follow Uninstalled (Kept drv name ns Sound at laws kube u rel)
        (uninstall_release kube drv u rels waiter name (record w { rl = rel })) _
        (uninstall_release-Kept drv name ns Sound at laws kube u rel keep rels waiter name _
          (last-Here rel w newest same))
        (λ response w' kept. (rel, newest, kept))

  uninstall_last-Uninstalled :
      (back rels : List Release) (waiter : V) (w : World K D)
      → w.releases.driver ≡ d
      → ((rel : Release) (rest : List Release)
          → back ≡ rel ∷ rest
          → Storage.last drv name before ≡ ok rel)
      → Ends Uninstalled (uninstall_last kube drv u back rels waiter name w)
  unfolding uninstall_last uninstalled_already
  uninstall_last-Uninstalled [] rels waiter w same newest = tt
  uninstall_last-Uninstalled (rel ∷ rest) rels waiter w same newest =
      elim (Bool-cases (str_eq rel.info.status status_uninstalled)) [
        | inl already ↦ rw already (rw keep tt)
        | inr present ↦
            rw present (present-Uninstalled rel rels waiter w (newest rel rest refl) same)
      ]

  last-of :
      (rels : List Release) (rel : Release) (rest : List Release)
      → Storage.history drv name before ≡ ok rels
      → reverse (sort_by_revision rels) ≡ rel ∷ rest
      → Storage.last drv name before ≡ ok rel
  unfolding Storage.last Storage.newest_or reverse_sorted
  last-of rels rel rest listed back =
      ap (Storage.newest_or (no_revision name)) listed
      ∙ ap (λ l. elim l [ [] ↦ err (no_revision name) | r ∷ rs ↦ ok r ]) back

  history-Uninstalled :
      (r : Result (List Release)) (waiter : V) (w : World K D)
      → w.releases.driver ≡ d
      → Storage.history drv name before ≡ r
      → Ends Uninstalled (history_result kube drv u r waiter name w)
  unfolding history_result
  history-Uninstalled (err e) waiter w same listed = elim (Bool-cases u.ignore_not_found) [
    | inl ignored ↦ rw ignored refl
    | inr raised ↦ rw raised tt
  ]
  history-Uninstalled (ok rels) waiter w same listed =
      uninstall_last-Uninstalled (reverse (sort_by_revision rels)) (sort_by_revision rels) waiter w
        same (λ rel rest back. last-of rels rel rest listed back)

  load-Uninstalled :
      (waiter : V) (w : World K D)
      → w.releases.driver ≡ d
      → Ends Uninstalled (load_and_uninstall kube drv u waiter name w)
  unfolding follow Storage.history
  load-Uninstalled waiter w same = elim (Option-cases (validate_release_name name)) [
    | inr (e, invalid) ↦ rw invalid tt
    | inl valid ↦ rw valid (
        history-Uninstalled (Storage.history drv name w.releases) waiter w same
          (ap (λ d. drv.query (owned_by_helm name) d) (sym same)))
  ]

  started-Uninstalled :
      (live : u.dry_run ≡ false) (r : Result V × K) (w : World K D)
      → w.releases.driver ≡ d
      → Ends Uninstalled (
          (attempt plain (λ k. r) >>= (λ waiter.
              if u.dry_run
              then show_release kube drv u name
              else load_and_uninstall kube drv u waiter name))
            w)
  unfolding follow
  started-Uninstalled live (err e, k) w same = tt
  started-Uninstalled live (ok waiter, k) w same =
      subst
        (λ dry. Ends Uninstalled (
          (if dry then show_release kube drv u name else load_and_uninstall kube drv u waiter name)
            (record w { cluster = k })))
        (sym live) (load-Uninstalled waiter (record w { cluster = k }) same)

  -- `Run` with `KeepHistory`, not a dry run, over a driver that keeps to the laws of a history: if it
  -- returns without an error, then it has no response, which is only with `IgnoreNotFound`, or the
  -- response has the last revision `t` that the storage had before, which is stored then as the response
  -- has it, with the status "uninstalled" and with what `t` held.
  pub run_keeps_history :
      (live : u.dry_run ≡ false) (w : World K D)
      → w.releases.driver ≡ d
      → Ends Uninstalled (run kube drv u name w)
  unfolding run follow
  run_keeps_history live w same = elim (Option-cases (kube.is_reachable w.cluster).0) [
    | inr (e, lost) ↦ rw lost tt
    | inl reached ↦ rw reached (
        started-Uninstalled live (kube.get_waiter u.wait_strategy (kube.is_reachable w.cluster).1) _
          same)
  ]
