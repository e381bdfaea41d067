-- ===== src/Action/Uninstall/Kept.antt =====
-- uninstall.go: an uninstallation that keeps the history.
use aws_ecommerce_k8s.Base.{◌≡◌, true, Option, some, List, [], ◌∷◌, arith}
use aws_ecommerce_k8s.Base.Bytes.{Bytes}
use aws_ecommerce_k8s.Base.Int.{ℤ, eq_int_refl}
use aws_ecommerce_k8s.Release.Status.{status_uninstalled}
use aws_ecommerce_k8s.Release.Defs.{Release}
use aws_ecommerce_k8s.Driver.Errors.{Error}
use aws_ecommerce_k8s.Driver.Interface.{Driver}
use aws_ecommerce_k8s.Driver.History.{IsHistoryDriver}
use aws_ecommerce_k8s.Storage
use aws_ecommerce_k8s.Action.Step.{done, ◌>>◌, follow, gets, Ends}
use aws_ecommerce_k8s.Action.Uninstall.Steps.{IsKept, uninstall_release-Ends}
use aws_ecommerce_k8s.Action.Kube.{KubeClient}
use aws_ecommerce_k8s.Action.World.{World, record_release}
use aws_ecommerce_k8s.Action.Hooks.{HookError}
use aws_ecommerce_k8s.Action.Errors.{ActionError}
use aws_ecommerce_k8s.Action.Rollback.Stored.{
  IsStored, contents, cluster-Holds, changed-IsStored, record_release-Holds,
}
use aws_ecommerce_k8s.Action.Uninstall.{
  Uninstall, Response, uninstall_release, finish_history, completed,
}

module _ {K D R P V : Type 0} (drv : Driver D) (name ns : Bytes) (Sound : D → Type 0)
    (at : ℤ → D → Option Release) (laws : IsHistoryDriver drv name ns Sound at)
    (kube : KubeClient K R P V) (u : Uninstall) (t : Release) where
  abbrev pub Here : World K D → Type 0
  Here = IsStored drv name ns Sound at laws t

  Here-IsKept : IsKept drv Here
  Here-IsKept = record {
    cluster = cluster-Holds drv name ns Sound at laws t;
    changed = λ f same w h. changed-IsStored drv name ns Sound at laws t f same w h;
    recorded = record_release-Holds drv name ns Sound at laws ActionError t;
  }

  -- The response is the release as it is stored then: uninstalled, with what it held.
  abbrev pub Kept : Response → World K D → Type 0
  Kept response w =
      (at t.version w.releases.driver ≡ some response.release)
      × (response.release.info.status ≡ status_uninstalled)
      × (contents response.release ≡ contents t)

  record_release-at :
      (w : World K D)
      → Here w
      → at t.version (record_release {E = ActionError} drv w).1.releases.driver ≡ some w.rl
  unfolding Storage.update
  record_release-at w h = ground (
    arith,
    laws.at-update w.rl w.releases.driver t.version h.own h.sound,
    h.version,
    h.stored,
    eq_int_refl w.rl.version,
  )

  completed-Kept :
      (info : Bytes) (waits : List Error) (hooks : List HookError) (w : World K D)
      → at t.version w.releases.driver ≡ some w.rl
      → w.rl.info.status ≡ status_uninstalled
      → contents w.rl ≡ contents t
      → Ends Kept (
          follow
            (completed kube drv u waits hooks [] w)
            (λ _ w. (done (record { release = w.rl; info = info }), w)))
  unfolding completed follow
  completed-Kept info [] [] w stored status content = (stored, status, content)
  completed-Kept info (e ∷ es) hooks w stored status content = tt
  completed-Kept info [] (e ∷ es) w stored status content = tt

  module _ (keep : u.keep_history ≡ true) where
    finish-Kept :
        (rels : List Release) (info : Bytes) (waits : List Error) (hooks : List HookError)
        (w : World K D)
        → Here w
        → w.rl.info.status ≡ status_uninstalled
        → Ends Kept (
            follow (finish_history kube drv u rels w) (λ purges.
              completed kube drv u waits hooks purges
              >> gets (λ w. record { release = w.rl; info = info })))
    unfolding finish_history follow completed
    finish-Kept rels info waits hooks w h status =
        rw keep (completed-Kept info waits hooks _ (record_release-at w h) status h.content)

    pub uninstall_release-Kept :
        (rels : List Release) (waiter : V) (asked : Bytes) (w : World K D)
        → Here w
        → Ends Kept (uninstall_release kube drv u rels waiter asked w)
    uninstall_release-Kept rels =
        uninstall_release-Ends drv Here Here-IsKept kube u Kept rels (finish-Kept rels)
