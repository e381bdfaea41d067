-- ===== src/Action/Rollback/Deployed.antt =====
-- rollback.go: which revision is deployed after a rollback.
use mathlib.Core.Path.{subst}
use aws_ecommerce_k8s.Base.{
  ◌≡◌, refl, sym, Bool, true, false, not, Option, some, List, [], ◌∷◌, ◌&&◌, arith, All, Bool-cases,
  Option-cases, inl, inr,
}
use aws_ecommerce_k8s.Base.Bytes.{Bytes, bytes, contains, str_eq}
use aws_ecommerce_k8s.Base.Int.{ℤ, eq_int, eq_int→eq, eq_int_refl}
use aws_ecommerce_k8s.Release.Status.{status_superseded, status_deployed}
use aws_ecommerce_k8s.Release.Defs.{Release}
use aws_ecommerce_k8s.Driver.Errors.{Error, ok, err, error_text, Result-cases}
use aws_ecommerce_k8s.Driver.Interface.{Driver}
use aws_ecommerce_k8s.Driver.History.{
  IsRevision, is_deployed, has_version, is_none_deployed, IsHistoryDriver,
}
use aws_ecommerce_k8s.Storage
use aws_ecommerce_k8s.Storage.Key.{make_key}
use aws_ecommerce_k8s.Storage.Selectors.{deployed_by_helm}
use aws_ecommerce_k8s.Action.Step.{Outcome, done, ◌>>◌, each, follow, Ends, Ends-follow, Ends-state}
use aws_ecommerce_k8s.Action.Kube.{KubeClient}
use aws_ecommerce_k8s.Action.World.{World, record_this}
use aws_ecommerce_k8s.Action.Errors.{ActionError, write}
use aws_ecommerce_k8s.Action.Rollback.{
  Rollback, change, with_status, supersede, finish_rollback, deployed_or_none, update_cluster,
  perform_rollback,
}
use aws_ecommerce_k8s.Action.Rollback.Stored.{
  IsStored, contents, record_this-Holds, changed-IsStored, update_cluster-Holds,
}

module _ {K D : Type 0} (drv : Driver D) (name ns : Bytes) (Sound : D → Type 0)
    (at : ℤ → D → Option Release) (laws : IsHistoryDriver drv name ns Sound at) (t : Release) where
  abbrev pub IsStoredHere : World K D → Type 0
  IsStoredHere = IsStored drv name ns Sound at laws t

  abbrev pub deployed_at : ℤ → World K D → Bool
  deployed_at u w = is_deployed (at u w.releases.driver)

  superseded_one :
      (rel : Release) (w : World K D) (u : ℤ)
      → IsRevision name ns rel
      → Sound w.releases.driver
      → deployed_at u (record_this {E = ActionError} drv (with_status status_superseded rel) w).1
        ≡ (deployed_at u w && not (eq_int rel.version u))
  unfolding Storage.update str_eq
  superseded_one rel w u own sound = ground (
    arith,
    laws.at-update (with_status status_superseded rel) w.releases.driver u own sound,
    eq_int→eq rel.version u,
  )

  module _ {R P V : Type 0} (kube : KubeClient K R P V) (r : Rollback) where
    -- What there is after the revisions `rels` were superseded.
    abbrev Superseded :
        List Release → World K D → Outcome ActionError (Unit {0}) × World K D → Type 0
    Superseded rels w after =
        IsStoredHere after.1
        × ((u : ℤ) → deployed_at u after.1 ≡ (deployed_at u w && not (has_version u rels)))

    supersede-Superseded :
        (rels : List Release) (w : World K D)
        → All (IsRevision name ns) rels
        → IsStoredHere w
        → Superseded rels w (supersede kube drv r rels w)
    unfolding supersede each follow
    supersede-Superseded [] w own h = (h, λ u. ground arith)
    supersede-Superseded (rel ∷ rels) w own h =
        let (here, left) =
          supersede-Superseded rels
            (record_this {E = ActionError} drv (with_status status_superseded rel) w).1 own.1
            (record_this-Holds drv name ns Sound at laws t (with_status status_superseded rel) own.0
              w h) in
        (here, λ u. ground (arith, left u, superseded_one rel w u own.0 h.sound))

    -- The answer to the question for the deployed revisions.
    abbrev Listed : World K D → List Release → World K D → Type 0
    Listed w rels w' =
        (w' ≡ w) × All (IsRevision name ns) rels × ((u : ℤ) → has_version u rels ≡ deployed_at u w)

    none-Listed :
        (w : World K D) (e : Error)
        → Sound w.releases.driver
        → drv.query (deployed_by_helm name) w.releases.driver ≡ err e
        → is_none_deployed e ≡ true
        → Listed w [] w
    none-Listed w e sound asked recognised =
        (refl, tt, λ u. sym (laws.none-deployed w.releases.driver e u sound asked recognised))

    abbrev says_none : Error → Bool
    says_none e = contains (error_text e) (bytes "has no deployed releases")

    refusal-Listed :
        (w : World K D) (e : Error)
        → (says_none e ≡ true → Listed w [] w)
        → Ends (Listed w) (deployed_or_none kube drv r (err e) w)
    unfolding deployed_or_none
    refusal-Listed w e listed = elim (Bool-cases (says_none e)) [
      | inl said ↦ rw said (listed said)
      | inr other ↦ rw other tt
    ]

    answer-Listed :
        (w : World K D) (rels : List Release)
        → Listed w rels w
        → Ends (Listed w) (deployed_or_none kube drv r (ok rels) w)
    unfolding deployed_or_none
    answer-Listed w rels listed = listed

    deployed-Listed :
        (w : World K D)
        → Sound w.releases.driver
        → Ends (Listed w) (deployed_or_none kube drv r (Storage.deployed_all drv name w.releases) w)
    unfolding Storage.deployed_all Storage.deployed_all_result
    deployed-Listed w sound =
        elim (Result-cases (drv.query (deployed_by_helm name) w.releases.driver)) [
          | inl (rels, asked) ↦ rw asked (
              answer-Listed w rels (
                refl,
                laws.deployed-IsRevision w.releases.driver rels sound asked,
                λ u. laws.deployed-versions w.releases.driver rels u sound asked,
              ))
          | inr (e, asked) ↦
              rw asked (elim (Bool-cases (contains (error_text e) (bytes "not found"))) [
                | inl missing ↦ rw missing (
                    refusal-Listed w _
                      (λ said. none-Listed w e sound asked (ground (arith, missing))))
                | inr other ↦ rw other (
                    refusal-Listed w e (λ said. none-Listed w e sound asked (ground (arith, said))))
              ])
        ]

    -- Once the cluster is updated, what is left to do deploys the new release and nothing else.
    abbrev pub Finished : Unit {0} → World K D → Type 0
    Finished _ w =
        IsStoredHere w × (w.rl.info.status ≡ status_deployed) × ((u : ℤ) → deployed_at u w ≡ false)

    superseded-Finished :
        (rels : List Release) (w w' : World K D)
        → IsStoredHere w
        → Listed w rels w'
        → Ends Finished ((supersede kube drv r rels >> change (with_status status_deployed)) w')
    superseded-Finished rels w w' h (same, own, versions) =
        let after = supersede-Superseded rels w own h in
        subst
          (λ w'.
            Ends Finished ((supersede kube drv r rels >> change (with_status status_deployed)) w'))
          (sym same)
          (Ends-follow Finished (λ _ w2. Superseded rels w (done tt, w2))
            (supersede kube drv r rels w) _
            (Ends-state (λ w2. Superseded rels w (done tt, w2)) (supersede kube drv r rels w) after)
            (λ _ w2 left. (
              changed-IsStored drv name ns Sound at laws t (with_status status_deployed)
                  (λ rl. (refl, refl, refl, refl)) w2 left.0,
              refl,
              λ u. ground (arith, left.1 u, versions u),
            )))

    finish-Finished :
        (current : Release) (w : World K D)
        → current.name ≡ name
        → IsStoredHere w
        → Ends Finished (finish_rollback kube drv r current w)
    unfolding finish_rollback
    finish-Finished current w named h =
        Ends-follow Finished (Listed w) _ _
          (subst
            (λ n.
              Ends (Listed w)
                (deployed_or_none kube drv r (Storage.deployed_all drv n w.releases) w))
            (sym named) (deployed-Listed w h.sound))
          (λ rels w' listed. superseded-Finished rels w w' h listed)

    -- The new release is the only deployed revision, and stored as it is.
    abbrev pub Deployed : Unit {0} → World K D → Type 0
    Deployed _ w =
        (at t.version w.releases.driver ≡ some w.rl)
        × (contents w.rl ≡ contents t)
        × (w.rl.info.status ≡ status_deployed)
        × ((u : ℤ) → deployed_at u w ≡ eq_int t.version u)

    pub perform-Finished :
        (current : Release) (w : World K D)
        → r.dry_run ≡ false
        → IsRevision name ns current
        → IsStoredHere w
        → Ends Finished (perform_rollback kube drv r current w)
    unfolding perform_rollback
    perform-Finished current w real own h = rw real (
        Ends-follow Finished (λ _. IsStoredHere) (update_cluster kube drv r current w) _
          (Ends-state IsStoredHere (update_cluster kube drv r current w)
            (update_cluster-Holds drv name ns Sound at laws kube r t current own w h))
          (λ _ w' h'. finish-Finished current w' own.0 h'))

    pub update-Deployed :
        (w : World K D) → Finished tt w → Ends Deployed (write (Storage.update drv w.rl) w)
    unfolding Storage.update str_eq
    update-Deployed w (h, status, nothing) =
        elim (Option-cases
          (drv.update (make_key w.rl.name w.rl.version) w.rl w.releases.driver).0) [
            | inr (e, failed) ↦ rw failed tt
            | inl fine ↦ rw fine (
              ground (
                arith,
                laws.at-update w.rl w.releases.driver t.version h.own h.sound,
                h.version,
                h.stored,
                eq_int_refl w.rl.version,
              ),
              h.content,
              status,
              λ u. ground (
                arith,
                laws.at-update w.rl w.releases.driver u h.own h.sound,
                h.version,
                h.stored,
                status,
                nothing u,
              ),
            )
          ]
