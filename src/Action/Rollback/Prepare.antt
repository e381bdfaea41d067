-- ===== src/Action/Rollback/Prepare.antt =====
-- rollback.go: what `prepareRollback` gives.
use aws_ecommerce_k8s.Base.{
  ◌≡◌, refl, sym, ◌∙◌, true, false, List, [], ◌∷◌, arith, none, Bool-cases, Option-cases, inl, inr,
}
use aws_ecommerce_k8s.Base.Bytes.{Bytes}
use aws_ecommerce_k8s.Base.Int.{ℤ, pos, lt_int, eq_int, eq_int→eq, eq_int_refl, add_one, sub_one}
use aws_ecommerce_k8s.Release.Defs.{Release}
use aws_ecommerce_k8s.Driver.Errors.{ok, Result-cases}
use aws_ecommerce_k8s.Release.Status.{status_pending_rollback}
use aws_ecommerce_k8s.Driver.History.{has_version}
use aws_ecommerce_k8s.Driver.Interface.{Driver}
use aws_ecommerce_k8s.Chart.Names.{validate_release_name}
use aws_ecommerce_k8s.Storage
use aws_ecommerce_k8s.Action.Step.{follow, Ends}
use aws_ecommerce_k8s.Action.Kube.{KubeClient}
use aws_ecommerce_k8s.Action.World.{World}
use aws_ecommerce_k8s.Action.Rollback.{
  Rollback, prepare_rollback, version_exists, previous_version, target_release,
}

module _ {K R P V D : Type 0} (kube : KubeClient K R P V) (drv : Driver D) (r : Rollback)
    (name : Bytes) (w : World K D) where
  -- The target has what the earlier revision holds, as the pending revision after the current one.
  pub record IsTarget (current previous target : Release) : Type 0 where
    pub name_is : target.name ≡ name
    pub namespace_is : target.namespace ≡ current.namespace
    pub chart_is : target.chart ≡ previous.chart
    pub config_is : target.config ≡ previous.config
    pub manifest_is : target.manifest ≡ previous.manifest
    pub hooks_are : target.hooks ≡ previous.hooks
    pub labels_are : target.labels ≡ previous.labels
    pub notes_are : target.info.notes ≡ previous.info.notes
    pub version_is : target.version ≡ add_one current.version
    pub status_is : target.info.status ≡ status_pending_rollback
    pub first_deployed_is : target.info.first_deployed ≡ current.info.first_deployed
    pub last_deployed_is : target.info.last_deployed ≡ kube.now w.cluster

  -- The two releases that a rollback works on, and the revision that it goes back to.
  pub record IsPrepared (current target : Release) : Type 0 where
    pub valid : validate_release_name name ≡ none
    pub not_negative : lt_int r.version (pos 0) ≡ false
    pub current_is : Storage.last drv name w.releases ≡ ok current
    pub version : ℤ
    pub asked : eq_int r.version (pos 0) ≡ false → version ≡ r.version
    pub not_asked : eq_int r.version (pos 0) ≡ true → add_one version ≡ current.version
    pub history : List Release
    pub history_is : Storage.history drv name w.releases ≡ ok history
    pub listed : has_version version history ≡ true
    pub previous : Release
    pub previous_is : Storage.get drv name version w.releases ≡ ok previous
    pub target_is : IsTarget current previous target

  abbrev pub Prepared : Release × Release → World K D → Type 0
  Prepared releases w' = (w' ≡ w) × IsPrepared releases.0 releases.1

  add_one-sub_one : (v : ℤ) → add_one (sub_one v) ≡ v
  add_one-sub_one v = ground arith

  version_exists-has_version :
      (v : ℤ) (rels : List Release) → version_exists v rels ≡ has_version v rels
  unfolding version_exists
  version_exists-has_version v [] = refl
  version_exists-has_version v (rel ∷ rels) = ground (
    arith,
    version_exists-has_version v rels,
    eq_int→eq v rel.version,
    eq_int→eq rel.version v,
    eq_int_refl v,
  )

  target_release-IsTarget :
      (current previous : Release)
      → IsTarget current previous (
          target_release name current previous
            (previous_version r.version current)
            (kube.now w.cluster))
  unfolding target_release
  target_release-IsTarget current previous = record {
    name_is = refl;
    namespace_is = refl;
    chart_is = refl;
    config_is = refl;
    manifest_is = refl;
    hooks_are = refl;
    labels_are = refl;
    notes_are = refl;
    version_is = refl;
    status_is = refl;
    first_deployed_is = refl;
    last_deployed_is = refl;
  }

  pub prepare_rollback_lem : Ends Prepared (prepare_rollback kube drv r name w)
  unfolding prepare_rollback follow
  prepare_rollback_lem = elim (Option-cases (validate_release_name name)) [
    | inr (e, bad) ↦ rw bad tt
    | inl good ↦ rw good (elim (Bool-cases (lt_int r.version (pos 0))) [
      | inl below ↦ rw below tt
      | inr fine ↦ rw fine (elim (Result-cases (Storage.last drv name w.releases)) [
        | inr (e, failed) ↦ rw failed tt
        | inl (current, last) ↦ rw last (elim (Result-cases (Storage.history drv name w.releases)) [
          | inr (e, failed) ↦ rw failed tt
          | inl (history, listed) ↦
              rw listed
                (elim (Bool-cases (version_exists (previous_version r.version current) history)) [
                  | inr missing ↦ rw missing tt
                  | inl there ↦
                      rw there
                        (elim (Result-cases
                          (Storage.get drv name (previous_version r.version current) w.releases)) [
                            | inr (e, failed) ↦ rw failed tt
                            | inl (previous, found) ↦ rw found (
                              refl,
                              record {
                                valid = good;
                                not_negative = fine;
                                current_is = last;
                                version = previous_version r.version current;
                                asked = λ other. ground (arith, other);
                                not_asked = λ none_asked.
                                    ground (arith, none_asked, add_one-sub_one current.version);
                                history = history;
                                history_is = listed;
                                listed = sym (version_exists-has_version _ history) ∙ there;
                                previous = previous;
                                previous_is = found;
                                target_is = target_release-IsTarget current previous;
                              },
                            )
                          ])
                ])
        ])
      ])
    ])
  ]
