-- ===== src/Tests/Storage.antt =====
-- Runs of the storage engine over the in-memory driver, and its results at small stores.
use Prim.Native.Nat.{max}
use aws_ecommerce_k8s.Base.{false}
use aws_ecommerce_k8s.Base.{◌-◌, ◌≤◌, ◌≡◌, refl, none, some, length, keep_if, arith}
use aws_ecommerce_k8s.Base.Bytes.{str_eq}
use aws_ecommerce_k8s.Base.Int.{pos}
use aws_ecommerce_k8s.Release.Defs.{Release}
use aws_ecommerce_k8s.Release.Status.{status_deployed}
use aws_ecommerce_k8s.Driver.Errors.{no_revision, err_no_deployed_releases}
use aws_ecommerce_k8s.Driver.Memory.{memory_driver, query, or_not_found}
use aws_ecommerce_k8s.Driver.Memory.Valid.{IsValid}
use aws_ecommerce_k8s.Driver.Memory.Query.{revisions, query_owned_lem, query_deployed_lem}
use aws_ecommerce_k8s.Storage
use aws_ecommerce_k8s.Storage.{history, last, deployed, deployed_all, remove_least_recent}
use aws_ecommerce_k8s.Storage.Selectors.{owned_by_helm, deployed_by_helm}
use aws_ecommerce_k8s.Storage.Newest.{NewestOf, newest_revision}
use aws_ecommerce_k8s.Storage.Versions.{has_version}
use aws_ecommerce_k8s.Storage.Bound.{without_all}
use aws_ecommerce_k8s.Storage.Candidates.{oldest}
use aws_ecommerce_k8s.Storage.RemoveLeastRecent.{newest_deployed, remove_least_recent_lem}
use aws_ecommerce_k8s.Storage.Create.{create_bound}
use aws_ecommerce_k8s.Tests.Data.{third, shop, two, two-IsValid, full_store, runs}

newest_revision_example :
    NewestOf
      (no_revision shop)
      (history memory_driver shop full_store)
      (last memory_driver shop full_store)
    × NewestOf
        (err_no_deployed_releases shop)
        (deployed_all memory_driver shop full_store)
        (deployed memory_driver shop full_store)
newest_revision_example = newest_revision memory_driver shop full_store

query_owned_example :
    query (owned_by_helm shop) two ≡ or_not_found (revisions two.namespace shop two)
query_owned_example = query_owned_lem shop two two-IsValid (unfold runs in refl)

query_deployed_example :
    query (deployed_by_helm shop) two
    ≡ or_not_found
        (keep_if (λ rls. str_eq rls.info.status status_deployed) (revisions two.namespace shop two))
query_deployed_example = query_deployed_lem shop two two-IsValid (unfold runs in refl)

remove_least_recent_example :
    let h = revisions two.namespace shop two in
    let out = remove_least_recent memory_driver shop (pos 1) full_store in
    let left = revisions two.namespace shop out.1.driver in
    (out.0 ≡ none)
    × IsValid out.1.driver
    × (out.1.driver.namespace ≡ two.namespace)
    × (left ≡ without_all (oldest (length h - 1) (newest_deployed h) h) h)
    × (length left ≤ max 1 1)
    × ((d : Release)
        → newest_deployed h ≡ some d
        → has_version d.version left ≡ has_version d.version h)
remove_least_recent_example =
    remove_least_recent_lem shop full_store two-IsValid (unfold runs in refl) (unfold runs in refl)
      (unfold runs in omega arith) 1 (unfold runs in omega arith)

third_is_new : has_version third.version (revisions two.namespace third.name two) ≡ false
unfolding runs
third_is_new = refl

create_bound_example :
    let out = Storage.create memory_driver third full_store in
    (has_version third.version (revisions two.namespace third.name two) ≡ false → out.0 ≡ none)
    × (out.0 ≡ none → length (revisions two.namespace third.name out.1.driver) ≤ max 2 2)
create_bound_example =
    create_bound third full_store two-IsValid (unfold runs in refl) (unfold runs in refl)
      (unfold runs in refl) (unfold runs in omega arith) 1 refl
