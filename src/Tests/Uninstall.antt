-- ===== src/Tests/Uninstall.antt =====
-- An uninstallation over the in-memory driver, and manifests with resource policies.
use aws_ecommerce_k8s.Base.{
  ◌≡◌, refl, true, false, not, some, none, List, [], ◌∷◌, is_some, keep_if, arith,
}
use aws_ecommerce_k8s.Base.Bytes.{Bytes, bytes, str_eq}
use aws_ecommerce_k8s.Base.Assoc.{lookup}
use aws_ecommerce_k8s.Base.Space.{trim_space, to_lower}
use aws_ecommerce_k8s.Release.Kinds.{Manifest}
use aws_ecommerce_k8s.Driver.Memory.{memory_driver}
use aws_ecommerce_k8s.Driver.Memory.History.{IsSound, revision_at, memory-IsHistoryDriver}
use aws_ecommerce_k8s.Action.Step.{Ends}
use aws_ecommerce_k8s.Action.Uninstall.{
  Uninstall, run, filter_manifests_to_keep, policy_of, is_keep, resource_policy_anno,
}
use aws_ecommerce_k8s.Action.Uninstall.Policy.{annotation, says_keep, filter_manifests_to_keep_lem}
use aws_ecommerce_k8s.Action.Uninstall.Run.{Uninstalled, run_keeps_history}
use aws_ecommerce_k8s.Action.Uninstall.Purged.{Purged, AreInt64, run_purges_history}
use aws_ecommerce_k8s.Driver.Errors.{ok}
use aws_ecommerce_k8s.Storage
use aws_ecommerce_k8s.Tests.Data.{shop, first, second, two, full_store, runs}
use aws_ecommerce_k8s.Tests.Hooks.{steady}
use aws_ecommerce_k8s.Tests.Rollback.{home, two-IsSound, before}

-- `helm uninstall shop --keep-history`
abbrev keeping : Uninstall
keeping = record {
  disable_hooks = false;
  dry_run = false;
  ignore_not_found = false;
  keep_history = true;
  wait_strategy = bytes "watcher";
  deletion_propagation = bytes "background";
  timeout = 300;
  description = [];
}

run_keeps_history_example :
    Ends
      (Uninstalled memory_driver shop home
        (IsSound shop home)
        (revision_at shop home)
        (memory-IsHistoryDriver shop home)
        steady
        keeping
        refl
        two
        two-IsSound)
      (run steady memory_driver keeping shop before)
run_keeps_history_example =
    run_keeps_history memory_driver shop home (IsSound shop home) (revision_at shop home)
      (memory-IsHistoryDriver shop home) steady keeping refl two two-IsSound refl before refl

abbrev with_policy : Bytes → Manifest
with_policy policy = record {
  name = bytes "shop/templates/volume.yaml";
  content = bytes "kind: PersistentVolumeClaim";
  head = record {
    version = bytes "v1";
    kind = bytes "PersistentVolumeClaim";
    metadata =
        some (record { name = bytes "orders"; annotations = (resource_policy_anno, policy) ∷ [] });
  };
}

abbrev plain_manifest : Manifest
plain_manifest = record {
  name = bytes "shop/templates/web.yaml";
  content = bytes "kind: Service";
  head = record { version = bytes "v1"; kind = bytes "Service"; metadata = none };
}

abbrev manifests : List Manifest
manifests = plain_manifest ∷ with_policy (bytes " Keep") ∷ with_policy (bytes "delete") ∷ []

-- The manifest with the policy "delete" is in neither list.
neither :
    filter_manifests_to_keep manifests ≡ (with_policy (bytes " Keep") ∷ [], plain_manifest ∷ [])
unfolding filter_manifests_to_keep policy_of is_keep lookup trim_space to_lower str_eq
neither = refl

filter_manifests_to_keep_example : filter_manifests_to_keep manifests ≡ (
  keep_if (λ m. says_keep (annotation m)) manifests,
  keep_if (λ m. not (is_some (annotation m))) manifests,
)
filter_manifests_to_keep_example = filter_manifests_to_keep_lem manifests

-- `helm uninstall shop`
abbrev removing : Uninstall
removing = record keeping { keep_history = false }

listed : Storage.history memory_driver shop full_store ≡ ok (first ∷ second ∷ [])
unfolding Storage.history runs
listed = refl

fits :
    AreInt64 memory_driver shop home
      (IsSound shop home)
      (revision_at shop home)
      (memory-IsHistoryDriver shop home)
      steady
      removing
      refl
      (Storage.history memory_driver shop full_store)
fits = rw listed (omega arith, (omega arith, tt))

run_purges_history_example :
    Ends
      (Purged memory_driver shop home
        (IsSound shop home)
        (revision_at shop home)
        (memory-IsHistoryDriver shop home)
        steady
        removing
        refl)
      (run steady memory_driver removing shop before)
run_purges_history_example =
    run_purges_history memory_driver shop home (IsSound shop home) (revision_at shop home)
      (memory-IsHistoryDriver shop home) steady removing refl refl before two-IsSound fits
