-- ===== src/Release/Kinds.antt =====
-- kind_sorter.go of pkg/release/util: the order of manifests and hooks by their kinds.
pub mod Laws
use aws_ecommerce_k8s.Base.{
  ℕ, suc, Bool, true, false, not, Option, none, some, List, [], ◌∷◌, if◌then◌else◌, ltb,
}
use aws_ecommerce_k8s.Base.Bytes.{Bytes, bytes, str_eq, str_lt}
use aws_ecommerce_k8s.Base.Assoc.{Assoc, lookup, insert}
use aws_ecommerce_k8s.Base.Sort.{sort_by}
use aws_ecommerce_k8s.Release.Hook.{Hook}

-- `SimpleHead`, with the fields of its metadata in a record of their own.
pub record Metadata : Type 0 where
  pub name : Bytes
  pub annotations : Assoc Bytes

pub record SimpleHead : Type 0 where
  pub version : Bytes
  pub kind : Bytes
  pub metadata : Option Metadata

pub record Manifest : Type 0 where
  pub name : Bytes
  pub content : Bytes
  pub head : SimpleHead

abbrev pub KindSortOrder : Type 0
KindSortOrder = List Bytes

abbrev pub install_order : KindSortOrder
install_order =
    bytes "PriorityClass"
    ∷ bytes "Namespace"
    ∷ bytes "NetworkPolicy"
    ∷ bytes "ResourceQuota"
    ∷ bytes "LimitRange"
    ∷ bytes "PodSecurityPolicy"
    ∷ bytes "PodDisruptionBudget"
    ∷ bytes "ServiceAccount"
    ∷ bytes "Secret"
    ∷ bytes "SecretList"
    ∷ bytes "ConfigMap"
    ∷ bytes "StorageClass"
    ∷ bytes "PersistentVolume"
    ∷ bytes "PersistentVolumeClaim"
    ∷ bytes "CustomResourceDefinition"
    ∷ bytes "ClusterRole"
    ∷ bytes "ClusterRoleList"
    ∷ bytes "ClusterRoleBinding"
    ∷ bytes "ClusterRoleBindingList"
    ∷ bytes "Role"
    ∷ bytes "RoleList"
    ∷ bytes "RoleBinding"
    ∷ bytes "RoleBindingList"
    ∷ bytes "Service"
    ∷ bytes "DaemonSet"
    ∷ bytes "Pod"
    ∷ bytes "ReplicationController"
    ∷ bytes "ReplicaSet"
    ∷ bytes "Deployment"
    ∷ bytes "HorizontalPodAutoscaler"
    ∷ bytes "StatefulSet"
    ∷ bytes "Job"
    ∷ bytes "CronJob"
    ∷ bytes "IngressClass"
    ∷ bytes "Ingress"
    ∷ bytes "APIService"
    ∷ bytes "MutatingWebhookConfiguration"
    ∷ bytes "ValidatingWebhookConfiguration"
    ∷ []

abbrev pub uninstall_order : KindSortOrder
uninstall_order =
    bytes "ValidatingWebhookConfiguration"
    ∷ bytes "MutatingWebhookConfiguration"
    ∷ bytes "APIService"
    ∷ bytes "Ingress"
    ∷ bytes "IngressClass"
    ∷ bytes "Service"
    ∷ bytes "CronJob"
    ∷ bytes "Job"
    ∷ bytes "StatefulSet"
    ∷ bytes "HorizontalPodAutoscaler"
    ∷ bytes "Deployment"
    ∷ bytes "ReplicaSet"
    ∷ bytes "ReplicationController"
    ∷ bytes "Pod"
    ∷ bytes "DaemonSet"
    ∷ bytes "RoleBindingList"
    ∷ bytes "RoleBinding"
    ∷ bytes "RoleList"
    ∷ bytes "Role"
    ∷ bytes "ClusterRoleBindingList"
    ∷ bytes "ClusterRoleBinding"
    ∷ bytes "ClusterRoleList"
    ∷ bytes "ClusterRole"
    ∷ bytes "CustomResourceDefinition"
    ∷ bytes "PersistentVolumeClaim"
    ∷ bytes "PersistentVolume"
    ∷ bytes "StorageClass"
    ∷ bytes "ConfigMap"
    ∷ bytes "SecretList"
    ∷ bytes "Secret"
    ∷ bytes "ServiceAccount"
    ∷ bytes "PodDisruptionBudget"
    ∷ bytes "PodSecurityPolicy"
    ∷ bytes "LimitRange"
    ∷ bytes "ResourceQuota"
    ∷ bytes "NetworkPolicy"
    ∷ bytes "Namespace"
    ∷ bytes "PriorityClass"
    ∷ []

-- The map from a kind to its place; of a kind that stands twice, the last place.
unfoldable pub ordering_from : ℕ → KindSortOrder → Assoc ℕ → Assoc ℕ
unfolding insert
ordering_from v [] ordering = ordering
ordering_from v (k ∷ o) ordering = ordering_from (suc v) o (insert k v ordering)

-- The comparison of two kinds by their places, where they have one.
unfoldable pub less_placed : Bytes → Bytes → Option ℕ → Option ℕ → Bool
unfolding str_lt str_eq
less_placed kind_a kind_b none none =
    if not (str_eq kind_a kind_b) then str_lt kind_a kind_b else false
less_placed kind_a kind_b none (some second) = false
less_placed kind_a kind_b (some first) none = true
less_placed kind_a kind_b (some first) (some second) = ltb first second

-- `ordering[kind]`
unfoldable pub place : KindSortOrder → Bytes → Option ℕ
unfolding ordering_from lookup
place o kind = lookup kind (ordering_from 0 o [])

unfoldable pub less_by_kind : Bytes → Bytes → KindSortOrder → Bool
unfolding less_placed place
less_by_kind kind_a kind_b o = less_placed kind_a kind_b (place o kind_a) (place o kind_b)

unfoldable pub sort_manifests_by_kind : List Manifest → KindSortOrder → List Manifest
unfolding sort_by
sort_manifests_by_kind manifests ordering =
    sort_by (λ a b. less_by_kind a.head.kind b.head.kind ordering) manifests

unfoldable pub sort_hooks_by_kind : List Hook → KindSortOrder → List Hook
unfolding sort_by
sort_hooks_by_kind hooks ordering = sort_by (λ a b. less_by_kind a.kind b.kind ordering) hooks
