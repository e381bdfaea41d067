-- ===== src/Action/Uninstall/Policy.antt =====
-- resource_policy.go: which manifests are kept, deleted, or neither.
use aws_ecommerce_k8s.Base.{
  ◌≡◌, refl, Bool, false, not, Option, none, some, List, [], ◌∷◌, is_some, arith, keep_if,
}
use aws_ecommerce_k8s.Base.Bytes.{Bytes, bytes, str_eq}
use aws_ecommerce_k8s.Base.Assoc.{lookup}
use aws_ecommerce_k8s.Base.Space.{trim_space, to_lower}
use aws_ecommerce_k8s.Release.Kinds.{Manifest, Metadata}
use aws_ecommerce_k8s.Action.Uninstall.{filter_manifests_to_keep, policy_in, policy_of, is_keep}

-- The annotation for the resource policy, and whether it says "keep" in any case, with any white space
-- around.
abbrev pub annotation_in : Option Metadata → Option Bytes
annotation_in none = none
annotation_in (some metadata) = lookup (bytes "helm.sh/resource-policy") metadata.annotations

abbrev pub annotation : Manifest → Option Bytes
annotation m = annotation_in m.head.metadata

abbrev pub says_keep : Option Bytes → Bool
says_keep none = false
says_keep (some policy) = str_eq (to_lower (trim_space policy)) (bytes "keep")

policy_in-annotation : (metadata : Option Metadata) → policy_in metadata ≡ annotation_in metadata
policy_in-annotation none = refl
policy_in-annotation (some metadata) = refl

policy_of-annotation : (m : Manifest) → policy_of m ≡ annotation m
unfolding policy_of
policy_of-annotation m = policy_in-annotation m.head.metadata

-- Of the manifests, those whose annotation for the resource policy says "keep", in any case and with any
-- white space around, are kept, and those without the annotation remain for deletion, each in their
-- order. One with another policy is in neither list.
pub filter_manifests_to_keep_lem :
    (ms : List Manifest)
    → filter_manifests_to_keep ms
      ≡ (keep_if (λ m. says_keep (annotation m)) ms, keep_if (λ m. not (is_some (annotation m))) ms)
unfolding filter_manifests_to_keep keep_if is_keep
filter_manifests_to_keep_lem [] = refl
filter_manifests_to_keep_lem (m ∷ ms) =
    ground (arith, filter_manifests_to_keep_lem ms, policy_of-annotation m)
