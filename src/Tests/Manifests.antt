-- ===== src/Tests/Manifests.antt =====
-- A rendered file with a manifest and a hook.
use aws_ecommerce_k8s.Release.Manifest.Order.{used, split_manifests_lem}
use aws_ecommerce_k8s.Base.{
  keep_if, arith, map, length, ◌<◌, ◌^◌, ◌≡◌, refl, none, some, List, [], ◌∷◌, if◌then◌else◌,
}
use aws_ecommerce_k8s.Base.Bytes.{Bytes, bytes, str_eq, str_lt, has_prefix, split}
use aws_ecommerce_k8s.Base.Assoc.{Assoc, lookup, insert}
use aws_ecommerce_k8s.Base.Decimal.{itoa, atoi}
use aws_ecommerce_k8s.Base.Sort.{sort_by}
use aws_ecommerce_k8s.Base.Space.{trim_space}
use aws_ecommerce_k8s.Driver.Errors.{Result, ok}
use aws_ecommerce_k8s.Driver.Labels
use aws_ecommerce_k8s.Release.Kinds.{SimpleHead}
use aws_ecommerce_k8s.Release.Manifest.{
  split_manifests, documents, split_documents, first_separator, separator_at, space_run,
  number_documents, by_split_manifests_order, manifest_number,
}
use aws_ecommerce_k8s.Release.ManifestSorter.{hook_annotation, is_skipped, base_of}
use aws_ecommerce_k8s.Release.ManifestSorter.Complete.{documents_in}

-- Reads the head of the two documents below.
abbrev head_of : Bytes → Result SimpleHead
head_of m = ok (record {
  version = bytes "v1";
  kind = if has_prefix m (bytes "kind: Job") then bytes "Job" else bytes "Service";
  metadata =
      if has_prefix m (bytes "kind: Job")
      then some (record {
        name = bytes "migrate";
        annotations = (hook_annotation, bytes "pre-install, Post-Upgrade") ∷ [];
      })
      else none;
})

abbrev files : Assoc Bytes
files =
    (bytes "shop/templates/web.yaml", bytes "kind: Service\n---\nkind: Job")
    ∷ (bytes "shop/templates/_helpers.tpl", bytes "kind: Nothing")
    ∷ []

abbrev texts : List (Bytes × Bytes)
texts =
    (bytes "shop/templates/web.yaml", bytes "kind: Service")
    ∷ (bytes "shop/templates/web.yaml", bytes "kind: Job")
    ∷ []

-- The partial is skipped, and the other file is split into its documents.
two_documents : documents_in files (sort_by str_lt (Labels.keys files)) ≡ texts
unfolding sort_by str_lt Labels.keys Labels.get lookup insert split_manifests documents
    split_documents first_separator separator_at space_run number_documents by_split_manifests_order
    manifest_number is_skipped base_of split has_prefix trim_space str_eq itoa atoi keep_if
two_documents = refl

few : length (used (documents (trim_space (bytes "kind: Service\n---\nkind: Job")))) < 2 ^ 63
unfolding documents split_documents first_separator separator_at space_run has_prefix trim_space
    str_eq keep_if
few = omega arith

split_manifests_example :
    let entries = split_manifests (bytes "kind: Service\n---\nkind: Job") in
    map (λ key. Labels.get entries key) (sort_by by_split_manifests_order (Labels.keys entries))
    ≡ map trim_space (used (documents (trim_space (bytes "kind: Service\n---\nkind: Job"))))
split_manifests_example = split_manifests_lem (bytes "kind: Service\n---\nkind: Job") few
