-- ===== src/Release/ManifestSorter/Complete.antt =====
-- manifest_sorter.go: which documents become hooks, and which become other manifests.
use aws_ecommerce_k8s.Base.{
  ◌≡◌, true, Option, none, List, [], ◌∷◌, ◌++◌, map, keep_if, All, if◌then◌else◌,
}
use aws_ecommerce_k8s.Base.Bytes.{Bytes}
use aws_ecommerce_k8s.Base.Assoc.{Assoc}
use aws_ecommerce_k8s.Release.Hook.{Hook}
use aws_ecommerce_k8s.Release.Kinds.{SimpleHead, Manifest, KindSortOrder}
use aws_ecommerce_k8s.Release.Kinds.Laws.{IsKindSort}
use aws_ecommerce_k8s.Base.{◌<◌, ◌^◌, length}
use aws_ecommerce_k8s.Base.Space.{trim_space}
use aws_ecommerce_k8s.Release.Manifest.Order.{used}
use aws_ecommerce_k8s.Release.Manifest.{documents}
use aws_ecommerce_k8s.Release.ManifestSorter.{Sorted}
use aws_ecommerce_k8s.Driver.Errors.{Error, Result}
use aws_ecommerce_k8s.Driver.Labels
use aws_ecommerce_k8s.Release.ManifestSorter.Known.{is_left_out}
use aws_ecommerce_k8s.Release.ManifestSorter.Documents.{
  Document, hook_source, manifest_source, head_has, is_hook, is_generic, Adds,
}

-- The documents of a file, in their order in it: what the separators split, less what is empty.
abbrev pub documents_of : Bytes → Bytes → List Document
documents_of path content =
    if is_left_out path content
    then []
    else map (λ d. (path, trim_space d)) (used (documents (trim_space content)))

-- A file of fewer documents than an `int` can count.
abbrev pub IsCounted : Bytes → Type 0
IsCounted content = length (used (documents (trim_space content))) < 2 ^ 63

abbrev pub documents_in : Assoc Bytes → List Bytes → List Document
documents_in files [] = []
documents_in files (path ∷ paths) =
    documents_of path (Labels.get files path) ++ documents_in files paths

module _ (parse_head : Bytes → Result SimpleHead) where
  -- What a loop has added, if it ended without an error.
  abbrev Complete : List Document → Sorted → Sorted × Option Error → Type 0
  Complete docs before after =
      after.1 ≡ none
      → Adds parse_head docs before after.0
        × All (λ d. head_has (λ head. true) (parse_head d.1) ≡ true) docs

  -- The hooks and manifests, each sorted by its kind, of those that the documents are: `found` has them
  -- in the order of the documents.
  abbrev pub IsSplit : KindSortOrder → List Document → List Hook × List Manifest → Type 0
  IsSplit ordering docs (hooks, manifests) =
      (found : Sorted) × IsKindSort (λ h. h.kind) ordering hooks found.hooks
      × IsKindSort (λ m. m.head.kind) ordering manifests found.generic
      × (map hook_source found.hooks ≡ keep_if (is_hook parse_head) docs)
      × (map manifest_source found.generic ≡ keep_if (is_generic parse_head) docs)
      × All (λ d. head_has (λ head. true) (parse_head d.1) ≡ true) docs
