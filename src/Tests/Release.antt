-- ===== src/Tests/Release.antt =====
-- Sorts of small lists.
use aws_ecommerce_k8s.Base.{List, [], ◌∷◌, ltb}
use aws_ecommerce_k8s.Base.Bytes.{str_lt}
use aws_ecommerce_k8s.Base.Int.{lt_int}
use aws_ecommerce_k8s.Base.Sort.{IsSortedBy}
use aws_ecommerce_k8s.Release.Hook.{Hook}
use aws_ecommerce_k8s.Release.Sorter.{sort_by_name, sort_by_date, sort_by_revision, reverse_sorted}
use aws_ecommerce_k8s.Release.Sorter.Laws.{IsSorting, sorts_lem}
use aws_ecommerce_k8s.Release.Kinds.{
  Manifest, install_order, sort_manifests_by_kind, sort_hooks_by_kind,
}
use aws_ecommerce_k8s.Release.Kinds.Laws.{IsKindSort, sort_by_kind_lem}
use aws_ecommerce_k8s.Tests.Data.{first, second, third}

sorts_example :
    let ls = third ∷ first ∷ second ∷ [] in
    IsSorting (λ a b. str_lt a.name b.name) (sort_by_name ls) ls
    × IsSorting (λ a b. ltb a.info.last_deployed b.info.last_deployed) (sort_by_date ls) ls
    × IsSorting (λ a b. lt_int a.version b.version) (sort_by_revision ls) ls
    × IsSortedBy (λ a b. lt_int b.version a.version) (reverse_sorted ls sort_by_revision)
sorts_example = sorts_lem (third ∷ first ∷ second ∷ [])

sort_by_kind_example :
    ((manifests : List Manifest)
      → IsKindSort
          (λ m. m.head.kind)
          install_order
          (sort_manifests_by_kind manifests install_order)
          manifests)
    × ((hooks : List Hook)
        → IsKindSort (λ h. h.kind) install_order (sort_hooks_by_kind hooks install_order) hooks)
sort_by_kind_example = sort_by_kind_lem install_order
