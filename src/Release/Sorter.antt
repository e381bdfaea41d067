-- ===== src/Release/Sorter.antt =====
-- sorter.go of pkg/release/util: the slices are sorted in place, so the sorted slice is returned.
pub mod Laws
use mathlib.Core.List.{reverse}
use aws_ecommerce_k8s.Base.{Bool, List, arith, ltb}
use aws_ecommerce_k8s.Base.Int.{lt_int}
use aws_ecommerce_k8s.Base.Bytes.{str_lt}
use aws_ecommerce_k8s.Base.Sort.{sort_by, IsWeakOrder}
use aws_ecommerce_k8s.Release.Defs.{Release}

abbrev pub by_name : Release → Release → Bool
by_name a b = str_lt a.name b.name

abbrev pub by_date : Release → Release → Bool
by_date a b = ltb a.info.last_deployed b.info.last_deployed

abbrev pub by_revision : Release → Release → Bool
by_revision a b = lt_int a.version b.version

unfoldable pub sort_by_name : List Release → List Release
unfolding sort_by
sort_by_name = sort_by by_name

unfoldable pub sort_by_date : List Release → List Release
unfolding sort_by
sort_by_date = sort_by by_date

unfoldable pub sort_by_revision : List Release → List Release
unfolding sort_by
sort_by_revision = sort_by by_revision

-- `Reverse`: sorts by the function given, then swaps the ends until they meet.
unfoldable pub reverse_sorted : List Release → (List Release → List Release) → List Release
reverse_sorted list sort_fn = reverse (sort_fn list)

pub by_revision-IsWeakOrder : IsWeakOrder by_revision
by_revision-IsWeakOrder = record {
  asym = λ a b h. ground arith;
  neg_trans = λ a b c h k. ground arith;
}
