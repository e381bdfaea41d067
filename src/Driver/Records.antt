-- ===== src/Driver/Records.antt =====
-- records.go: the records of one release, kept in the order of their revisions.
pub mod Laws
use aws_ecommerce_k8s.Base.{
  ℕ, zero, suc, Bool, true, false, Option, none, some, List, [], ◌∷◌, ◌++◌, if◌then◌else◌,
}
use aws_ecommerce_k8s.Base.Bytes.{Bytes, bytes, str_eq}
use aws_ecommerce_k8s.Base.Int.{lt_int}
use aws_ecommerce_k8s.Base.Decimal.{itoa}
use aws_ecommerce_k8s.Base.Sort.{sort_by}
use aws_ecommerce_k8s.Release.Defs.{Release}
use aws_ecommerce_k8s.Driver.Errors.{Error, release_exists}
use aws_ecommerce_k8s.Driver.Labels
use aws_ecommerce_k8s.Driver.Labels.{Labels}

pub record Record : Type 0 where
  pub key : Bytes
  pub lbs : Labels
  pub rls : Release

abbrev pub Records : Type 0
Records = List Record

-- The four labels by which a driver is queried.
unfoldable pub labels_of : Release → Labels
unfolding Labels.set itoa
labels_of rls =
    let lbs = Labels.set Labels.init (bytes "name") rls.name in
    let lbs = Labels.set lbs (bytes "owner") (bytes "helm") in
    let lbs = Labels.set lbs (bytes "status") rls.info.status in
    Labels.set lbs (bytes "version") (itoa rls.version)

unfoldable pub new_record : Bytes → Release → Record
new_record key rls = record { key = key; lbs = labels_of rls; rls = rls }

-- `Less`
abbrev pub less : Record → Record → Bool
less a b = lt_int a.rls.version b.rls.version

index_from : ℕ → Records → Bytes → Option ℕ
index_from i [] key = none
index_from i (r ∷ rs) key =
    let rest = index_from (suc i) rs key in if str_eq r.key key then some i else rest

-- `Index`: the first record with the key; `none` for `-1, false`.
unfoldable pub index : Records → Bytes → Option ℕ
unfolding index_from str_eq
index rs key = index_from 0 rs key

-- `rs[i]`, which the callers reach with an index of `Index` only.
unfoldable pub at : Records → ℕ → Option Record
at [] i = none
at (r ∷ rs) zero = some r
at (r ∷ rs) (suc i) = at rs i

unfoldable pub exists : Records → Bytes → Bool
unfolding index
exists rs key = elim (index rs key) [ none ↦ false | some i ↦ true ]

unfoldable pub get : Records → Bytes → Option Record
unfolding index at
get rs key = elim (index rs key) [ none ↦ none | some i ↦ at rs i ]

-- `Add`: appends the record and sorts, or refuses a key that is there.
unfoldable pub add : Records → Record → Option Error × Records
add rs r =
    if exists rs r.key then (some release_exists, rs) else (none, sort_by less (rs ++ r ∷ []))

remove_at : Records → ℕ → Records
remove_at [] i = []
remove_at (r ∷ rs) zero = rs
remove_at (r ∷ rs) (suc i) = r ∷ remove_at rs i

-- `Remove`: the record that was there, and the records that are left.
unfoldable pub remove : Records → Bytes → Option Record × Records
unfolding index at remove_at
remove rs key = elim (index rs key) [ none ↦ (none, rs) | some i ↦ (at rs i, remove_at rs i) ]

set_at : Records → ℕ → Record → Records
set_at [] i rec = []
set_at (r ∷ rs) zero rec = rec ∷ rs
set_at (r ∷ rs) (suc i) rec = r ∷ set_at rs i rec

-- `Replace`: the record that was there, and the records with the new one in its place.
unfoldable pub replace : Records → Bytes → Record → Option Record × Records
unfolding index at set_at
replace rs key rec = elim (index rs key) [ none ↦ (none, rs) | some i ↦ (at rs i, set_at rs i rec) ]
