-- ===== src/Chart/Coalesce/Depth.antt =====
-- The depth of the source bounds the nested calls, so `coalesceTablesFullKey` returns.
use mathlib.Core.Path.{subst}
use Prim.Native.Nat.{max}
use aws_ecommerce_k8s.Base.{
  ℕ, zero, suc, ◌≡◌, ◌≤◌, ◌<◌, refl, ap, ◌∙◌, Bool, not, Option, none, some, [], ◌∷◌, if◌then◌else◌,
  ◌&&◌, arith, Bool-cases, inl, inr,
}
use aws_ecommerce_k8s.Base.Bytes.{Bytes, str_eq}
use aws_ecommerce_k8s.Base.Assoc.{Assoc, lookup, insert, IsMap}
use aws_ecommerce_k8s.Chart.Values.{
  Value, null, scalar, table, table_of, as_table, is_null, depth, depth_of, depth_of-entries,
}
use aws_ecommerce_k8s.Chart.Coalesce.{
  mark_nulls, merge_tables, merge_value, merge_entries, coalesce_tables, coalesce_tables_full_key,
  coalesced,
}
use aws_ecommerce_k8s.Chart.Coalesce.Lookup.{combined, merged_tables, lookup-coalesce_tables}

depth_of-insert_null : (k : Bytes) (m : Assoc Value) → depth_of (insert k null m) ≤ depth_of m
unfolding depth_of depth insert
depth_of-insert_null k [] = omega arith
depth_of-insert_null k ((j, val) ∷ m) = ground (arith, depth_of-insert_null k m)

depth_of-mark_nulls : (dst src : Assoc Value) → depth_of (mark_nulls dst src) ≤ depth_of src
unfolding mark_nulls
depth_of-mark_nulls [] src = omega arith
depth_of-mark_nulls ((j, val) ∷ dst) src = ground (
  arith,
  depth_of-insert_null j src,
  depth_of-mark_nulls dst src,
  depth_of-mark_nulls dst (insert j null src),
)

-- A table that a value holds is less deep than the value.
abbrev Below : Option (Assoc Value) → ℕ → Type 0
Below none n = Unit
Below (some m) n = depth_of m < n

as_table-Below : (val : Value) (n : ℕ) → depth val ≤ n → Below (as_table val) n
unfolding as_table depth
as_table-Below null n h = tt
as_table-Below (scalar s) n h = tt
as_table-Below (table t) n h = omega (arith, depth_of-entries t)

-- Two ways to merge nested tables that agree on sources less deep than `n`.
module _ (f g : Assoc Value → Assoc Value → Assoc Value) (n : ℕ)
    (agree : (d s : Assoc Value) → depth_of s < n → f d s ≡ g d s) (merge : Bool) where
  merge_tables-agree :
      (key : Bytes) (val dv : Option (Assoc Value)) (dst : Assoc Value)
      → Below val n
      → merge_tables f merge key val dv dst ≡ merge_tables g merge key val dv dst
  unfolding merge_tables
  merge_tables-agree key none dv dst b = refl
  merge_tables-agree key (some s) none dst b = refl
  merge_tables-agree key (some s) (some d) dst b =
      ap (λ t. insert key (table (table_of t)) dst) (agree d s b)

  merge_value-agree :
      (key : Bytes) (val : Value) (d : Option Value) (dst : Assoc Value)
      → depth val ≤ n
      → merge_value f merge key val d dst ≡ merge_value g merge key val d dst
  unfolding merge_value
  merge_value-agree key val none dst h = refl
  merge_value-agree key val (some dv) dst h = elim (Bool-cases (not merge && is_null dv)) [
    | inl gone ↦ rw gone
    | inr stays ↦
        rw stays (merge_tables-agree key (as_table val) (as_table dv) dst (as_table-Below val n h))
  ]

  merge_entries-agree :
      (dst src : Assoc Value)
      → depth_of src ≤ n
      → merge_entries f merge dst src ≡ merge_entries g merge dst src
  unfolding merge_entries depth_of
  merge_entries-agree dst [] h = refl
  merge_entries-agree dst ((key, val) ∷ src) h =
      ap (λ d. merge_entries f merge d src)
        (merge_value-agree key val (lookup key dst) dst (omega arith))
      ∙ merge_entries-agree (merge_value g merge key val (lookup key dst) dst) src (omega arith)

pub coalesce_tables-enough :
    (n m : ℕ) (merge : Bool) (dst src : Assoc Value)
    → depth_of src < n
    → depth_of src < m
    → coalesce_tables n merge dst src ≡ coalesce_tables m merge dst src
unfolding coalesce_tables
coalesce_tables-enough zero m merge dst src hn hm = absurd (omega arith)
coalesce_tables-enough (suc n) zero merge dst src hn hm = absurd (omega arith)
coalesce_tables-enough (suc n) (suc m) merge dst src hn hm =
    merge_entries-agree (coalesce_tables n merge) (coalesce_tables m merge) (depth_of src)
      (λ d s b. coalesce_tables-enough n m merge d s (omega arith) (omega arith)) merge dst
      (mark_nulls dst src) (depth_of-mark_nulls dst src)

depth-lookup :
    (k : Bytes) (m : Assoc Value) (v : Value) → lookup k m ≡ some v → depth v ≤ depth_of m
unfolding lookup depth_of
depth-lookup k [] v e = ground arith
depth-lookup k ((j, w) ∷ m) v e = elim (Bool-cases (str_eq j k)) [
  | inl same ↦
      let found : some w ≡ some v = rw same at e in
      subst (λ x. depth x ≤ max (depth w) (depth_of m)) {x = w} (cc found) (omega arith)
  | inr other ↦ omega (arith, depth-lookup k m v (rw other at e))
]

module _ (f g : Assoc Value → Assoc Value → Assoc Value) (n : ℕ)
    (agree : (d s : Assoc Value) → depth_of s < n → f d s ≡ g d s) (merge : Bool) where
  merged_tables-agree :
      (v : Value) (d s : Option (Assoc Value))
      → Below s n
      → merged_tables f merge v d s ≡ merged_tables g merge v d s
  merged_tables-agree v none s b = refl
  merged_tables-agree v (some d) none b = refl
  merged_tables-agree v (some d) (some s) b = ap (λ t. table (table_of t)) (agree d s b)

  combined-agree :
      (d s : Option Value)
      → ((v : Value) → s ≡ some v → depth v ≤ n)
      → combined f merge d s ≡ combined g merge d s
  combined-agree none s h = refl
  combined-agree (some d) none h = refl
  combined-agree (some d) (some s) h =
      ap (λ t. if is_null d then if merge then some d else none else some t)
        (merged_tables-agree d (as_table d) (as_table s) (as_table-Below s n (h s refl)))

-- `m[k]` where the map may be nil.
abbrev pub lookup_in : Bytes → Option (Assoc Value) → Option Value
lookup_in k none = none
lookup_in k (some m) = lookup k m

-- `coalesceTablesFullKey` on two maps always returns a map, and a key has in it: what `src` has,
-- where `dst` does not have the key; nil or nothing, as the merge keeps nil values or not, where
-- `dst` has nil; the two tables merged in the same way, where both have tables; and else what `dst`
-- has.
pub coalesce_tables_lem :
    (merge : Bool) (dst src : Assoc Value)
    → IsMap dst
    → IsMap src
    → (k : Bytes)
    → lookup_in k (coalesce_tables_full_key merge (some dst) (some src))
      ≡ combined (coalesced merge) merge (lookup k dst) (lookup k src)
unfolding coalesce_tables_full_key
coalesce_tables_lem merge dst src hd hs k =
    lookup-coalesce_tables (depth_of src) merge k dst src hd hs
    ∙ combined-agree (coalesce_tables (depth_of src) merge) (coalesced merge) (depth_of src)
        (λ d s b.
          coalesce_tables-enough (depth_of src) (suc (depth_of s)) merge d s b (omega arith))
        merge (lookup k dst) (lookup k src) (λ v e. depth-lookup k src v e)
