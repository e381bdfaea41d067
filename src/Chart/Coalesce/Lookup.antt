-- ===== src/Chart/Coalesce/Lookup.antt =====
-- What is under a key after two tables are merged.
use mathlib.Core.Path.{subst}
use aws_ecommerce_k8s.Base.{
  ℕ, suc, ◌≡◌, refl, ap, ◌∙◌, Bool, not, Option, none, some, [], ◌∷◌, if◌then◌else◌, ◌&&◌, arith,
  Bool-cases, inl, inr,
}
use aws_ecommerce_k8s.Base.Bytes.{Bytes, str_eq, str_eq_iff}
use aws_ecommerce_k8s.Base.Assoc.{
  Assoc, lookup, insert, lookup-insert, lookup-remove, IsMap, IsMap-insert,
}
use aws_ecommerce_k8s.Chart.Values.{Value, null, scalar, table, table_of, as_table, is_null}
use aws_ecommerce_k8s.Chart.Coalesce.{
  mark_nulls, merge_tables, merge_value, merge_entries, coalesce_tables,
}

abbrev null_or : Option Value → Option Value → Option Value
null_or none s = s
null_or (some d) s = if is_null d then some null else s

lookup-mark_nulls :
    (k : Bytes) (dst src : Assoc Value)
    → IsMap dst
    → lookup k (mark_nulls dst src) ≡ null_or (lookup k dst) (lookup k src)
unfolding mark_nulls lookup
lookup-mark_nulls k [] src h = refl
lookup-mark_nulls k ((j, val) ∷ dst) src h = ground (
  arith,
  lookup-mark_nulls k dst src h.1,
  lookup-mark_nulls k dst (insert j null src) h.1,
  lookup-insert j k null src,
  str_eq_iff j k,
  h.0,
)

mark_nulls-IsMap : (dst src : Assoc Value) → IsMap src → IsMap (mark_nulls dst src)
unfolding mark_nulls
mark_nulls-IsMap [] src h = h
mark_nulls-IsMap ((j, val) ∷ dst) src h = elim (Bool-cases (is_null val)) [
  | inl nil ↦ rw nil (mark_nulls-IsMap dst (insert j null src) (IsMap-insert j null src h))
  | inr other ↦ rw other (mark_nulls-IsMap dst src h)
]

module _ (rec : Assoc Value → Assoc Value → Assoc Value) (merge : Bool) where
  -- Two tables are merged in turn; else the destination's value stays.
  abbrev pub merged_tables : Value → Option (Assoc Value) → Option (Assoc Value) → Value
  merged_tables dv (some d) (some s) = table (table_of (rec d s))
  merged_tables dv _ _ = dv

  abbrev merged_with : Value → Option Value → Option Value
  merged_with val none = some val
  merged_with val (some dv) =
      if not merge && is_null dv then none else some (merged_tables dv (as_table dv) (as_table val))

  abbrev merged_source : Option Value → Option Value → Option Value
  merged_source d none = d
  merged_source d (some val) = merged_with val d

  lookup-merge_tables :
      (j k : Bytes) (val dv : Option (Assoc Value)) (v : Value) (dst : Assoc Value)
      → lookup j dst ≡ some v
      → lookup k (merge_tables rec merge j val dv dst)
        ≡ (if str_eq j k then some (merged_tables v dv val) else lookup k dst)
  unfolding merge_tables
  lookup-merge_tables j k (some s) (some d) v dst there =
      lookup-insert j k (table (table_of (rec d s))) dst
  lookup-merge_tables j k none dv v dst there = ground (arith, str_eq_iff j k)
  lookup-merge_tables j k (some s) none v dst there = ground (arith, str_eq_iff j k)

  lookup-merge_value :
      (j k : Bytes) (val : Value) (d : Option Value) (dst : Assoc Value)
      → lookup j dst ≡ d
      → lookup k (merge_value rec merge j val d dst)
        ≡ (if str_eq j k then merged_with val d else lookup k dst)
  unfolding merge_value
  lookup-merge_value j k val none dst there = lookup-insert j k val dst
  lookup-merge_value j k val (some dv) dst there = elim (Bool-cases (not merge && is_null dv)) [
    | inl gone ↦ rw gone (lookup-remove j k dst)
    | inr stays ↦ rw stays (lookup-merge_tables j k (as_table val) (as_table dv) dv dst there)
  ]

  lookup-merge_entries :
      (k : Bytes) (dst src : Assoc Value)
      → IsMap src
      → lookup k (merge_entries rec merge dst src) ≡ merged_source (lookup k dst) (lookup k src)
  unfolding merge_entries lookup
  lookup-merge_entries k dst [] h = refl
  lookup-merge_entries k dst ((j, val) ∷ src) h =
      lookup-merge_entries k (merge_value rec merge j val (lookup j dst) dst) src h.1
      ∙ elim (Bool-cases (str_eq j k)) [
        | inl same ↦
            let e = (str_eq_iff j k).0 same in
            let gone : lookup k src ≡ none = subst (λ i. lookup i src ≡ none) e h.0 in
            rw gone (
              rw (lookup-merge_value j k val (lookup j dst) dst refl)
                (rw same (ap (λ i. merged_with val (lookup i dst)) e)))
        | inr other ↦ rw (lookup-merge_value j k val (lookup j dst) dst refl) (rw other refl)
      ]

  -- The value under a key, from those that the two maps have there.
  abbrev pub combined : Option Value → Option Value → Option Value
  combined none s = s
  combined (some d) none = if is_null d then if merge then some d else none else some d
  combined (some d) (some s) =
      if is_null d
      then if merge then some d else none
      else some (merged_tables d (as_table d) (as_table s))

  combined-null_or : (d s : Option Value) → merged_source d (null_or d s) ≡ combined d s
  unfolding is_null as_table
  combined-null_or none none = refl
  combined-null_or none (some s) = refl
  combined-null_or (some null) none = ground arith
  combined-null_or (some null) (some s) = ground arith
  combined-null_or (some (scalar d)) s = ground arith
  combined-null_or (some (table d)) s = ground arith

pub lookup-coalesce_tables :
    (n : ℕ) (merge : Bool) (k : Bytes) (dst src : Assoc Value)
    → IsMap dst
    → IsMap src
    → lookup k (coalesce_tables (suc n) merge dst src)
      ≡ combined (coalesce_tables n merge) merge (lookup k dst) (lookup k src)
unfolding coalesce_tables
lookup-coalesce_tables n merge k dst src hd hs =
    lookup-merge_entries (coalesce_tables n merge) merge k dst (mark_nulls dst src)
      (mark_nulls-IsMap dst src hs)
    ∙ ap (merged_source (coalesce_tables n merge) merge (lookup k dst))
        (lookup-mark_nulls k dst src hd)
    ∙ combined-null_or (coalesce_tables n merge) merge (lookup k dst) (lookup k src)
