-- ===== src/Chart/Coalesce.antt =====
-- coalesce.go of pkg/chart/v2/util: two tables of values are merged, the destination first. What is
-- only printed as a warning is left out.
pub mod Lookup
pub mod Depth
pub mod Merged
use aws_ecommerce_k8s.Base.{
  ℕ, zero, suc, Bool, true, false, not, Option, none, some, List, [], ◌∷◌, if◌then◌else◌, ◌&&◌,
}
use aws_ecommerce_k8s.Base.Bytes.{Bytes, str_eq}
use aws_ecommerce_k8s.Base.Assoc.{Assoc, lookup, insert, remove}
use aws_ecommerce_k8s.Chart.Defs.{Chart, chart_name, chart_values, dependencies}
use aws_ecommerce_k8s.Chart.Values.{
  Value, null, scalar, table, table_of, as_table, is_null, depth_of,
}

-- The first loop of `coalesceTablesFullKey`: a key that is nil in `dst` becomes nil in `src`.
unfoldable pub mark_nulls : Assoc Value → Assoc Value → Assoc Value
unfolding insert is_null
mark_nulls [] src = src
mark_nulls ((key, val) ∷ dst) src =
    mark_nulls dst (if is_null val then insert key null src else src)

module _ (rec : Assoc Value → Assoc Value → Assoc Value) (merge : Bool) where
  -- Both are tables: `dst[key]` is merged in place.
  unfoldable pub merge_tables :
      Bytes → Option (Assoc Value) → Option (Assoc Value) → Assoc Value → Assoc Value
  unfolding table_of
  merge_tables key (some val) (some dv) dst = insert key (table (table_of (rec dv val))) dst
  merge_tables key _ _ dst = dst

  -- The body of the second loop, by what `dst[key]` is.
  unfoldable pub merge_value : Bytes → Value → Option Value → Assoc Value → Assoc Value
  unfolding merge_tables
  merge_value key val none dst = insert key val dst
  merge_value key val (some dv) dst =
      if not merge && is_null dv
      then remove key dst
      else merge_tables key (as_table val) (as_table dv) dst

  unfoldable pub merge_entries : Assoc Value → Assoc Value → Assoc Value
  unfolding merge_value
  merge_entries dst [] = dst
  merge_entries dst ((key, val) ∷ src) =
      merge_entries (merge_value key val (lookup key dst) dst) src

-- `coalesceTablesFullKey` on two maps, to a depth of nested tables.
unfoldable pub coalesce_tables : ℕ → Bool → Assoc Value → Assoc Value → Assoc Value
unfolding mark_nulls merge_entries
coalesce_tables zero merge dst src = dst
coalesce_tables (suc n) merge dst src =
    merge_entries (coalesce_tables n merge) merge dst (mark_nulls dst src)

-- `coalesceTablesFullKey` on two maps: the depth of `src` bounds the nested calls.
abbrev pub coalesced : Bool → Assoc Value → Assoc Value → Assoc Value
coalesced merge dst src = coalesce_tables (suc (depth_of src)) merge dst src

-- `coalesceTablesFullKey`, where a map may be nil.
unfoldable pub coalesce_tables_full_key :
    Bool → Option (Assoc Value) → Option (Assoc Value) → Option (Assoc Value)
unfolding depth_of coalesce_tables
coalesce_tables_full_key merge dst none = dst
coalesce_tables_full_key merge none (some src) = some src
coalesce_tables_full_key merge (some dst) (some src) = some (coalesced merge dst src)

-- `CoalesceTables` and `MergeTables`.
abbrev pub coalesce_maps : Option (Assoc Value) → Option (Assoc Value) → Option (Assoc Value)
coalesce_maps dst src = coalesce_tables_full_key false dst src

abbrev pub merge_maps : Option (Assoc Value) → Option (Assoc Value) → Option (Assoc Value)
merge_maps dst src = coalesce_tables_full_key true dst src

-- `childChartMergeTrue`, over the dependencies of the chart.
unfoldable pub child_chart_merge_true : List Chart → Bytes → Bool → Bool
unfolding str_eq chart_name
child_chart_merge_true [] key merge = merge
child_chart_merge_true (subchart ∷ rest) key merge =
    let others = child_chart_merge_true rest key merge in
    if str_eq (chart_name subchart) key then true else others

module _ (c : Chart) (merge : Bool) where
  -- Where both are tables, the value's table takes what it lacks from the chart's.
  unfoldable pub coalesce_value_tables :
      Bytes → Option (Assoc Value) → Option (Assoc Value) → Assoc Value → Assoc Value
  unfolding child_chart_merge_true dependencies table_of coalesce_tables
  coalesce_value_tables key (some dest) (some src) v =
      let merge' = child_chart_merge_true (dependencies c) key merge in
      insert key (table (table_of (coalesced merge' dest src))) v
  coalesce_value_tables key _ _ v = v

  -- The body of the loop of `coalesceValues`, by what `v[key]` is.
  unfoldable pub coalesce_value : Bytes → Value → Option Value → Assoc Value → Assoc Value
  unfolding coalesce_value_tables
  coalesce_value key val none v = insert key val v
  coalesce_value key val (some value) v =
      if is_null value && not merge
      then remove key v
      else coalesce_value_tables key (as_table value) (as_table val) v

  unfoldable pub coalesce_loop : Assoc Value → Assoc Value → Assoc Value
  unfolding coalesce_value lookup
  coalesce_loop [] v = v
  coalesce_loop ((key, val) ∷ vc) v = coalesce_loop vc (coalesce_value key val (lookup key v) v)

  -- `coalesceValues`: the chart's values are copied, so the chart is not changed.
  unfoldable pub coalesce_values : Assoc Value → Assoc Value
  unfolding coalesce_loop chart_values
  coalesce_values v = coalesce_loop (chart_values c) v
