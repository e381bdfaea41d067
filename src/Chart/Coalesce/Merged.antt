-- ===== src/Chart/Coalesce/Merged.antt =====
-- What is under a key after a chart's values were coalesced into given ones.
use mathlib.Core.Path.{subst}
use aws_ecommerce_k8s.Base.{
  ◌≡◌, refl, sym, ap, ◌∙◌, Bool, not, Option, none, some, List, [], ◌∷◌, if◌then◌else◌, ◌&&◌, ◌||◌,
  false, arith, Bool-cases, inl, inr,
}
use aws_ecommerce_k8s.Base.Bytes.{Bytes, str_eq, str_eq_iff}
use aws_ecommerce_k8s.Base.Assoc.{Assoc, lookup, lookup-insert, lookup-remove, IsMap}
use aws_ecommerce_k8s.Chart.Values.{Value, table, table_of, as_table, is_null}
use aws_ecommerce_k8s.Chart.Defs.{Chart, chart_name, chart_values, dependencies}
use aws_ecommerce_k8s.Chart.Coalesce.{
  coalesced, child_chart_merge_true, coalesce_value_tables, coalesce_value, coalesce_loop,
  coalesce_values,
}
use aws_ecommerce_k8s.Chart.Coalesce.Lookup.{merged_tables}

-- One of the charts has this name.
abbrev pub has_name : Bytes → List Chart → Bool
has_name key [] = false
has_name key (d ∷ ds) = str_eq (chart_name d) key || has_name key ds

child_chart_merge_true_lem :
    (ds : List Chart) (key : Bytes) (merge : Bool)
    → child_chart_merge_true ds key merge ≡ has_name key ds || merge
unfolding child_chart_merge_true
child_chart_merge_true_lem [] key merge = refl
child_chart_merge_true_lem (d ∷ ds) key merge =
    ground (arith, child_chart_merge_true_lem ds key merge)

module _ (c : Chart) (merge : Bool) where
  -- The merge of the tables under a key, which keeps nil values if the key names a dependency.
  abbrev pub nested : Bytes → Assoc Value → Assoc Value → Assoc Value
  nested key = coalesced (has_name key (dependencies c) || merge)

  -- The value under a key, from the given one and the chart's.
  abbrev pub overridden : Bytes → Option Value → Option Value → Option Value
  overridden key none s = s
  overridden key (some d) none = some d
  overridden key (some d) (some s) =
      if is_null d && not merge
      then none
      else some (merged_tables (nested key) merge d (as_table d) (as_table s))

  lookup-coalesce_value_tables :
      (j k : Bytes) (d s : Option (Assoc Value)) (value : Value) (v : Assoc Value)
      → lookup j v ≡ some value
      → lookup k (coalesce_value_tables c merge j d s v)
        ≡ (if str_eq j k then some (merged_tables (nested j) merge value d s) else lookup k v)
  unfolding coalesce_value_tables
  lookup-coalesce_value_tables j k (some d) (some s) value v there =
      rw (child_chart_merge_true_lem (dependencies c) j merge)
        (lookup-insert j k (table (table_of (nested j d s))) v)
  lookup-coalesce_value_tables j k none s value v there = ground (arith, str_eq_iff j k)
  lookup-coalesce_value_tables j k (some d) none value v there = ground (arith, str_eq_iff j k)

  lookup-coalesce_value :
      (j k : Bytes) (val : Value) (d : Option Value) (v : Assoc Value)
      → lookup j v ≡ d
      → lookup k (coalesce_value c merge j val d v)
        ≡ (if str_eq j k then overridden j d (some val) else lookup k v)
  unfolding coalesce_value
  lookup-coalesce_value j k val none v there = lookup-insert j k val v
  lookup-coalesce_value j k val (some value) v there =
      elim (Bool-cases (is_null value && not merge)) [
        | inl gone ↦ rw gone (lookup-remove j k v)
        | inr stays ↦
            rw stays
              (lookup-coalesce_value_tables j k (as_table value) (as_table val) value v there)
      ]

  overridden-none : (k : Bytes) (d : Option Value) → d ≡ overridden k d none
  overridden-none k none = refl
  overridden-none k (some d) = refl

  lookup-coalesce_loop :
      (k : Bytes) (vc v : Assoc Value)
      → IsMap vc
      → lookup k (coalesce_loop c merge vc v) ≡ overridden k (lookup k v) (lookup k vc)
  unfolding coalesce_loop lookup
  lookup-coalesce_loop k [] v h = overridden-none k (lookup k v)
  lookup-coalesce_loop k ((j, val) ∷ vc) v h =
      lookup-coalesce_loop k vc (coalesce_value c merge j val (lookup j v) v) h.1
      ∙ elim (Bool-cases (str_eq j k)) [
        | inl same ↦
            let e = (str_eq_iff j k).0 same in
            let gone : lookup k vc ≡ none = subst (λ i. lookup i vc ≡ none) e h.0 in
            rw gone (
              sym (overridden-none k _)
              ∙ (rw (lookup-coalesce_value j k val (lookup j v) v refl)
                  (rw same (ap (λ i. overridden i (lookup i v) (some val)) e))))
        | inr other ↦ rw (lookup-coalesce_value j k val (lookup j v) v refl) (rw other refl)
      ]

  -- After `coalesceValues`, a key has: what the chart has, where the given values lack the key; what
  -- they have, where the chart lacks it, nil included; nothing, where they have nil and the merge
  -- does not keep nil values; the two tables merged, where both have tables, with nil values kept if
  -- the key names a dependency of the chart; and else what the given values have.
  pub coalesce_values_lem :
      (v : Assoc Value)
      → IsMap (chart_values c)
      → (k : Bytes)
      → lookup k (coalesce_values c merge v) ≡ overridden k (lookup k v) (lookup k (chart_values c))
  unfolding coalesce_values
  coalesce_values_lem v h k = lookup-coalesce_loop k (chart_values c) v h
