-- ===== src/Tests/Chart.antt =====
-- Coalescing small tables of values.
use aws_ecommerce_k8s.Base.{◌≡◌, refl, false, some, [], ◌∷◌}
use aws_ecommerce_k8s.Base.Bytes.{bytes, str_eq}
use aws_ecommerce_k8s.Base.Assoc.{Assoc, lookup, insert, remove}
use aws_ecommerce_k8s.Chart.Values.{
  Value, null, scalar, table, table_of, as_table, is_null, entries, depth, depth_of,
}
use aws_ecommerce_k8s.Chart.Defs.{Chart, chart, no_more, depends_on, chart_values}
use aws_ecommerce_k8s.Chart.Coalesce.{
  coalesce_tables_full_key, coalesce_tables, coalesced, coalesce_values, mark_nulls, merge_entries,
}
use aws_ecommerce_k8s.Base.{if◌then◌else◌}
use aws_ecommerce_k8s.Base.Bytes.{split}
use aws_ecommerce_k8s.Action.Step.{done, raised}
use aws_ecommerce_k8s.Chart.Values.{istable}
use aws_ecommerce_k8s.Chart.Paths.{path_value, path_is_empty}
use aws_ecommerce_k8s.Chart.Paths.Walk.{walk_keys, path_value_lem}
use aws_ecommerce_k8s.Chart.Coalesce.Lookup.{combined}
use aws_ecommerce_k8s.Chart.Coalesce.Depth.{lookup_in, coalesce_tables_lem}
use aws_ecommerce_k8s.Chart.Coalesce.Merged.{overridden, coalesce_values_lem}

-- { image: { tag: "2" }, debug: null }
abbrev given : Assoc Value
given =
    (bytes "image", table (table_of ((bytes "tag", scalar (bytes "2")) ∷ [])))
    ∷ (bytes "debug", null)
    ∷ []

-- { image: { tag: "1", name: "shop" }, debug: "on", port: "80" }
abbrev defaults : Assoc Value
defaults =
    (
      bytes "image",
      table (
          table_of
            ((bytes "tag", scalar (bytes "1")) ∷ (bytes "name", scalar (bytes "shop")) ∷ [])),
    )
    ∷ (bytes "debug", scalar (bytes "on"))
    ∷ (bytes "port", scalar (bytes "80"))
    ∷ []

-- The nil removes a key, the nested table gets what it lacks, and a new key is copied.
coalesced_run :
    coalesce_tables_full_key false (some given) (some defaults)
    ≡ some (
        (
          bytes "image",
          table (
              table_of
                ((bytes "tag", scalar (bytes "2")) ∷ (bytes "name", scalar (bytes "shop")) ∷ [])),
        )
        ∷ (bytes "port", scalar (bytes "80"))
        ∷ [])
unfolding coalesce_tables_full_key coalesce_tables mark_nulls merge_entries lookup insert remove
    table_of as_table is_null entries depth depth_of str_eq
coalesced_run = refl

coalesce_tables_example :
    lookup_in (bytes "debug") (coalesce_tables_full_key false (some given) (some defaults))
    ≡ combined
        (coalesced false)
        false
        (lookup (bytes "debug") given)
        (lookup (bytes "debug") defaults)
coalesce_tables_example =
    coalesce_tables_lem false given defaults (unfold lookup in unfold str_eq in (refl, (refl, tt)))
      (unfold lookup in unfold str_eq in (refl, (refl, (refl, tt)))) (bytes "debug")

abbrev shop_chart : Chart
shop_chart = chart (bytes "shop") defaults (depends_on (chart (bytes "image") [] no_more) no_more)

coalesce_values_example :
    lookup (bytes "image") (coalesce_values shop_chart false given)
    ≡ overridden shop_chart false
        (bytes "image")
        (lookup (bytes "image") given)
        (lookup (bytes "image") (chart_values shop_chart))
coalesce_values_example =
    coalesce_values_lem shop_chart false given
      (unfold chart_values lookup str_eq in (refl, (refl, (refl, tt)))) (bytes "image")

path_value_example : path_value defaults (bytes "image.name") ≡ (
    if str_eq (bytes "image.name") []
    then raised path_is_empty
    else walk_keys defaults (split (bytes "image.name") (bytes ".")))
path_value_example = path_value_lem defaults (bytes "image.name")

path_value_run : path_value defaults (bytes "image.name") ≡ done (scalar (bytes "shop"))
unfolding path_value split as_table istable lookup str_eq entries table_of
path_value_run = refl
