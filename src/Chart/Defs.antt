-- ===== src/Chart/Defs.antt =====
-- chart.go of pkg/chart/v2, as far as the coalescing of values looks into a chart.
use aws_ecommerce_k8s.Base.{List, [], ◌∷◌}
use aws_ecommerce_k8s.Base.Bytes.{Bytes}
use aws_ecommerce_k8s.Base.Assoc.{Assoc}
use aws_ecommerce_k8s.Chart.Values.{Value}

-- A chart is the name in its metadata, its values and the charts that it depends on.
mutual
  pub data Chart : Type 0 where
    chart : Bytes → Assoc Value → Charts → Chart

  pub data Charts : Type 0 where
    no_more : Charts
    depends_on : Chart → Charts → Charts

unfoldable pub chart_name : Chart → Bytes
chart_name (chart name values deps) = name

unfoldable pub chart_values : Chart → Assoc Value
chart_values (chart name values deps) = values

unfoldable pub charts_of : Charts → List Chart
charts_of no_more = []
charts_of (depends_on c rest) = c ∷ charts_of rest

unfoldable pub dependencies : Chart → List Chart
unfolding charts_of
dependencies (chart name values deps) = charts_of deps
