-- ===== src/Chart.antt =====
-- pkg/chart/v2/util: the values of a chart and how they are coalesced.
pub mod Values
pub mod Defs
pub mod Coalesce
pub mod Paths
pub mod Names
