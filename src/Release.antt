-- ===== src/Release.antt =====
-- The release record of pkg/release/v1, and how releases are filtered and sorted (pkg/release/util).
pub mod Status
pub mod Hook
pub mod Defs
pub mod Filter
pub mod Sorter
pub mod Kinds
pub mod Manifest
pub mod ManifestSorter
