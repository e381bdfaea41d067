-- ===== src/Tests.antt =====
-- Runs of the definitions on small inputs, and each result at an input that meets its conditions.
pub mod Data
mod Driver
mod Secrets
mod Storage
pub mod Hooks
mod Rollback
mod Uninstall
mod Manifests
mod Release
mod Chart
mod Names
