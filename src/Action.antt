-- ===== src/Action.antt =====
-- pkg/action: what an action of Helm does to a release and to the cluster.
pub mod Step
pub mod Kube
pub mod World
pub mod Hooks
pub mod Errors
pub mod Rollback
pub mod Uninstall
