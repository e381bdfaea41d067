-- ===== src/Driver.antt =====
-- pkg/storage/driver: the errors and the interface of a storage driver, and the in-memory driver.
pub mod Errors
pub mod Interface
pub mod Labels
pub mod Records
pub mod Memory
pub mod History
pub mod Codec
pub mod Objects
pub mod Secrets
pub mod ConfigMaps
