-- ===== src/Storage.antt =====
-- crates/storage: the node's store, a redb file of tables.
pub mod Keys
pub mod Tables
pub mod Apps
pub mod Routes
pub mod Records
pub mod Management
pub mod Migrations
pub mod Gc
mod Tests
