-- ===== src/Supervisor.antt =====
-- crates/supervisor/src: what starts the instances of a node.
pub mod PortAlloc
pub mod Admission
pub mod Network
