-- ===== src/Runtime/PolicyLaws.antt =====
-- What the policy tracker of crates/runtime/src/policy_tracker guarantees.
pub mod Permits
pub mod Quotas
pub mod Sharing
pub mod Interleaving
mod Tests
