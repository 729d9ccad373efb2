-- ===== src/Runtime.antt =====
-- crates/runtime/src: the sandbox around an app, and the policy that it enforces.
pub mod PolicyTracker
pub mod PolicyLaws
pub mod SocketPolicy
pub mod MemoryLimiter
mod Samples
