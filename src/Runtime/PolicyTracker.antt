-- ===== src/Runtime/PolicyTracker.antt =====
-- crates/runtime/src/policy_tracker.rs and its five files. A call takes the state that one store
-- can reach (the shared counters, and the store's own count of outbound connections) and returns
-- the new one. A compare-and-exchange loop runs once here, as it does when no other thread writes
-- the counter between its load and its exchange; PolicyLaws/Interleaving.antt has the loop itself.
mod Counters
mod Core
mod Network
mod Filesystem
pub use Counters.*
unfoldable pub use Core.*
unfoldable pub use Network.*
unfoldable pub use Filesystem.*
