-- ===== src/Proxy.antt =====
-- crates/proxy/src: the reverse proxy.
pub mod CircuitBreaker
pub mod Router
pub mod Upstream
pub mod NodeTable
pub mod RateLimiter
pub mod Authz
pub mod AdminLimiter
