-- ===== src/Proxy/Upstream/Calls.antt =====
-- The calls on a registry of crates/proxy/src/upstream/mod.rs.
use wasm_cloud_platform.Common.{
  ◌≡◌, inl, inr, Bool, Option-cases, String, string_key, lookup, lookup-insert, contains_key,
  SocketAddr, socket_addr_key, arith,
}
use wasm_cloud_platform.Proxy.Upstream.{
  UpstreamEndpoint, UpstreamRegistry, AppHealthCheckConfig, add, remove_addr, checked,
  register_health_check, remove_health_check, record_health_result, next_healthy,
}

-- The calls on a registry.
pub data Call : Type 0 where
  added : String → UpstreamEndpoint → Call
  removed : String → SocketAddr → Call
  asked : String → Call
  watched : String → AppHealthCheckConfig → Call
  unwatched : String → Call
  probed : String → Bool → Call

unfoldable pub after : UpstreamRegistry → Call → UpstreamRegistry
after r (added app e) = add r app e
after r (removed app addr) = remove_addr r app addr
after r (asked app) = (next_healthy r app).0
after r (watched app config) = register_health_check r app config
after r (unwatched app) = remove_health_check r app
after r (probed app success) = record_health_result r app success

pub record_health_result-effect :
    (r : UpstreamRegistry) (app : String) (success : Bool) (other : String)
    → ((record_health_result r app success).inner ≡ r.inner)
      × ((record_health_result r app success).health_configs ≡ r.health_configs)
      × (contains_key other (record_health_result r app success).health_state
          ≡ contains_key other r.health_state)
unfolding record_health_result
record_health_result-effect r app success other = elim (Option-cases (lookup app r.health_state)) [
  | inl absent ↦ ground arith
  | inr (state, found) ↦ elim (Option-cases (lookup app r.health_configs)) [
    | inl unknown ↦ ground arith
    | inr (config, known) ↦ ground (
      arith,
      lookup-insert app other (checked config success state) r.health_state,
      string_key.same_iff app other,
    )
  ]
]
