-- ===== src/Runtime/SocketPolicy/Tests.antt =====
-- The composed socket check at a concrete policy.
use wasm_cloud_platform.Common.{
  ◌+◌, ◌<◌, ◌≡◌, refl, ◌≢◌, ◌↔◌, ◌⊎◌, Bool, true, false, some, ok, SocketAddr, u64, arith,
}
use wasm_cloud_platform.Runtime.PolicyTracker.{
  with_policy, parse_cidrs, check_outbound_tcp_connect, record_outbound_disconnect,
}
use wasm_cloud_platform.Runtime.SocketPolicy.{
  SocketAddrUse, tcp_connect, from_instance_policy, check, extra_allows, compose_socket_addr_check,
}
use wasm_cloud_platform.Runtime.SocketPolicy.Composed.{composed, composed-true_iff, composed-slots}
use wasm_cloud_platform.Runtime.Samples.{parse, net_contains, inside, policy, busy}

abbrev addr : SocketAddr
addr = record { ip = inside; port = 443 }

-- an extra check that refuses everything
abbrev never : SocketAddr → SocketAddrUse → Bool
never a use_type = false

-- the reserved slot is given back
slot_returned :
    composed parse net_contains policy (some never) addr tcp_connect busy ≡ (busy, false)
unfolding compose_socket_addr_check from_instance_policy with_policy parse_cidrs
    check_outbound_tcp_connect record_outbound_disconnect
slot_returned = refl

composed-true_iff_example :
    ((composed parse net_contains policy (some never) addr tcp_connect busy).1 ≡ true) ↔ (
      (check net_contains (from_instance_policy parse policy) addr tcp_connect ≡ ok tt)
      × (extra_allows (some never) addr tcp_connect ≡ true)
      × (tcp_connect ≡ tcp_connect → 1 < 2))
composed-true_iff_example =
    composed-true_iff parse net_contains policy (some never) addr tcp_connect busy

composed-slots_example :
    let (s', allowed) = composed parse net_contains policy (some never) addr tcp_connect busy in
    ((allowed ≡ true)
      × (tcp_connect ≡ tcp_connect)
      × (s'.counters.outbound_connections_active ≡ 1 + 1)
      × (s'.local ≡ 1 + 1)
      × (s'.counters.outbound_connections_total ≡ u64 (0 + 1)))
    ⊎ (((allowed ≡ false) ⊎ (tcp_connect ≢ tcp_connect))
        × (s'.counters.outbound_connections_active ≡ 1)
        × (s'.local ≡ 1)
        × (s'.counters.outbound_connections_total ≡ 0))
composed-slots_example =
    composed-slots parse net_contains policy (some never) addr tcp_connect busy (omega arith)
      (omega arith)
