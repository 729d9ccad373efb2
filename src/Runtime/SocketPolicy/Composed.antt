-- ===== src/Runtime/SocketPolicy/Composed.antt =====
-- What the composed socket check of socket_policy.rs lets through, and what it leaves behind.
use wasm_cloud_platform.Common.{
  ◌+◌, ◌^◌, ◌≤◌, ◌<◌, ◌≡◌, ◌≢◌, ◌↔◌, ◌⊎◌, Bool, true, false, Option, String, nat_key, IpAddr,
  SocketAddr, ok, arith, u64,
}
use wasm_cloud_platform.Policy.{InstancePolicy}
use wasm_cloud_platform.Runtime.PolicyTracker.{
  Tracked, with_policy, check_tcp_bind, check_outbound_tcp_connect, record_outbound_connect,
  record_outbound_disconnect,
}
use wasm_cloud_platform.Runtime.SocketPolicy.{
  SocketAddrUse, tcp_bind, tcp_listen, tcp_accept, tcp_connect, udp_bind, udp_send, udp_receive,
  from_instance_policy, check, extra_allows, compose_socket_addr_check,
}

module _ {IpNet : Type 0} (parse : String → Option IpNet) (net_contains : IpNet → IpAddr → Bool)
    (policy : InstancePolicy) (extra : Option (SocketAddr → SocketAddrUse → Bool)) where
  -- the closure for one policy, as the executor builds it
  abbrev pub composed : SocketAddr → SocketAddrUse → Tracked → Tracked × Bool
  composed =
      compose_socket_addr_check net_contains (from_instance_policy parse policy)
        (with_policy parse policy) extra

  -- A socket operation goes through exactly if the snapshot of the policy allows it, the extra
  -- check does, and, for a connection, a slot is free: the two readings of one policy agree.
  pub composed-true_iff :
      (addr : SocketAddr) (use_type : SocketAddrUse) (s : Tracked)
      → ((composed addr use_type s).1 ≡ true) ↔ (
          (check net_contains (from_instance_policy parse policy) addr use_type ≡ ok tt)
          × (extra_allows extra addr use_type ≡ true)
          × (use_type ≡ tcp_connect
              → s.counters.outbound_connections_active < policy.network.max_outbound_connections))
  unfolding compose_socket_addr_check check check_tcp_bind check_outbound_tcp_connect
      from_instance_policy with_policy
  composed-true_iff addr tcp_bind s = ground arith
  composed-true_iff addr tcp_listen s = ground arith
  composed-true_iff addr tcp_accept s = ground arith
  composed-true_iff addr tcp_connect s = ground arith
  composed-true_iff addr udp_bind s = ground arith
  composed-true_iff addr udp_send s = ground arith
  composed-true_iff addr udp_receive s = ground arith

  -- An operation that goes through takes one slot if it is a connection and none otherwise, and
  -- one that is refused, also by the extra check after a slot was reserved, leaves the slots as
  -- they were.
  pub composed-slots :
      (addr : SocketAddr) (use_type : SocketAddrUse) (s : Tracked)
      → s.local ≤ s.counters.outbound_connections_active
      → policy.network.max_outbound_connections < 2 ^ 32
      → let (s', allowed) = composed addr use_type s in
        ((allowed ≡ true)
          × (use_type ≡ tcp_connect)
          × (s'.counters.outbound_connections_active ≡ s.counters.outbound_connections_active + 1)
          × (s'.local ≡ s.local + 1)
          × (s'.counters.outbound_connections_total
              ≡ u64 (s.counters.outbound_connections_total + 1)))
        ⊎ (((allowed ≡ false) ⊎ (use_type ≢ tcp_connect))
            × (s'.counters.outbound_connections_active ≡ s.counters.outbound_connections_active)
            × (s'.local ≡ s.local)
            × (s'.counters.outbound_connections_total ≡ s.counters.outbound_connections_total))
  unfolding compose_socket_addr_check check_tcp_bind check_outbound_tcp_connect
      record_outbound_connect record_outbound_disconnect with_policy
  composed-slots addr tcp_bind s own word = ground arith
  composed-slots addr tcp_listen s own word = ground arith
  composed-slots addr tcp_accept s own word = ground arith
  composed-slots addr tcp_connect s own word = ground arith
  composed-slots addr udp_bind s own word = ground arith
  composed-slots addr udp_send s own word = ground arith
  composed-slots addr udp_receive s own word = ground arith
