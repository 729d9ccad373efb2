-- ===== src/Runtime/SocketPolicy.antt =====
-- crates/runtime/src/executor/socket_policy.rs: the check that every socket operation of an app
-- passes. The extra check, a callback of the embedder, is a parameter; it does not touch the
-- counters.
pub mod Composed
mod Tests
use wasm_cloud_platform.Common.{
  ℕ, Bool, true, false, not, ◌&&◌, Option, none, some, List, [], ◌∷◌, String, contains, nat_key,
  if◌then◌else◌, IpAddr, SocketAddr, Result, ok, err, any,
}
use wasm_cloud_platform.Policy.{InstancePolicy, is_empty}
use wasm_cloud_platform.Runtime.PolicyTracker.{
  PolicyEnforcer, Tracked, PolicyDenied, parse_cidrs, ip_in_cidrs, check_tcp_bind,
  check_outbound_tcp_connect, record_outbound_connect, record_outbound_disconnect,
}

pub data SocketAddrUse : Type 0 where
  tcp_bind tcp_listen tcp_accept tcp_connect udp_bind udp_send udp_receive : SocketAddrUse

pub record SocketPolicyCheck (IpNet : Type 0) : Type 0 where
  pub allow_inbound : Bool
  pub allow_outbound_tcp : Bool
  pub allow_outbound_udp : Bool
  pub allowed_bind_ports : List ℕ
  pub allowed_cidrs : List IpNet
  pub denied_cidrs : List IpNet

-- the texts that `check` refuses with
pub data Refusal : Type 0 where
  inbound_bind_disabled bind_port_not_allowed inbound_accept_disabled : Refusal
  outbound_tcp_disabled outbound_udp_disabled in_denied_cidrs not_in_allowed_cidrs : Refusal

module _ {IpNet : Type 0} where
  unfoldable pub from_instance_policy :
      (String → Option IpNet) → InstancePolicy → SocketPolicyCheck IpNet
  from_instance_policy parse policy = record {
    allow_inbound = policy.network.allow_inbound;
    allow_outbound_tcp = policy.network.allow_outbound_tcp;
    allow_outbound_udp = policy.network.allow_outbound_udp;
    allowed_bind_ports = policy.network.allowed_bind_ports;
    allowed_cidrs = parse_cidrs parse policy.network.allowed_cidrs;
    denied_cidrs = parse_cidrs parse policy.network.denied_cidrs;
  }

abbrev is_ok : {E : Type 0} → Result E (Unit {0}) → Bool
is_ok (ok u) = true
is_ok (err e) = false

abbrev pub extra_allows :
    Option (SocketAddr → SocketAddrUse → Bool) → SocketAddr → SocketAddrUse → Bool
extra_allows none addr use_type = true
extra_allows (some extra) addr use_type = extra addr use_type

module _ {IpNet : Type 0} (net_contains : IpNet → IpAddr → Bool) where
  outbound_ip_allowed : SocketPolicyCheck IpNet → IpAddr → Result Refusal (Unit {0})
  outbound_ip_allowed c ip =
      if ip_in_cidrs net_contains ip c.denied_cidrs
      then err in_denied_cidrs
      else if not (is_empty c.allowed_cidrs) && not (ip_in_cidrs net_contains ip c.allowed_cidrs)
      then err not_in_allowed_cidrs
      else ok tt

  check_bind_port : SocketPolicyCheck IpNet → SocketAddr → Result Refusal (Unit {0})
  check_bind_port c addr =
      if not c.allow_inbound
      then err inbound_bind_disabled
      else if not (contains c.allowed_bind_ports addr.port)
      then err bind_port_not_allowed
      else ok tt

  check_udp : SocketPolicyCheck IpNet → SocketAddr → Result Refusal (Unit {0})
  unfolding outbound_ip_allowed
  check_udp c addr =
      if not c.allow_outbound_udp then err outbound_udp_disabled else outbound_ip_allowed c addr.ip

  unfoldable pub check :
      SocketPolicyCheck IpNet → SocketAddr → SocketAddrUse → Result Refusal (Unit {0})
  unfolding outbound_ip_allowed check_bind_port check_udp
  check c addr tcp_bind = check_bind_port c addr
  check c addr tcp_listen = check_bind_port c addr
  check c addr tcp_accept = if not c.allow_inbound then err inbound_accept_disabled else ok tt
  check c addr tcp_connect =
      if not c.allow_outbound_tcp then err outbound_tcp_disabled else outbound_ip_allowed c addr.ip
  check c addr udp_bind = check_udp c addr
  check c addr udp_send = check_udp c addr
  check c addr udp_receive = check_udp c addr

  -- The first `match` of the closure: the state afterwards; whether the operation goes on; and
  -- `reserved_outbound_slot`.
  policy_verdict :
      SocketPolicyCheck IpNet
      → PolicyEnforcer IpNet
      → SocketAddr
      → SocketAddrUse
      → Tracked
      → Tracked × Bool × Bool
  policy_verdict snapshot e addr tcp_bind s =
      let (s', answer) = check_tcp_bind e addr.port s in (s', is_ok answer, false)
  policy_verdict snapshot e addr tcp_listen s =
      let (s', answer) = check_tcp_bind e addr.port s in (s', is_ok answer, false)
  policy_verdict snapshot e addr tcp_connect s =
      let (s', answer) = check_outbound_tcp_connect net_contains e addr.ip addr.port s in
      (s', is_ok answer, true)
  policy_verdict snapshot e addr tcp_accept s = (s, is_ok (check snapshot addr tcp_accept), false)
  policy_verdict snapshot e addr udp_bind s = (s, is_ok (check snapshot addr udp_bind), false)
  policy_verdict snapshot e addr udp_send s = (s, is_ok (check snapshot addr udp_send), false)
  policy_verdict snapshot e addr udp_receive s = (s, is_ok (check snapshot addr udp_receive), false)

  -- the closure that `compose_socket_addr_check` returns
  unfoldable pub compose_socket_addr_check :
      SocketPolicyCheck IpNet
      → PolicyEnforcer IpNet
      → Option (SocketAddr → SocketAddrUse → Bool)
      → SocketAddr
      → SocketAddrUse
      → Tracked
      → Tracked × Bool
  unfolding policy_verdict
  compose_socket_addr_check snapshot e extra addr use_type s =
      let (s', goes_on, reserved) = policy_verdict snapshot e addr use_type s in
      if not goes_on
      then (s', false)
      else if not (extra_allows extra addr use_type)
      then (if reserved then record_outbound_disconnect s' else s', false)
      else (if reserved then record_outbound_connect s' else s', true)
