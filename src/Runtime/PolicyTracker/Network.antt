-- ===== src/Runtime/PolicyTracker/Network.antt =====
-- crates/runtime/src/policy_tracker/network.rs.
use wasm_cloud_platform.Common.{
  ℕ, ◌+◌, Bool, not, ◌&&◌, contains, ltb, leb, ◌==◌, nat_key, if◌then◌else◌, IpAddr, fetch_add_u32,
  fetch_add_u64, fetch_sub_u32, u32, u64, Result, ok, err,
}
use wasm_cloud_platform.Policy.{is_empty}
use wasm_cloud_platform.Runtime.PolicyTracker.Counters.{
  PolicyDenied, network_disabled, destination_denied, connection_limit_exceeded,
  egress_limit_exceeded, dns_disabled, bind_denied, in_denied_cidrs, not_in_allowed_cidrs,
}
use wasm_cloud_platform.Runtime.PolicyTracker.Core.{PolicyEnforcer, Tracked, ip_in_cidrs}

abbrev pub Answer : Type 0
Answer = Tracked × Result PolicyDenied (Unit {0})

abbrev deny_connection : Tracked → PolicyDenied → Answer
deny_connection s reason = (
  record s {
    counters = record s.counters {
      connection_denied_total = fetch_add_u64 s.counters.connection_denied_total 1;
    };
  },
  err reason,
)

-- the compare-and-exchange loop: a slot below the limit
reserve_slot : ℕ → Tracked → Answer
reserve_slot limit s =
    let current = s.counters.outbound_connections_active in
    if leb limit current then deny_connection s (connection_limit_exceeded current limit) else (
      record {
        counters = record s.counters { outbound_connections_active = u32 (current + 1) };
        local = fetch_add_u32 s.local 1;
      },
      ok tt,
    )

module _ {IpNet : Type 0} (net_contains : IpNet → IpAddr → Bool) (e : PolicyEnforcer IpNet) where
  unfoldable pub check_outbound_tcp_connect : IpAddr → ℕ → Tracked → Answer
  unfolding reserve_slot
  check_outbound_tcp_connect dest_ip dest_port s =
      if not e.policy.network.allow_outbound_tcp
      then deny_connection s (network_disabled "tcp")
      else if ip_in_cidrs net_contains dest_ip e.denied_cidrs_parsed
      then deny_connection s (destination_denied dest_ip in_denied_cidrs)
      else if not (is_empty e.allowed_cidrs_parsed)
          && not (ip_in_cidrs net_contains dest_ip e.allowed_cidrs_parsed)
      then deny_connection s (destination_denied dest_ip not_in_allowed_cidrs)
      else reserve_slot e.policy.network.max_outbound_connections s

unfoldable pub record_outbound_connect : Tracked → Tracked
record_outbound_connect s = record s {
  counters = record s.counters {
    outbound_connections_total = fetch_add_u64 s.counters.outbound_connections_total 1;
  };
}

-- The wrapped value of `fetch_sub` is stored only where the old one was not 0.
unfoldable pub record_outbound_disconnect : Tracked → Tracked
record_outbound_disconnect s = if s.local == 0 then record s { local = 0 } else record {
  counters = record s.counters {
    outbound_connections_active =
        if s.counters.outbound_connections_active == 0
        then 0
        else fetch_sub_u32 s.counters.outbound_connections_active 1;
  };
  local = fetch_sub_u32 s.local 1;
}

module _ {IpNet : Type 0} (e : PolicyEnforcer IpNet) where
  -- deprecated in favour of `check_and_record_egress`, as is `record_egress`
  unfoldable pub check_egress : ℕ → Tracked → Answer
  check_egress additional_bytes s =
      let limit = e.policy.network.max_egress_bytes in
      let current = s.counters.egress_bytes in
      if limit == 0
      then (s, ok tt)
      else if ltb limit (u64 (current + additional_bytes))
      then (
        record s {
          counters = record s.counters {
            egress_denied_total = fetch_add_u64 s.counters.egress_denied_total 1;
          };
        },
        err (egress_limit_exceeded current additional_bytes limit),
      )
      else (s, ok tt)

  unfoldable pub check_and_record_egress : ℕ → Tracked → Answer
  check_and_record_egress bytes s =
      let limit = e.policy.network.max_egress_bytes in
      let current = s.counters.egress_bytes in
      let new_val = u64 (current + bytes) in
      if limit == 0
      then (
        record s { counters = record s.counters { egress_bytes = fetch_add_u64 current bytes } },
        ok tt,
      )
      else if ltb limit new_val
      then (
        record s {
          counters = record s.counters {
            egress_denied_total = fetch_add_u64 s.counters.egress_denied_total 1;
          };
        },
        err (egress_limit_exceeded current bytes limit),
      )
      else (record s { counters = record s.counters { egress_bytes = new_val } }, ok tt)

  unfoldable pub check_dns_lookup : Tracked → Answer
  check_dns_lookup s =
      if not e.policy.network.allow_dns
      then (
        record s {
          counters = record s.counters {
            dns_denied_total = fetch_add_u64 s.counters.dns_denied_total 1;
          };
        },
        err dns_disabled,
      )
      else (
        record s {
          counters = record s.counters {
            dns_lookups_total = fetch_add_u64 s.counters.dns_lookups_total 1;
          };
        },
        ok tt,
      )

  abbrev deny_bind : Tracked → PolicyDenied → Answer
  deny_bind s reason = (
    record s {
      counters = record s.counters {
        bind_denied_total = fetch_add_u64 s.counters.bind_denied_total 1;
      };
    },
    err reason,
  )

  unfoldable pub check_bind : ℕ → Tracked → Answer
  check_bind port s =
      if contains e.policy.network.allowed_bind_ports port
      then (s, ok tt)
      else deny_bind s (bind_denied port e.policy.network.allowed_bind_ports)

  unfoldable pub check_tcp_bind : ℕ → Tracked → Answer
  unfolding check_bind
  check_tcp_bind port s =
      if not e.policy.network.allow_inbound
      then deny_bind s (network_disabled "tcp_bind")
      else check_bind port s

unfoldable pub record_egress : ℕ → Tracked → Tracked
record_egress bytes s = record s {
  counters = record s.counters { egress_bytes = fetch_add_u64 s.counters.egress_bytes bytes };
}
