-- ===== src/Runtime/Samples.antt =====
-- A policy with its enforcer and a state, for the tests. A network is the first byte of its IPv4
-- addresses, which stands in for the `ipnet` crate.
use wasm_cloud_platform.Common.{
  ℕ, ◌/◌, ◌^◌, ◌≡◌, refl, Bool, false, Option, none, some, [], ◌∷◌, String, string_key, nat_beq,
  ◌==◌, if◌then◌else◌, IpAddr, v4, v6, ok,
}
use wasm_cloud_platform.Policy.{
  PolicyConfig, InstancePolicy, default_network, default_filesystem, resolve, resolve_network,
  resolve_filesystem, validate_cidrs, validate_filesystem_policy, validate_paths, network_from,
}
use wasm_cloud_platform.Runtime.PolicyTracker.{
  PolicyEnforcer, Tracked, new_counters, with_policy, parse_cidrs,
}

abbrev pub parse : String → Option ℕ
parse s = if s == "10.0.0.0/8" then some 10 else if s == "169.0.0.0/8" then some 169 else none

abbrev pub net_contains : ℕ → IpAddr → Bool
net_contains net (v4 bits) = nat_beq (bits / 2 ^ 24) net
net_contains net (v6 bits) = false

-- 10.0.0.1 and 8.8.8.8
abbrev pub inside : IpAddr
inside = v4 0x0a000001

abbrev pub outside : IpAddr
outside = v4 0x08080808

abbrev pub config : PolicyConfig
config = record {
  network = some (record {
    allow_outbound_tcp = none;
    allow_outbound_udp = none;
    allow_dns = none;
    allowed_cidrs = some ("10.0.0.0/8" ∷ []);
    denied_cidrs = some ("169.0.0.0/8" ∷ []);
    max_outbound_connections = some 2;
    max_egress_bytes = some 1000;
    allow_inbound = none;
  });
  filesystem = none;
}

abbrev pub policy : InstancePolicy
policy = record {
  network = record default_network {
    allowed_cidrs = "10.0.0.0/8" ∷ [];
    denied_cidrs = "169.0.0.0/8" ∷ [];
    max_outbound_connections = 2;
    max_egress_bytes = 1000;
    allowed_bind_ports = 8080 ∷ [];
  };
  filesystem = default_filesystem;
}

pub config_resolves : resolve parse config 8080 ≡ ok policy
unfolding resolve resolve_network resolve_filesystem validate_cidrs validate_filesystem_policy
    validate_paths network_from
config_resolves = refl

abbrev pub enforcer : PolicyEnforcer ℕ
enforcer = record {
  policy = policy;
  allowed_cidrs_parsed = 10 ∷ [];
  denied_cidrs_parsed = 169 ∷ [];
}

pub enforcer_lem : with_policy parse policy ≡ enforcer
unfolding with_policy parse_cidrs
enforcer_lem = refl

-- one connection, 990 bytes sent, and two open files
abbrev pub busy : Tracked
busy = record {
  counters = record new_counters {
    outbound_connections_active = 1;
    egress_bytes = 990;
    open_fds = 2;
    open_fds_peak = 3;
  };
  local = 1;
}
