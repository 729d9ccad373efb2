-- ===== src/Runtime/PolicyTracker/Core.antt =====
-- crates/runtime/src/policy_tracker/core.rs. `IpNet` and the membership of an address in a
-- network are the `ipnet` crate's, and are parameters.
use wasm_cloud_platform.Common.{
  ℕ, ◌-◌, Bool, Option, none, some, List, [], ◌∷◌, String, any, leb, ◌==◌, nat_key, if◌then◌else◌,
  IpAddr,
}
use wasm_cloud_platform.Policy.{InstancePolicy}
use wasm_cloud_platform.Runtime.PolicyTracker.Counters.{PolicyCounters}

pub record PolicyEnforcer (IpNet : Type 0) : Type 0 where
  pub policy : InstancePolicy
  pub allowed_cidrs_parsed : List IpNet
  pub denied_cidrs_parsed : List IpNet

-- what the calls of one store change: the counters, which stores may share, and its own
-- `local_outbound_connections_active`
pub record Tracked : Type 0 where
  pub counters : PolicyCounters
  pub local : ℕ

module _ {IpNet : Type 0} where
  -- texts that do not parse are skipped
  unfoldable pub parse_cidrs : (String → Option IpNet) → List String → List IpNet
  parse_cidrs parse [] = []
  parse_cidrs parse (s ∷ ss) =
      let rest = parse_cidrs parse ss in elim (parse s) [ none ↦ rest | some net ↦ net ∷ rest ]

  unfoldable pub with_policy : (String → Option IpNet) → InstancePolicy → PolicyEnforcer IpNet
  with_policy parse policy = record {
    policy = policy;
    allowed_cidrs_parsed = parse_cidrs parse policy.network.allowed_cidrs;
    denied_cidrs_parsed = parse_cidrs parse policy.network.denied_cidrs;
  }

  abbrev pub ip_in_cidrs : (IpNet → IpAddr → Bool) → IpAddr → List IpNet → Bool
  ip_in_cidrs net_contains ip = any (λ cidr. net_contains cidr ip)

-- `update_peak_u32` and `update_peak_u64`, with no writer in between
abbrev pub update_peak : ℕ → ℕ → ℕ
update_peak peak candidate = if leb candidate peak then peak else candidate

unfoldable pub reset_active_counters : Tracked → Tracked
reset_active_counters s = record {
  counters = record s.counters {
    outbound_connections_active = 0;
    inbound_connections_active = 0;
    open_fds = 0;
  };
  local = 0;
}

unfoldable pub release_tracked_outbound_connections : Tracked → Tracked
release_tracked_outbound_connections s = if s.local == 0 then record s { local = 0 } else record {
  counters = record s.counters {
    outbound_connections_active = s.counters.outbound_connections_active - s.local;
  };
  local = 0;
}
