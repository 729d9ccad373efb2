-- ===== src/Proxy/Upstream.antt =====
-- crates/proxy/src/upstream/mod.rs: the live instances of each app, and its health.
-- `app_health_registry` is left out: no operation of this file reads or writes it.
pub mod Calls
pub mod Kept
pub mod Addresses
pub mod RoundRobin
pub mod Hysteresis
mod Tests
use wasm_cloud_platform.Common.{
  ℕ, ◌+◌, ◌%◌, ◌*◌, Bool, true, false, Option, none, some, List, [], ◌∷◌, ◌++◌, String, string_key,
  Map, lookup, insert, remove, contains_key, length, get_elem?, any, filter, not, ◌==◌, ◌&&◌,
  if◌then◌else◌, leb, u32, fetch_add_u64, nanos_per_sec, SocketAddr, socket_addr_key,
}

pub record UpstreamEndpoint : Type 0 where
  pub addr : SocketAddr
  pub h2c : Bool

-- durations are in nanoseconds
pub record AppHealthCheckConfig : Type 0 where
  pub path : String
  pub expected_status : ℕ
  pub interval : ℕ
  pub timeout : ℕ
  pub failure_threshold : ℕ
  pub success_threshold : ℕ

abbrev pub default_check : AppHealthCheckConfig
default_check = record {
  path = "/health";
  expected_status = 200;
  interval = 10 * nanos_per_sec;
  timeout = 5 * nanos_per_sec;
  failure_threshold = 3;
  success_threshold = 2;
}

-- on the config's `health_check_path`
unfoldable pub from_app_config : Option String → Option AppHealthCheckConfig
from_app_config none = none
from_app_config (some path) = some (record default_check { path = path })

pub record AppHealthState : Type 0 where
  pub consecutive_successes : ℕ
  pub consecutive_failures : ℕ
  pub healthy : Bool

-- the state that registering a check starts with
abbrev pub fresh : AppHealthState
fresh = record { consecutive_successes = 0; consecutive_failures = 0; healthy = true }

-- app to its round-robin counter and its addresses
abbrev pub UpstreamMap : Type 0
UpstreamMap = Map String (ℕ × List UpstreamEndpoint)

pub record UpstreamRegistry : Type 0 where
  pub inner : UpstreamMap
  pub health_configs : Map String AppHealthCheckConfig
  pub health_state : Map String AppHealthState

abbrev pub new : UpstreamRegistry
new = record { inner = []; health_configs = []; health_state = [] }

-- the endpoints of an app with one more, unless its address is there
unfoldable pub pushed : UpstreamEndpoint → List UpstreamEndpoint → List UpstreamEndpoint
pushed e es = if any (λ (x : UpstreamEndpoint). x.addr == e.addr) es then es else es ++ e ∷ []

unfoldable pub add : UpstreamRegistry → String → UpstreamEndpoint → UpstreamRegistry
add r app endpoint = elim (lookup app r.inner) [
  | none ↦ record r { inner = insert app (0, pushed endpoint []) r.inner }
  | some (counter, es) ↦ record r { inner = insert app (counter, pushed endpoint es) r.inner }
]

abbrev pub without_addr : SocketAddr → List UpstreamEndpoint → List UpstreamEndpoint
without_addr addr = filter (λ (x : UpstreamEndpoint). not (x.addr == addr))

-- the endpoints that are left, and the map without the app when none is
unfoldable pub kept : String → ℕ → List UpstreamEndpoint → UpstreamMap → UpstreamMap
kept app counter [] m = remove app m
kept app counter (e ∷ es) m = insert app (counter, e ∷ es) m

unfoldable pub remove_addr : UpstreamRegistry → String → SocketAddr → UpstreamRegistry
remove_addr r app addr = elim (lookup app r.inner) [
  | none ↦ r
  | some (counter, es) ↦ record r { inner = kept app counter (without_addr addr es) r.inner }
]

-- The counter is read and raised in one step, and `usize` has 64 bits.
unfoldable pub next : UpstreamRegistry → String → UpstreamRegistry × Option UpstreamEndpoint
next r app = elim (lookup app r.inner) [
  | none ↦ (r, none)
  | some (counter, []) ↦ (r, none)
  | some (counter, e ∷ es) ↦ (
    record r { inner = insert app (fetch_add_u64 counter 1, e ∷ es) r.inner },
    get_elem? (e ∷ es) (counter % length (e ∷ es)),
  )
]

unfoldable pub count : UpstreamRegistry → String → ℕ
count r app = elim (lookup app r.inner) [ none ↦ 0 | some (counter, es) ↦ length es ]

unfoldable pub register_health_check :
    UpstreamRegistry → String → AppHealthCheckConfig → UpstreamRegistry
register_health_check r app config = record r {
  health_configs = insert app config r.health_configs;
  health_state = insert app fresh r.health_state;
}

unfoldable pub remove_health_check : UpstreamRegistry → String → UpstreamRegistry
remove_health_check r app = record r {
  health_configs = remove app r.health_configs;
  health_state = remove app r.health_state;
}

-- the state of one app after a result; its `u32` counters wrap
unfoldable pub checked : AppHealthCheckConfig → Bool → AppHealthState → AppHealthState
checked config true s = record {
  consecutive_successes = u32 (s.consecutive_successes + 1);
  consecutive_failures = 0;
  healthy =
      if leb config.success_threshold (u32 (s.consecutive_successes + 1)) && not s.healthy
      then true
      else s.healthy;
}
checked config false s = record {
  consecutive_successes = 0;
  consecutive_failures = u32 (s.consecutive_failures + 1);
  healthy =
      if leb config.failure_threshold (u32 (s.consecutive_failures + 1)) && s.healthy
      then false
      else s.healthy;
}

unfoldable pub record_health_result : UpstreamRegistry → String → Bool → UpstreamRegistry
record_health_result r app success = elim (lookup app r.health_state) [
  | none ↦ r
  | some state ↦ elim (lookup app r.health_configs) [
    | none ↦ r
    | some config ↦ record r {
      health_state = insert app (checked config success state) r.health_state;
    }
  ]
]

unfoldable pub is_app_healthy : UpstreamRegistry → String → Bool
is_app_healthy r app = elim (lookup app r.health_state) [ none ↦ true | some s ↦ s.healthy ]

unfoldable pub next_healthy : UpstreamRegistry → String → UpstreamRegistry × Option UpstreamEndpoint
next_healthy r app =
    if not (contains_key app r.health_configs)
    then next r app
    else (if is_app_healthy r app then next r app else (r, none))
