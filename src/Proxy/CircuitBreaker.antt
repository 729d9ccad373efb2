-- ===== src/Proxy/CircuitBreaker.antt =====
-- crates/proxy/src/gateway/circuit_breaker.rs: the circuit of each upstream app. A call takes the
-- time at which it runs, `now`, for every `Instant::now()` in it.
pub mod Step
pub mod Manager
mod Tests
use wasm_cloud_platform.Common.{
  ℕ, ◌+◌, Bool, true, false, Option, none, some, List, [], ◌∷◌, String, Map, lookup, insert,
  or_insert, retain_keys, contains, length, ◌-◌, count, if◌then◌else◌, leb, u32, Instant,
  duration_since, as_secs, string_key,
}

pub data CircuitState : Type 0 where
  closed open_circuit half_open : CircuitState

pub record Circuit : Type 0 where
  pub state : CircuitState
  pub consecutive_failures : ℕ
  pub last_failure_at : Option Instant
  pub last_state_change : Instant

pub record CircuitBreakerManager : Type 0 where
  pub circuits : Map String Circuit
  pub default_failure_threshold : ℕ
  pub default_reset_timeout_secs : ℕ

pub new : CircuitBreakerManager
new = record { circuits = []; default_failure_threshold = 5; default_reset_timeout_secs = 30 }

-- the circuit that `or_insert_with` creates
abbrev pub fresh : Instant → Circuit
fresh now = record {
  state = closed;
  consecutive_failures = 0;
  last_failure_at = none;
  last_state_change = now;
}

-- The body of `is_circuit_open` on the app's circuit: the circuit afterwards, and the answer.
unfoldable pub check : ℕ → Instant → Circuit → Circuit × Bool
check timeout now c = elim c.state [
  | closed ↦ (c, false)
  | open_circuit ↦
      if leb timeout (as_secs (duration_since now c.last_state_change))
      then (record c { state = half_open; last_state_change = now }, false)
      else (c, true)
  | half_open ↦ (c, false)
]

-- the body of `record_success`
unfoldable pub success : Instant → Circuit → Circuit
success now c = elim c.state [
  | half_open ↦ record c { state = closed; consecutive_failures = 0; last_state_change = now }
  | _ ↦ record c { consecutive_failures = 0 }
]

-- the `match` of `record_failure`, after the counter went up
trip : ℕ → Instant → Circuit → Circuit
trip threshold now c = elim c.state [
  | closed ↦
      if leb threshold c.consecutive_failures
      then record c { state = open_circuit; last_state_change = now }
      else c
  | half_open ↦ record c { state = open_circuit; last_state_change = now }
  | open_circuit ↦ c
]

-- the body of `record_failure`; the `u32` counter wraps
unfoldable pub failure : ℕ → Instant → Circuit → Circuit
unfolding trip
failure threshold now c = trip threshold now (record c {
  consecutive_failures = u32 (c.consecutive_failures + 1);
  last_failure_at = some now;
})

unfoldable pub is_circuit_open :
    CircuitBreakerManager → String → Instant → CircuitBreakerManager × Bool
is_circuit_open m app now =
    let (c, answer) =
      check m.default_reset_timeout_secs now (or_insert app (fresh now) m.circuits) in
    (record m { circuits = insert app c m.circuits }, answer)

unfoldable pub record_success : CircuitBreakerManager → String → Instant → CircuitBreakerManager
record_success m app now = record m {
  circuits = insert app (success now (or_insert app (fresh now) m.circuits)) m.circuits;
}

unfoldable pub record_failure : CircuitBreakerManager → String → Instant → CircuitBreakerManager
record_failure m app now = record m {
  circuits =
      insert app (failure m.default_failure_threshold now (or_insert app (fresh now) m.circuits))
        m.circuits;
}

abbrev is_open : CircuitState → Bool
is_open open_circuit = true
is_open _ = false

unfoldable pub open_circuit_count : CircuitBreakerManager → ℕ
open_circuit_count m = count (λ (entry : String × Circuit). is_open entry.1.state) m.circuits

-- the pruned table, and the number of pruned entries
unfoldable pub prune_removed_apps : CircuitBreakerManager → List String → CircuitBreakerManager × ℕ
prune_removed_apps m active =
    let kept = retain_keys (contains active) m.circuits in
    (record m { circuits = kept }, length m.circuits - length kept)

unfoldable pub set_last_state_change :
    CircuitBreakerManager → String → Instant → Instant → CircuitBreakerManager
set_last_state_change m app instant now = record m {
  circuits =
      insert app (record (or_insert app (fresh now) m.circuits) { last_state_change = instant })
        m.circuits;
}
