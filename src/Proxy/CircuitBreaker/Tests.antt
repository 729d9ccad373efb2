-- ===== src/Proxy/CircuitBreaker/Tests.antt =====
-- Runs of the circuit breaker, and its theorems at concrete tables.
use wasm_cloud_platform.Common.{
  ◌*◌, ◌≡◌, refl, true, false, All, List, [], ◌∷◌, some, string_key, lookup, insert, retain_keys,
  Instant, nanos_per_sec, arith,
}
use wasm_cloud_platform.Proxy.CircuitBreaker.{
  CircuitBreakerManager, Circuit, closed, open_circuit, half_open, fresh, check, success, failure,
  is_circuit_open, record_success, record_failure, open_circuit_count, prune_removed_apps, new,
}
use wasm_cloud_platform.Proxy.CircuitBreaker.Step.{
  Event, checks, succeeds, fails, run, OpenSince, run-OpenSince,
}
use wasm_cloud_platform.Proxy.CircuitBreaker.Manager.{IsValid}

program : Unit {0}
unfolding new is_circuit_open record_success record_failure open_circuit_count prune_removed_apps
    check success failure lookup insert retain_keys
program = tt

abbrev second : Instant
second = nanos_per_sec

abbrev tripped : Circuit
tripped = record {
  state = open_circuit;
  consecutive_failures = 5;
  last_failure_at = some (10 * second);
  last_state_change = 10 * second;
}

abbrev probing : Circuit
probing = record tripped { state = half_open; last_state_change = 40 * second }

abbrev table : CircuitBreakerManager
table = record {
  circuits = ("a", tripped) ∷ ("b", fresh 0) ∷ ("c", probing) ∷ [];
  default_failure_threshold = 5;
  default_reset_timeout_secs = 30;
}

five_failures : CircuitBreakerManager
five_failures = fail (fail (fail (fail (fail new))))
  where
    fail : CircuitBreakerManager → CircuitBreakerManager
    fail m = record_failure m "test-app" 0

closed_to_open :
    ((is_circuit_open new "test-app" 0).1 ≡ false)
    × ((is_circuit_open five_failures "test-app" 0).1 ≡ true)
unfolding program five_failures
closed_to_open = (refl, refl)

half_open_success_closes :
    lookup "c" (record_success table "c" (41 * second)).circuits
    ≡ some (record probing {
      state = closed;
      consecutive_failures = 0;
      last_state_change = 41 * second;
    })
unfolding program
half_open_success_closes = refl

one_open : (open_circuit_count table ≡ 1) × ((prune_removed_apps table ("b" ∷ [])).1 ≡ 2)
unfolding program
one_open = (refl, refl)

abbrev stormy : List (Instant × Event)
stormy =
    (11 * second, checks)
    ∷ (12 * second, succeeds)
    ∷ (13 * second, fails)
    ∷ (39 * second, checks)
    ∷ []

run-OpenSince_example :
    OpenSince 5 30 (10 * second) (run 5 30 (tripped, []) stormy).0
    × All (λ b. b ≡ true) (run 5 30 (tripped, []) stormy).1
run-OpenSince_example =
    run-OpenSince 5 30 (10 * second) (tripped, []) stormy (refl, refl) (omega arith) tt

table-IsValid : IsValid table
table-IsValid = record {
  positive = omega arith;
  sound = (ground arith, (ground arith, (ground arith, tt)));
}
