-- ===== src/Proxy/Upstream/Tests.antt =====
-- Runs of the upstream registry, and its theorems at concrete registries.
use wasm_cloud_platform.Common.{
  ℕ, ◌%◌, ◌≡◌, refl, false, none, some, List, [], ◌∷◌, ◌++◌, map, string_key, lookup, insert,
  remove, take, drop, v4, arith,
}
use wasm_cloud_platform.Proxy.Upstream.{
  UpstreamEndpoint, UpstreamRegistry, AppHealthState, default_check, from_app_config, fresh, new,
  pushed, add, kept, remove_addr, next, count, register_health_check, remove_health_check, checked,
  record_health_result, is_app_healthy, next_healthy,
}
use wasm_cloud_platform.Proxy.Upstream.Calls.{removed, after}
use wasm_cloud_platform.Proxy.Upstream.Addresses.{has, written, after-has}
use wasm_cloud_platform.Proxy.Upstream.RoundRobin.{answers, next-visits_all}
use wasm_cloud_platform.Proxy.Upstream.Hysteresis.{IsCountable}

program : Unit {0}
unfolding from_app_config pushed add kept remove_addr next count register_health_check
    remove_health_check checked record_health_result is_app_healthy next_healthy lookup insert
    remove after
program = tt

abbrev at : ℕ → UpstreamEndpoint
at port = record { addr = record { ip = v4 0x7f000001; port = port }; h2c = false }

abbrev three : List UpstreamEndpoint
three = at 8001 ∷ at 8002 ∷ at 8003 ∷ []

abbrev registry : UpstreamRegistry
registry = record {
  inner = ("a", (7, three)) ∷ [];
  health_configs = ("a", default_check) ∷ [];
  health_state = ("a", fresh) ∷ [];
}

add_twice : add (add new "a" (at 8001)) "a" (at 8001) ≡ add new "a" (at 8001)
unfolding program
add_twice = refl

remove_last : (remove_addr (add new "a" (at 8001)) "a" (at 8001).addr).inner ≡ []
unfolding program
remove_last = refl

down : UpstreamRegistry
down = fail (fail (fail registry))
  where
    fail : UpstreamRegistry → UpstreamRegistry
    fail r = record_health_result r "a" false

three_failures :
    ((next_healthy down "a").1 ≡ none) × ((next_healthy registry "a").1 ≡ some (at 8002))
unfolding program down
three_failures = (refl, refl)

next-visits_all_example :
    answers 3 "a" registry ≡ map (λ e. some e) (drop (7 % 3) three ++ take (7 % 3) three)
unfolding lookup
next-visits_all_example = next-visits_all registry "a" 7 three refl (omega arith) (omega arith)

after-has_example :
    has (after registry (removed "a" (at 8002).addr)) "a" (at 8001).addr
    ≡ written (removed "a" (at 8002).addr) "a" (at 8001).addr (has registry "a" (at 8001).addr)
after-has_example = after-has registry (removed "a" (at 8002).addr) "a" (at 8001).addr

default_check-IsCountable : IsCountable default_check
default_check-IsCountable = record {
  failures = (omega arith, omega arith);
  successes = (omega arith, omega arith);
}

abbrev out : AppHealthState
out = record { consecutive_successes = 1; consecutive_failures = 0; healthy = false }
