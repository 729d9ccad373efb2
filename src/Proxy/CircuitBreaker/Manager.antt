-- ===== src/Proxy/CircuitBreaker/Manager.antt =====
-- The table of circuits: crates/proxy/src/gateway/circuit_breaker.rs, `CircuitBreakerManager`.
use wasm_cloud_platform.Common.{
  ℕ, All, beq_refl, ◌<◌, ◌≡◌, Bool, false, List, [], ◌∷◌, some, String, string_key, lookup,
  lookup-insert, lookup-retain_keys, or_insert, contains, Values, or_insert-Values, insert-Values,
  retain_keys-Values, Instant, arith,
}
use wasm_cloud_platform.Proxy.CircuitBreaker.{
  CircuitBreakerManager, Circuit, fresh, check, success, failure, is_circuit_open, record_success,
  record_failure, prune_removed_apps, half_open,
}
use wasm_cloud_platform.Proxy.CircuitBreaker.Step.{
  IsSound, check-IsSound, success-IsSound, failure-IsSound,
}

-- The calls that the proxy makes.
pub data Call : Type 0 where
  is_open : String → Call
  succeeded : String → Call
  failed : String → Call
  pruned : List String → Call

pub after : CircuitBreakerManager → Instant × Call → CircuitBreakerManager
after m (now, is_open app) = (is_circuit_open m app now).0
after m (now, succeeded app) = record_success m app now
after m (now, failed app) = record_failure m app now
after m (now, pruned active) = (prune_removed_apps m active).0

-- Every circuit of the table is sound for the table's threshold.
pub record IsValid (m : CircuitBreakerManager) : Type 0 where
  pub positive : 0 < m.default_failure_threshold
  pub sound : Values (IsSound m.default_failure_threshold) m.circuits

fresh-IsSound : {threshold : ℕ} (now : Instant) → 0 < threshold → IsSound threshold (fresh now)
fresh-IsSound now pos = ground arith

-- the circuit that a call works on
or_insert-IsSound :
    (m : CircuitBreakerManager) (app : String) (now : Instant)
    → IsValid m
    → IsSound m.default_failure_threshold (or_insert app (fresh now) m.circuits)
or_insert-IsSound m app now v =
    or_insert-Values (IsSound m.default_failure_threshold) app (fresh now) m.circuits
      (fresh-IsSound now v.positive) v.sound

-- Every call keeps the table valid: a closed circuit has counted fewer failures than the
-- threshold, and one that is not closed remembers a failure.
pub after-IsValid :
    (m : CircuitBreakerManager) (now : Instant) (call : Call)
    → IsValid m
    → IsValid (after m (now, call))
unfolding after is_circuit_open record_success record_failure prune_removed_apps
after-IsValid m now (is_open app) v = record {
  positive = v.positive;
  sound =
      insert-Values (IsSound m.default_failure_threshold) app _ m.circuits
        (check-IsSound _ _ m.default_reset_timeout_secs now (or_insert-IsSound m app now v))
        v.sound;
}
after-IsValid m now (succeeded app) v = record {
  positive = v.positive;
  sound =
      insert-Values (IsSound m.default_failure_threshold) app _ m.circuits
        (success-IsSound _ _ now v.positive (or_insert-IsSound m app now v)) v.sound;
}
after-IsValid m now (failed app) v = record {
  positive = v.positive;
  sound =
      insert-Values (IsSound m.default_failure_threshold) app _ m.circuits
        (failure-IsSound _ _ now (or_insert-IsSound m app now v)) v.sound;
}
after-IsValid m now (pruned active) v = record {
  positive = v.positive;
  sound =
      retain_keys-Values (IsSound m.default_failure_threshold) (contains active) m.circuits v.sound;
}

-- the app that a call is about; pruning concerns the apps that are not active
abbrev pub Concerns : Call → String → Type 0
Concerns (is_open app) other = app ≡ other
Concerns (succeeded app) other = app ≡ other
Concerns (failed app) other = app ≡ other
Concerns (pruned active) other = contains active other ≡ false

-- A call leaves the circuit of every app that it does not concern as it was.
pub after-isolated :
    (m : CircuitBreakerManager) (now : Instant) (call : Call) (other : String)
    → ¬ Concerns call other
    → lookup other (after m (now, call)).circuits ≡ lookup other m.circuits
unfolding after is_circuit_open record_success record_failure prune_removed_apps
after-isolated m now (is_open app) other h = ground (
  arith,
  lookup-insert app other
      (check m.default_reset_timeout_secs now (or_insert app (fresh now) m.circuits)).0 m.circuits,
  string_key.same_iff app other,
)
after-isolated m now (succeeded app) other h = ground (
  arith,
  lookup-insert app other (success now (or_insert app (fresh now) m.circuits)) m.circuits,
  string_key.same_iff app other,
)
after-isolated m now (failed app) other h = ground (
  arith,
  lookup-insert app other
      (failure m.default_failure_threshold now (or_insert app (fresh now) m.circuits)) m.circuits,
  string_key.same_iff app other,
)
after-isolated m now (pruned active) other h =
    ground (arith, lookup-retain_keys (contains active) other m.circuits)

-- consecutive requests of one app, each at its own time; the answers, the last one first
pub ask :
    String → CircuitBreakerManager × List Bool → List Instant → CircuitBreakerManager × List Bool
ask app (m, answers) [] = (m, answers)
ask app (m, answers) (now ∷ later) =
    ask app ((is_circuit_open m app now).0, (is_circuit_open m app now).1 ∷ answers) later

is_circuit_open-half_open :
    (app : String) (m : CircuitBreakerManager) (now : Instant) (c : Circuit)
    → lookup app m.circuits ≡ some c
    → c.state ≡ half_open
    → (lookup app (is_circuit_open m app now).0.circuits ≡ some c)
      × ((is_circuit_open m app now).1 ≡ false)
unfolding is_circuit_open check
is_circuit_open-half_open app m now c found h =
    ground (arith, lookup-insert app app c m.circuits, beq_refl app)

-- A half-open circuit refuses no request: every one of any number of requests in a row is let
-- through, and the circuit is still half-open after them.
pub ask-half_open :
    (app : String) (m : CircuitBreakerManager) (answers : List Bool) (ts : List Instant)
    (c : Circuit)
    → lookup app m.circuits ≡ some c
    → c.state ≡ half_open
    → All (λ b. b ≡ false) answers
    → (lookup app (ask app (m, answers) ts).0.circuits ≡ some c)
      × All (λ b. b ≡ false) (ask app (m, answers) ts).1
unfolding ask
ask-half_open app m answers [] c found h a = (found, a)
ask-half_open app m answers (now ∷ later) c found h a =
    let (found', let_in) = is_circuit_open-half_open app m now c found h in
    ask-half_open app (is_circuit_open m app now).0 _ later c found' h (let_in, a)
