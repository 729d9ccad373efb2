-- ===== src/Proxy/CircuitBreaker/Step.antt =====
-- One circuit of crates/proxy/src/gateway/circuit_breaker.rs as a state machine.
use wasm_cloud_platform.Common.{
  ℕ, ◌+◌, ◌^◌, ◌≤◌, ◌<◌, ◌≡◌, refl, ◌↔◌, ◌≢◌, inl, inr, Bool, true, Bool-cases, leb, List, [], ◌∷◌,
  none, length, All, Instant, duration_since, as_secs, arith,
}
use wasm_cloud_platform.Proxy.CircuitBreaker.{
  closed, open_circuit, Circuit, check, success, failure, fresh,
}

-- A request is refused exactly when the circuit is open and its timeout has not passed.
pub check-rejects_iff :
    (timeout : ℕ) (now : Instant) (c : Circuit)
    → ((check timeout now c).1 ≡ true)
      ↔ ((c.state ≡ open_circuit) × (as_secs (duration_since now c.last_state_change) < timeout))
unfolding check
check-rejects_iff timeout now c = ground arith

-- What may happen to a circuit, with the time at which it happens.
pub data Event : Type 0 where
  checks succeeds fails : Event

module _ (threshold timeout : ℕ) where
  -- the circuit afterwards, and the answers of the checks put before `answers`
  pub step : Circuit × List Bool → Instant × Event → Circuit × List Bool
  step (c, answers) (now, checks) = ((check timeout now c).0, (check timeout now c).1 ∷ answers)
  step (c, answers) (now, succeeds) = (success now c, answers)
  step (c, answers) (now, fails) = (failure threshold now c, answers)

  pub run : Circuit × List Bool → List (Instant × Event) → Circuit × List Bool
  run s [] = s
  run s (e ∷ es) = run (step s e) es

  -- the event falls before the timeout of a circuit that changed at `since`
  abbrev pub IsEarly : Instant → Instant × Event → Type 0
  IsEarly since e = as_secs (duration_since e.0 since) < timeout

  -- An open circuit that has been so since a given time.
  abbrev pub OpenSince : Instant → Circuit → Type 0
  OpenSince since c = (c.state ≡ open_circuit) × (c.last_state_change ≡ since)

  step-OpenSince :
      (since : Instant) (s : Circuit × List Bool) (e : Instant × Event)
      → OpenSince since s.0
      → IsEarly since e
      → All (λ b. b ≡ true) s.1
      → OpenSince since (step s e).0 × All (λ b. b ≡ true) (step s e).1
  unfolding step check success failure
  step-OpenSince since s (now, checks) o early a = ground arith
  step-OpenSince since s (now, succeeds) o early a = ground arith
  step-OpenSince since s (now, fails) o early a = ground arith

  -- Until the timeout has passed, an open circuit stays open with its time unchanged and refuses
  -- every request, whatever checks, successes and failures come in between.
  pub run-OpenSince :
      (since : Instant) (s : Circuit × List Bool) (es : List (Instant × Event))
      → OpenSince since s.0
      → All (IsEarly since) es
      → All (λ b. b ≡ true) s.1
      → OpenSince since (run s es).0 × All (λ b. b ≡ true) (run s es).1
  unfolding run
  run-OpenSince since s [] o early a = (o, a)
  run-OpenSince since s (e ∷ es) o early a =
      let (o', a') = step-OpenSince since s e o early.0 a in
      run-OpenSince since (step s e) es o' early.1 a'

module _ (threshold : ℕ) where
  -- failures one after the other
  pub failures : Circuit → List Instant → Circuit
  failures c [] = c
  failures c (now ∷ later) = failures (failure threshold now c) later

  failures_open :
      (c : Circuit) (ts : List Instant)
      → c.state ≡ open_circuit
      → (failures c ts).state ≡ open_circuit
  unfolding failures failure
  failures_open c [] o = o
  failures_open c (now ∷ later) o = failures_open (failure threshold now c) later (ground arith)

  failures_count :
      (c : Circuit) (ts : List Instant)
      → threshold < 2 ^ 32
      → c.state ≡ closed
      → c.consecutive_failures < threshold
      → ((failures c ts).state ≡ open_circuit) ↔ (threshold ≤ c.consecutive_failures + length ts)
  unfolding failures failure
  failures_count c [] small o below = (λ h. ground arith, λ h. absurd (omega arith))
  failures_count c (now ∷ later) small o below =
      elim (Bool-cases (leb threshold (c.consecutive_failures + 1))) [
        | inl full ↦
            (λ h. ground arith, λ h. failures_open (failure threshold now c) later (ground arith))
        | inr room ↦
            let (f, g) =
              failures_count (failure threshold now c) later small (ground arith) (ground arith) in
            let e : (failure threshold now c).consecutive_failures ≡ c.consecutive_failures + 1 =
              ground arith in
            (λ h. omega (arith, f h, e), λ h. g (omega (arith, h, e)))
      ]

  -- A new circuit opens after exactly `threshold` failures in a row.
  pub failures-fresh_iff :
      (now : Instant) (ts : List Instant)
      → 0 < threshold
      → threshold < 2 ^ 32
      → ((failures (fresh now) ts).state ≡ open_circuit) ↔ (threshold ≤ length ts)
  failures-fresh_iff now ts pos small =
      let (f, g) = failures_count (fresh now) ts small refl pos in
      (λ h. omega (arith, f h), λ h. g (omega arith))

module _ (threshold timeout : ℕ) where
  -- Once the timeout has passed, the next request goes through, and its success closes the
  -- circuit with no failure counted, while its failure opens it again at that time.
  pub open-recovers :
      (c : Circuit) (now later : Instant)
      → c.state ≡ open_circuit
      → timeout ≤ as_secs (duration_since now c.last_state_change)
      → let (c', refused) = check timeout now c in
        (refused ≢ true)
        × ((success later c').state ≡ closed)
        × ((success later c').consecutive_failures ≡ 0)
        × OpenSince threshold timeout later (failure threshold later c')
  unfolding check success failure
  open-recovers c now later o h = ground arith

-- What holds of a circuit at all times.
pub record IsSound (threshold : ℕ) (c : Circuit) : Type 0 where
  pub below : c.state ≡ closed → c.consecutive_failures < threshold
  pub failed : c.state ≢ closed → c.last_failure_at ≢ none

module _ (threshold : ℕ) (c : Circuit) where
  pub check-IsSound :
      (timeout : ℕ) (now : Instant)
      → IsSound threshold c
      → IsSound threshold (check timeout now c).0
  unfolding check
  check-IsSound timeout now h = ground arith

  pub success-IsSound :
      (now : Instant) → 0 < threshold → IsSound threshold c → IsSound threshold (success now c)
  unfolding success
  success-IsSound now pos h = ground arith

  pub failure-IsSound :
      (now : Instant) → IsSound threshold c → IsSound threshold (failure threshold now c)
  unfolding failure
  failure-IsSound now h = ground arith
