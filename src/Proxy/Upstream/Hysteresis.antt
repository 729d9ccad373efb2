-- ===== src/Proxy/Upstream/Hysteresis.antt =====
-- The health state of one app in crates/proxy/src/upstream/mod.rs: when it turns.
use wasm_cloud_platform.Common.{
  ℕ, zero, suc, ◌+◌, ◌^◌, ◌≤◌, ◌<◌, ◌≡◌, ◌⊎◌, inl, inr, ◌↔◌, Bool, true, false, Bool-cases, leb,
  arith,
}
use wasm_cloud_platform.Proxy.Upstream.{AppHealthCheckConfig, AppHealthState, fresh, checked}

-- Thresholds that can be met and that the `u32` counters can count up to.
pub record IsCountable (config : AppHealthCheckConfig) : Type 0 where
  pub failures : (0 < config.failure_threshold) × (config.failure_threshold < 2 ^ 32)
  pub successes : (0 < config.success_threshold) × (config.success_threshold < 2 ^ 32)

-- What holds of a health state at all times: it has not counted what would turn it, and of the two
-- counts one is zero.
pub record IsSteady (config : AppHealthCheckConfig) (s : AppHealthState) : Type 0 where
  pub up : s.healthy ≡ true → s.consecutive_failures < config.failure_threshold
  pub down : s.healthy ≡ false → s.consecutive_successes < config.success_threshold
  pub apart : (s.consecutive_failures ≡ 0) ⊎ (s.consecutive_successes ≡ 0)

module _ (config : AppHealthCheckConfig) where
  -- The state that registering starts with is steady, and every result of a probe keeps it so: a
  -- healthy app has fewer failures in a row than its threshold, an unhealthy one fewer successes.
  pub checked-IsSteady :
      (success : Bool) (s : AppHealthState)
      → IsCountable config
      → IsSteady config s
      → IsSteady config fresh × IsSteady config (checked config success s)
  unfolding checked
  checked-IsSteady true s c h = ground (arith, c.failures, c.successes)
  checked-IsSteady false s c h = ground (arith, c.failures, c.successes)

  -- as many results that are the same
  pub repeated : Bool → ℕ → AppHealthState → AppHealthState
  repeated success zero s = s
  repeated success (suc n) s = repeated success n (checked config success s)

  stays_down :
      (n : ℕ) (s : AppHealthState) → s.healthy ≡ false → (repeated false n s).healthy ≡ false
  unfolding repeated checked
  stays_down zero s h = h
  stays_down (suc n) s h = stays_down n (checked config false s) (ground arith)

  stays_up : (n : ℕ) (s : AppHealthState) → s.healthy ≡ true → (repeated true n s).healthy ≡ true
  unfolding repeated checked
  stays_up zero s h = h
  stays_up (suc n) s h = stays_up n (checked config true s) (ground arith)

  -- A healthy app is taken out by exactly as many failures in a row as its threshold asks for, the
  -- ones that it has counted already among them, and stays out while they go on.
  pub failures-turn_iff :
      (n : ℕ) (s : AppHealthState)
      → IsCountable config
      → s.healthy ≡ true
      → s.consecutive_failures < config.failure_threshold
      → ((repeated false n s).healthy ≡ false)
        ↔ (config.failure_threshold ≤ s.consecutive_failures + n)
  unfolding repeated checked
  failures-turn_iff zero s c h below = (λ e. cc, λ le. absurd (omega arith))
  failures-turn_iff (suc n) s c h below =
      elim (Bool-cases (leb config.failure_threshold (s.consecutive_failures + 1))) [
        | inl full ↦ (
          λ e. ground arith,
          λ le. stays_down n (checked config false s) (ground (arith, c.failures)),
        )
        | inr room ↦
            let (f, g) =
              failures-turn_iff n (checked config false s) c (ground (arith, c.failures))
                (ground (arith, c.failures)) in
            let e : (checked config false s).consecutive_failures ≡ s.consecutive_failures + 1 =
              ground (arith, c.failures) in
            (λ h'. omega (arith, f h', e), λ le. g (omega (arith, le, e)))
      ]

  -- An app that is out comes back after exactly as many successes in a row as its threshold asks
  -- for, the ones that it has counted already among them, and stays while they go on.
  pub successes-turn_iff :
      (n : ℕ) (s : AppHealthState)
      → IsCountable config
      → s.healthy ≡ false
      → s.consecutive_successes < config.success_threshold
      → ((repeated true n s).healthy ≡ true)
        ↔ (config.success_threshold ≤ s.consecutive_successes + n)
  unfolding repeated checked
  successes-turn_iff zero s c h below = (λ e. cc, λ le. absurd (omega arith))
  successes-turn_iff (suc n) s c h below =
      elim (Bool-cases (leb config.success_threshold (s.consecutive_successes + 1))) [
        | inl full ↦ (
          λ e. ground arith,
          λ le. stays_up n (checked config true s) (ground (arith, c.successes)),
        )
        | inr room ↦
            let (f, g) =
              successes-turn_iff n (checked config true s) c (ground (arith, c.successes))
                (ground (arith, c.successes)) in
            let e : (checked config true s).consecutive_successes ≡ s.consecutive_successes + 1 =
              ground (arith, c.successes) in
            (λ h'. omega (arith, f h', e), λ le. g (omega (arith, le, e)))
      ]
