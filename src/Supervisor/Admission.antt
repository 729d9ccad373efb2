-- ===== src/Supervisor/Admission.antt =====
-- Admission of apps and of executions: crates/supervisor/src/spawn_runtime.rs,
-- `check_resource_limits`, and crates/supervisor/src/scaling.rs, `FuelAdmissionController`. A call
-- takes the seconds since the epoch at which it runs.
pub mod Fuel
pub mod Laws
mod Tests
use wasm_cloud_platform.Common.{
  ℕ, ◌+◌, ◌-◌, ◌*◌, ◌^◌, Bool, Option, none, some, map, List, [], ◌∷◌, ◌++◌, sum, filter, ltb, leb,
  if◌then◌else◌, not, u64, Result, ok, err, guard, or_fail, ◌>>=◌, ◌>>◌,
}
use wasm_cloud_platform.Runtime.MemoryLimiter.{to_bytes}

-- the fields of an `AppConfig` that the check reads
pub record AppConfig : Type 0 where
  pub fuel_quota : ℕ  -- u64
  pub memory_limit : ℕ  -- u32
  pub max_instances : ℕ  -- u32

-- the texts of the errors
pub data Excess : Type 0 where
  fuel_quota_exceeded memory_limit_exceeded max_instances_exceeded pool_overflows : Excess
  node_budget_exceeded : ℕ → ℕ → Excess

-- `u64::checked_mul`
abbrev pub checked_mul : ℕ → ℕ → Option ℕ
checked_mul a b = if ltb (a * b) (2 ^ 64) then some (a * b) else none

unfoldable pub check_resource_limits : ℕ → AppConfig → Result Excess (Unit {0})
check_resource_limits node_memory_budget_bytes config =
    guard (leb config.fuel_quota 10000000000) fuel_quota_exceeded
    >> guard (leb config.memory_limit 8192) memory_limit_exceeded
    >> guard (leb config.max_instances 100) max_instances_exceeded
    >> (or_fail (checked_mul (to_bytes config.memory_limit) config.max_instances) pool_overflows
        >>= λ declared_pool_bytes.
            guard (leb declared_pool_bytes node_memory_budget_bytes)
              (node_budget_exceeded declared_pool_bytes node_memory_budget_bytes))

pub record FuelAdmissionController : Type 0 where
  pub node_budget : ℕ
  -- the second of each execution, and its fuel
  pub fuel_per_sec : List (ℕ × ℕ)

abbrev pub new : ℕ → FuelAdmissionController
new node_budget = record { node_budget = node_budget; fuel_per_sec = [] }

-- `window.iter().map(|(_, f)| f).sum()`, which wraps around
abbrev pub total : List (ℕ × ℕ) → ℕ
total window = u64 (sum (map (λ (s : ℕ × ℕ). s.1) window))

-- The window without the samples of an earlier second, and the answer.
unfoldable pub can_run : FuelAdmissionController → ℕ → ℕ → FuelAdmissionController × Bool
can_run c now fuel_limit =
    let window = filter (λ (s : ℕ × ℕ). ltb (now - s.0) 1) c.fuel_per_sec in
    (record c { fuel_per_sec = window }, leb (u64 (total window + fuel_limit)) c.node_budget)

unfoldable pub record_execution : FuelAdmissionController → ℕ → ℕ → FuelAdmissionController
record_execution c now fuel_consumed = record c {
  fuel_per_sec = c.fuel_per_sec ++ (now, fuel_consumed) ∷ [];
}
