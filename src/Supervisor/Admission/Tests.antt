-- ===== src/Supervisor/Admission/Tests.antt =====
-- Runs of the admission checks, and their theorems at concrete inputs.
use wasm_cloud_platform.Common.{◌≡◌, ◌≤◌, refl, List, [], ◌∷◌, err, arith}
use wasm_cloud_platform.Supervisor.Admission.{
  AppConfig, node_budget_exceeded, check_resource_limits, new, can_run, record_execution,
}
use wasm_cloud_platform.Supervisor.Admission.Fuel.{
  Execution, execute, recorded, fuel_in, fuel_in-recorded-le,
}

abbrev app : AppConfig
app = record { fuel_quota = 1000000; memory_limit = 2048; max_instances = 10 }

too_big : check_resource_limits 1000000000 app ≡ err (node_budget_exceeded 1342177280 1000000000)
unfolding check_resource_limits
too_big = refl

abbrev executions : List Execution
executions =
    record { asked_at = 7; fuel_limit = 50; recorded_at = 7; fuel_consumed = 40 }
    ∷ record { asked_at = 7; fuel_limit = 70; recorded_at = 8; fuel_consumed = 70 }
    ∷ record { asked_at = 8; fuel_limit = 60; recorded_at = 8; fuel_consumed = 60 }
    ∷ []

fuel_in-recorded-le_example : fuel_in 8 (recorded (new 100) executions) ≤ 100
fuel_in-recorded-le_example =
    fuel_in-recorded-le 100 executions
      ((omega arith, omega arith), ((omega arith, omega arith), ((omega arith, omega arith), tt)))
      (omega arith, omega arith, (omega arith, omega arith, (omega arith, omega arith, tt))) 8

both_seconds : recorded (new 100) executions ≡ (7, 40) ∷ (8, 60) ∷ []
unfolding recorded execute can_run record_execution
both_seconds = refl
