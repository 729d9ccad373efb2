-- ===== src/Supervisor/Admission/Laws.antt =====
-- crates/supervisor/src/spawn_runtime.rs: the apps that are admitted.
use wasm_cloud_platform.Common.{
  ℕ, ◌*◌, ◌≤◌, ◌≡◌, ap, ◌≢◌, ◌↔◌, Bool-cases, inl, inr, leb, leb→le, nat_key, ok, err, arith,
}
use native.Mathlib.Nat.{mul-le-mul}
use wasm_cloud_platform.Runtime.MemoryLimiter.{to_bytes}
use wasm_cloud_platform.Supervisor.Admission.{AppConfig, pool_overflows, check_resource_limits}

pool_bytes :
    (config : AppConfig)
    → config.memory_limit ≤ 8192
    → to_bytes config.memory_limit * config.max_instances
      ≡ config.memory_limit * 65536 * config.max_instances
pool_bytes config little =
    let bytes : to_bytes config.memory_limit ≡ config.memory_limit * 65536 = omega arith in
    ap (λ b. b * config.max_instances) bytes

bytes-le :
    (config : AppConfig) → config.memory_limit ≤ 8192 → config.memory_limit * 65536 ≤ 536870912
bytes-le config little = omega arith

-- An app is admitted exactly if its fuel quota, its memory and its number of instances are within
-- the node's ceilings and the memory of all of them fits the node's budget; the product is never
-- refused as an overflow, since the earlier checks bound it.
pub check_resource_limits-ok_iff :
    (budget : ℕ) (config : AppConfig)
    → ((check_resource_limits budget config ≡ ok tt) ↔ (
        (config.fuel_quota ≤ 10000000000)
        × (config.memory_limit ≤ 8192)
        × (config.max_instances ≤ 100)
        × (config.memory_limit * 65536 * config.max_instances ≤ budget)))
      × (check_resource_limits budget config ≢ err pool_overflows)
unfolding check_resource_limits
check_resource_limits-ok_iff budget config = elim (Bool-cases (leb config.fuel_quota 10000000000)) [
  | inr burns ↦ ground arith
  | inl cheap ↦ elim (Bool-cases (leb config.memory_limit 8192)) [
    | inr much ↦ ground arith
    | inl little ↦ elim (Bool-cases (leb config.max_instances 100)) [
      | inr many ↦ ground arith
      | inl few ↦ ground (
        arith,
        pool_bytes config (leb→le config.memory_limit 8192 little),
        mul-le-mul (bytes-le config (leb→le config.memory_limit 8192 little))
            (leb→le config.max_instances 100 few),
      )
    ]
  ]
]
