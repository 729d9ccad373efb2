-- ===== src/Runtime/MemoryLimiter.antt =====
-- crates/runtime/src/limits.rs, `MemoryLimiter`: the growth of an instance's memory and tables. The
-- shared counters stand in the limiter as it sees them; `usize` has 64 bits.
pub mod Growth
mod Tests
use wasm_cloud_platform.Common.{
  ℕ, ◌*◌, Bool, true, false, Option, none, some, u32, if◌then◌else◌, ltb, fetch_add_u64,
}
use wasm_cloud_platform.Runtime.PolicyTracker.{PolicyCounters, update_peak}

pub record MemoryLimiter : Type 0 where
  pub max_memory : ℕ  -- u64
  pub memory_used : ℕ  -- u64
  pub max_table_elements : ℕ  -- u32
  pub table_elements : ℕ  -- u32
  pub policy_counters : Option PolicyCounters

-- `MemoryPages::to_bytes`; a number of pages is a `u32`
abbrev pub to_bytes : ℕ → ℕ
to_bytes pages = u32 pages * 65536

unfoldable pub new : ℕ → ℕ → Option PolicyCounters → MemoryLimiter
new pages max_table_elements counters = record {
  max_memory = to_bytes pages;
  memory_used = 0;
  max_table_elements = max_table_elements;
  table_elements = 0;
  policy_counters = counters;
}

-- what the shared counters become, where there are any
abbrev update : (PolicyCounters → PolicyCounters) → MemoryLimiter → MemoryLimiter
update f m = elim m.policy_counters [
  | none ↦ m
  | some counters ↦ record m { policy_counters = some (f counters) }
]

unfoldable pub record_memory_growth_denied : MemoryLimiter → MemoryLimiter
record_memory_growth_denied =
    update
      (λ c. record c { memory_growth_denied_total = fetch_add_u64 c.memory_growth_denied_total 1 })

unfoldable pub record_table_growth_denied : MemoryLimiter → MemoryLimiter
record_table_growth_denied =
    update
      (λ c. record c { table_growth_denied_total = fetch_add_u64 c.table_growth_denied_total 1 })

unfoldable pub record_memory_growth : MemoryLimiter → ℕ → MemoryLimiter
record_memory_growth m desired =
    update
      (λ c. record c {
        current_memory_bytes = desired;
        memory_bytes_peak = update_peak c.memory_bytes_peak desired;
      })
      m

unfoldable pub record_table_growth : MemoryLimiter → ℕ → MemoryLimiter
record_table_growth m desired =
    update
      (λ c. record c {
        current_table_elements = desired;
        table_elements_peak = update_peak c.table_elements_peak desired;
      })
      m

unfoldable pub memory_growing : MemoryLimiter → ℕ → MemoryLimiter × Bool
unfolding record_memory_growth_denied record_memory_growth
memory_growing m desired =
    if ltb m.max_memory desired
    then (record_memory_growth_denied m, false)
    else (record_memory_growth (record m { memory_used = desired }) desired, true)

-- the number of elements is cut to 32 bits first
unfoldable pub table_growing : MemoryLimiter → ℕ → MemoryLimiter × Bool
unfolding record_table_growth_denied record_table_growth
table_growing m desired =
    if ltb m.max_table_elements (u32 desired)
    then (record_table_growth_denied m, false)
    else (record_table_growth (record m { table_elements = u32 desired }) (u32 desired), true)
