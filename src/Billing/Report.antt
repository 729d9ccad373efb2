-- ===== src/Billing/Report.antt =====
-- crates/billing/src/report.rs, and the reports of collector.rs: the usage of a tenant in a period.
-- The sums are `u64` and wrap in a release build.
pub mod Sums
use wasm_cloud_platform.Common.{
  ℕ, ◌+◌, ◌/◌, max, Bool, true, false, List, [], ◌∷◌, Text, Map, insert, or_insert, filter, length,
  map, u64, leb, text_key, nat_key, ◌==◌, if◌then◌else◌,
}
use wasm_cloud_platform.Storage.Tables.{BillingRecord}
use wasm_cloud_platform.Storage.Records.{is_billed_to}

pub record AppUsage : Type 0 where
  pub app_id : Text
  pub request_count : ℕ
  pub fuel_consumed : ℕ
  pub avg_fuel_per_request : ℕ
  pub wall_clock_ms : ℕ
  pub trap_count : ℕ

pub record TenantBillingReport : Type 0 where
  pub tenant_id : Text
  pub period_start_ms : ℕ
  pub period_end_ms : ℕ
  pub total_requests : ℕ
  pub total_fuel_consumed : ℕ
  pub total_wall_clock_ms : ℕ
  pub peak_ram_bytes : ℕ
  pub trap_count : ℕ
  pub per_app : List AppUsage

-- the variables of the loop
pub record Totals : Type 0 where
  pub per_app : Map Text AppUsage
  pub total_fuel : ℕ
  pub total_wall : ℕ
  pub peak_ram : ℕ
  pub trap_count : ℕ

abbrev pub of_trap : Bool → ℕ
of_trap true = 1
of_trap false = 0

abbrev pub no_usage : Text → AppUsage
no_usage app_id = record {
  app_id = app_id;
  request_count = 0;
  fuel_consumed = 0;
  avg_fuel_per_request = 0;
  wall_clock_ms = 0;
  trap_count = 0;
}

unfoldable pub add_usage : BillingRecord → AppUsage → AppUsage
add_usage r app = record app {
  request_count = u64 (app.request_count + 1);
  fuel_consumed = u64 (app.fuel_consumed + r.fuel_consumed);
  wall_clock_ms = u64 (app.wall_clock_ms + r.wall_clock_ms);
  trap_count = u64 (app.trap_count + of_trap r.is_trap);
}

unfoldable pub add_record : BillingRecord → Totals → Totals
add_record r t = record {
  per_app =
      insert r.app_id (add_usage r (or_insert r.app_id (no_usage r.app_id) t.per_app)) t.per_app;
  total_fuel = u64 (t.total_fuel + r.fuel_consumed);
  total_wall = u64 (t.total_wall + r.wall_clock_ms);
  peak_ram = max t.peak_ram r.ram_bytes;
  trap_count = u64 (t.trap_count + of_trap r.is_trap);
}

unfoldable pub add_records : List BillingRecord → Totals → Totals
add_records [] t = t
add_records (r ∷ rest) t = add_records rest (add_record r t)

abbrev pub no_totals : Totals
no_totals = record { per_app = []; total_fuel = 0; total_wall = 0; peak_ram = 0; trap_count = 0 }

-- `checked_div`, 0 for a count of 0
unfoldable pub with_average : AppUsage → AppUsage
with_average app = record app {
  avg_fuel_per_request =
      if app.request_count == 0 then 0 else app.fuel_consumed / app.request_count;
}

-- `sort_by_key` on the reversed fuel, which keeps the order of apps with the same fuel
unfoldable pub insert_by_fuel : AppUsage → List AppUsage → List AppUsage
insert_by_fuel app [] = app ∷ []
insert_by_fuel app (other ∷ rest) =
    if leb other.fuel_consumed app.fuel_consumed
    then app ∷ other ∷ rest
    else other ∷ insert_by_fuel app rest

unfoldable pub sort_by_fuel : List AppUsage → List AppUsage
sort_by_fuel [] = []
sort_by_fuel (app ∷ rest) = insert_by_fuel app (sort_by_fuel rest)

unfoldable pub generate_report : List BillingRecord → Text → ℕ → ℕ → TenantBillingReport
generate_report records tenant_id start_ms end_ms =
    let tenant_records = filter (is_billed_to tenant_id start_ms end_ms) records in
    let t = add_records tenant_records no_totals in
    record {
      tenant_id = tenant_id;
      period_start_ms = start_ms;
      period_end_ms = end_ms;
      total_requests = length tenant_records;
      total_fuel_consumed = t.total_fuel;
      total_wall_clock_ms = t.total_wall;
      peak_ram_bytes = t.peak_ram;
      trap_count = t.trap_count;
      per_app = sort_by_fuel (map (λ entry. with_average entry.1) t.per_app);
    }
