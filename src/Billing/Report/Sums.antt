-- ===== src/Billing/Report/Sums.antt =====
-- The usage by app adds up to the totals.
use wasm_cloud_platform.Common.{
  ℕ, ◌+◌, ◌≡◌, ap, subst, ◌∙◌, refl, List, [], ◌∷◌, Text, Map, insert, or_insert, lookup, filter,
  length, map, u64, text_key, nat_key, ◌==◌, arith, inl, inr, Bool-cases,
}
use wasm_cloud_platform.Storage.Tables.{BillingRecord}
use wasm_cloud_platform.Storage.Records.{is_billed_to}
use wasm_cloud_platform.Billing.Report.{
  AppUsage, Totals, no_usage, add_usage, add_record, add_records, no_totals, with_average,
  insert_by_fuel, sort_by_fuel, generate_report, of_trap,
}

-- the sum of a quantity over the apps
abbrev pub sum_of : (AppUsage → ℕ) → List AppUsage → ℕ
sum_of f [] = 0
sum_of f (app ∷ rest) = f app + sum_of f rest

module _ (f : AppUsage → ℕ) where
  sum-insert_by_fuel :
      (app : AppUsage) (apps : List AppUsage)
      → sum_of f (insert_by_fuel app apps) ≡ f app + sum_of f apps
  unfolding insert_by_fuel
  sum-insert_by_fuel app [] = refl
  sum-insert_by_fuel app (other ∷ rest) = ground (arith, sum-insert_by_fuel app rest)

  sum-sort_by_fuel : (apps : List AppUsage) → sum_of f (sort_by_fuel apps) ≡ sum_of f apps
  unfolding sort_by_fuel
  sum-sort_by_fuel [] = refl
  sum-sort_by_fuel (app ∷ rest) =
      sum-insert_by_fuel app (sort_by_fuel rest) ∙ ap (f app +◌) (sum-sort_by_fuel rest)

  -- the sum over a map
  abbrev total : Map Text AppUsage → ℕ
  total [] = 0
  total ((app_id, app) ∷ rest) = f app + total rest

  total-insert :
      (key : Text) (old new : AppUsage) (m : Map Text AppUsage)
      → f old ≡ 0
      → total (insert key new m) + f (or_insert key old m) ≡ total m + f new
  unfolding insert lookup
  total-insert key old new [] z = omega arith
  total-insert key old new ((held, app) ∷ rest) z = elim (Bool-cases (held == key)) [
    | inl same ↦ rw (same, or_insert) (omega arith)
    | inr other ↦ rw (other, or_insert) (omega (arith, total-insert key old new rest z))
  ]

  -- a quantity of an app that goes up by `n`, on `u64`, makes the sum go up by `n`
  total-add :
      (r : BillingRecord) (n : ℕ) (m : Map Text AppUsage)
      → f (no_usage r.app_id) ≡ 0
      → ((app : AppUsage) → f (add_usage r app) ≡ u64 (f app + n))
      → u64 (total (insert r.app_id (add_usage r (or_insert r.app_id (no_usage r.app_id) m)) m))
        ≡ u64 (total m + n)
  total-add r n m z h =
      let held = or_insert r.app_id (no_usage r.app_id) m in
      omega (arith, total-insert r.app_id (no_usage r.app_id) (add_usage r held) m z, h held)

  sum-map-with_average :
      ((app : AppUsage) → f (with_average app) ≡ f app)
      → (m : Map Text AppUsage) → sum_of f (map (λ entry. with_average entry.1) m) ≡ total m
  sum-map-with_average h [] = refl
  sum-map-with_average h ((key, app) ∷ m) = omega (arith, h app, sum-map-with_average h m)

-- after `n` records
record IsBalanced (n : ℕ) (t : Totals) : Type 0 where
  requests : u64 (total (λ app. app.request_count) t.per_app) ≡ u64 n
  fuel : u64 (total (λ app. app.fuel_consumed) t.per_app) ≡ t.total_fuel
  wall : u64 (total (λ app. app.wall_clock_ms) t.per_app) ≡ t.total_wall
  traps : u64 (total (λ app. app.trap_count) t.per_app) ≡ t.trap_count

add_record-IsBalanced :
    (n : ℕ) (r : BillingRecord) (t : Totals) → IsBalanced n t → IsBalanced (n + 1) (add_record r t)
unfolding add_record add_usage
add_record-IsBalanced n r t b = record {
  requests =
      omega
        (arith, total-add (λ app. app.request_count) r 1 t.per_app refl (λ app. refl), b.requests);
  fuel = omega (
    arith,
    total-add (λ app. app.fuel_consumed) r r.fuel_consumed t.per_app refl (λ app. refl),
    b.fuel,
  );
  wall = omega (
    arith,
    total-add (λ app. app.wall_clock_ms) r r.wall_clock_ms t.per_app refl (λ app. refl),
    b.wall,
  );
  traps = omega (
    arith,
    total-add (λ app. app.trap_count) r (of_trap r.is_trap) t.per_app refl (λ app. refl),
    b.traps,
  );
}

add_records-IsBalanced :
    (n : ℕ) (rs : List BillingRecord) (t : Totals)
    → IsBalanced n t
    → IsBalanced (n + length rs) (add_records rs t)
unfolding add_records
add_records-IsBalanced n [] t b = subst (λ k. IsBalanced k t) (omega arith) b
add_records-IsBalanced n (r ∷ rs) t b =
    subst (λ k. IsBalanced k (add_records (r ∷ rs) t)) (omega arith)
      (add_records-IsBalanced (n + 1) rs (add_record r t) (add_record-IsBalanced n r t b))

module _ (records : List BillingRecord) (tenant_id : Text) (start_ms end_ms : ℕ) where
  -- The usage by app of a report adds up, on `u64`, to the totals that the report states: requests,
  -- fuel, wall clock and traps. The requests it states are as many as the tenant has records in the
  -- period.
  pub generate_report-adds_up :
      let report = generate_report records tenant_id start_ms end_ms in
      (report.total_requests ≡ length (filter (is_billed_to tenant_id start_ms end_ms) records))
      × (u64 (sum_of (λ app. app.request_count) report.per_app) ≡ u64 report.total_requests)
      × (u64 (sum_of (λ app. app.fuel_consumed) report.per_app) ≡ report.total_fuel_consumed)
      × (u64 (sum_of (λ app. app.wall_clock_ms) report.per_app) ≡ report.total_wall_clock_ms)
      × (u64 (sum_of (λ app. app.trap_count) report.per_app) ≡ report.trap_count)
  unfolding generate_report with_average
  generate_report-adds_up = (
    refl,
    ap u64 (added (λ app. app.request_count) (λ app. refl)) ∙ (b.requests ∙ ap u64 (omega arith)),
    ap u64 (added (λ app. app.fuel_consumed) (λ app. refl)) ∙ b.fuel,
    ap u64 (added (λ app. app.wall_clock_ms) (λ app. refl)) ∙ b.wall,
    ap u64 (added (λ app. app.trap_count) (λ app. refl)) ∙ b.traps,
  )
    where
      t : Totals
      t = add_records (filter (is_billed_to tenant_id start_ms end_ms) records) no_totals

      b : IsBalanced (0 + length (filter (is_billed_to tenant_id start_ms end_ms) records)) t
      b =
          add_records-IsBalanced 0 _ no_totals
            (record { requests = refl; fuel = refl; wall = refl; traps = refl })

      added :
          (f : AppUsage → ℕ)
          → ((app : AppUsage) → f (with_average app) ≡ f app)
          → sum_of f (sort_by_fuel (map (λ entry. with_average entry.1) t.per_app))
            ≡ total f t.per_app
      added f h = sum-sort_by_fuel f _ ∙ sum-map-with_average f h t.per_app
