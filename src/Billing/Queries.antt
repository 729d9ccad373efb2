-- ===== src/Billing/Queries.antt =====
-- crates/billing/src/collector.rs: what is asked of the stored records, and the cached list of the
-- tenants.
use wasm_cloud_platform.Common.{
  ℕ, Bool, false, Option, none, some, List, [], ◌∷◌, Text, filter, contains, Instant,
  duration_since, ltb, Result, ok, err, text_key, if◌then◌else◌,
}
use wasm_cloud_platform.Storage.Tables.{
  Bytes, BillingRecord, Store, StorageError, Action, pure, ◌>>=◌,
}
use wasm_cloud_platform.Storage.Apps.{sort_by_key}
use wasm_cloud_platform.Storage.Records.{
  get_billing_records_for_node, get_all_billing_records, is_billed_to,
}
use wasm_cloud_platform.Billing.{ChainError, verify_chain}
use wasm_cloud_platform.Billing.Report.{TenantBillingReport, generate_report}

-- the chain of a node, in the order of the numbers; 0 records are a chain
unfoldable pub verify_node_billing_chain : (Bytes → Text) → Text → Action (Result ChainError ℕ)
verify_node_billing_chain sha256_hex node_id = get_billing_records_for_node node_id >>= λ records.
    pure (verify_chain sha256_hex (sort_by_key (λ r. r.seq) records))

unfoldable pub generate_tenant_billing_report : Text → ℕ → ℕ → Action TenantBillingReport
generate_tenant_billing_report tenant_id start_ms end_ms =
    get_all_billing_records >>= λ all_records. pure (
      generate_report (filter (is_billed_to tenant_id start_ms end_ms) all_records) tenant_id
        start_ms end_ms)

-- `HashSet::insert` for each record; a set has no order
unfoldable pub tenants_of : List BillingRecord → List Text
tenants_of [] = []
tenants_of (r ∷ rest) =
    let tenants = tenants_of rest in
    if contains tenants r.tenant_id then tenants else r.tenant_id ∷ tenants

unfoldable pub get_tenant_list : Action (List Text)
get_tenant_list = get_all_billing_records >>= λ records. pure (tenants_of records)

pub record TenantCache : Type 0 where
  pub ttl : ℕ
  pub tenants : List Text
  pub updated_at : Option Instant

abbrev pub is_fresh : TenantCache → Instant → Bool
is_fresh cache now = elim cache.updated_at [
  | none ↦ false
  | some updated_at ↦ ltb (duration_since now updated_at) cache.ttl
]

abbrev pub cached :
    TenantCache
    → Instant
    → Result StorageError (List Text) × Store
    → (Result StorageError (List Text) × TenantCache) × Store
cached cache now (ok tenants, s) =
    ((ok tenants, record cache { tenants = tenants; updated_at = some now }), s)
cached cache now (err e, s) = ((err e, cache), s)

-- `now` is read at the check and at the update
unfoldable pub get :
    TenantCache → Instant → Store → (Result StorageError (List Text) × TenantCache) × Store
get cache now s =
    if is_fresh cache now
    then ((ok cache.tenants, cache), s)
    else cached cache now (get_tenant_list s)

unfoldable pub invalidate : TenantCache → TenantCache
invalidate cache = record cache { updated_at = none }
