-- ===== src/Storage/Records.antt =====
-- crates/storage/src/metrics.rs and billing.rs: metric buckets and billing records. `now` is the
-- wall clock in seconds.
pub mod Billed
use wasm_cloud_platform.Common.{
  ℕ, ◌+◌, ◌-◌, ◌*◌, ◌/◌, ◌^◌, max, Bool, true, false, not, ◌&&◌, Option, none, some, List, [], ◌∷◌,
  ◌++◌, Text, Map, lookup, remove, insert, retain_keys, filter, take, length, codes, u64, Result,
  ok, err, unwrap_or, leb, ltb, text_key, ◌==◌, if◌then◌else◌,
}
use wasm_cloud_platform.AppId.{colon}
use wasm_cloud_platform.Storage.Keys.{put, starts_with, rsplit_once, parse_u64, to_text}
use wasm_cloud_platform.Storage.Tables.{
  Json, json, malformed, MetricBucket, BillingRecord, StorageError, storage, Action, pure, query,
  transact, update, lift, ◌>>=◌, ◌>>◌,
}
use wasm_cloud_platform.Storage.Apps.{parsed, last_part}
use wasm_cloud_platform.Storage.Routes.{all_parsed}

-- `format!("{name}:{number}")`
abbrev pub numbered : Text → ℕ → Text
numbered name number = name ++ colon ∷ to_text number

unfoldable pub write_metric_bucket : MetricBucket → Action (Unit {0})
write_metric_bucket bucket = update λ t. record t {
  metrics = put (numbered bucket.app_id bucket.minute_ts) (json bucket) t.metrics;
}

-- `now / 60 - last_n_minutes` and its product are `u64` operations that wrap in a release build
unfoldable pub recent_cutoff : ℕ → ℕ → ℕ
recent_cutoff now last_n_minutes = u64 (u64 (now / 60 + 2 ^ 64 - last_n_minutes) * 60)

unfoldable pub is_recent : Text → ℕ → Text → Bool
is_recent app_id cutoff key =
    starts_with key (app_id ++ colon ∷ []) && leb cutoff (unwrap_or (parse_u64 (last_part key)) 0)

unfoldable pub load_recent_metrics : Text → ℕ → ℕ → Action (List MetricBucket)
load_recent_metrics app_id last_n_minutes now =
    query (λ t.
      all_parsed (retain_keys (is_recent app_id (recent_cutoff now last_n_minutes)) t.metrics))
    >>= lift

unfoldable pub is_stale_metric : ℕ → Text → Bool
is_stale_metric cutoff key = elim (parse_u64 (last_part key)) [
  | none ↦ false
  | some timestamp ↦ ltb timestamp cutoff
]

-- the entries whose key passes the test are removed, and counted
abbrev pub prune_keys : {V : Type 0} → (Text → Bool) → Map Text V → ℕ × Map Text V
prune_keys stale table =
    (length (retain_keys stale table), retain_keys (λ key. not (stale key)) table)

unfoldable pub prune_old_metrics : ℕ → ℕ → Action ℕ
prune_old_metrics retention_minutes now = transact λ t.
    let pruned =
      prune_keys (is_stale_metric (u64 ((now / 60 - retention_minutes) * 60))) t.metrics in
    (pruned.0, record t { metrics = pruned.1 })

unfoldable pub parse_billing_key : Text → Option (Text × ℕ)
parse_billing_key key = elim (rsplit_once colon key) [
  | none ↦ none
  | some parts ↦ elim (parse_u64 parts.1) [ none ↦ none | some seq ↦ some (parts.0, seq) ]
]

unfoldable pub write_billing_record : BillingRecord → Action (Unit {0})
write_billing_record billed =
    update
      λ t. record t { billing = put (numbered billed.node_id billed.seq) (json billed) t.billing }

-- the largest number so far, after a key
unfoldable pub later_sequence : (Text → Bool) → ℕ → Text → ℕ
later_sequence counts max_seq key = elim (parse_billing_key key) [
  | none ↦ max_seq
  | some parts ↦ if counts parts.0 then max max_seq parts.1 else max_seq
]

-- the loop of `get_billing_sequence` over the keys that count
unfoldable pub max_sequence : {V : Type 0} → (Text → Bool) → ℕ → Map Text V → ℕ
max_sequence counts max_seq [] = max_seq
max_sequence counts max_seq ((key, value) ∷ rest) =
    max_sequence counts (later_sequence counts max_seq key) rest

unfoldable pub get_billing_sequence : Action ℕ
get_billing_sequence = query λ t. max_sequence (λ node_id. true) 0 t.billing

unfoldable pub get_billing_sequence_for_node : Text → Action ℕ
get_billing_sequence_for_node node_id =
    query λ t. max_sequence (λ held. held == node_id) 0 t.billing

-- the loop of `get_last_billing_hash` over the records that count; `last_hash` is the hash of
-- `last_record`, or the empty text
unfoldable pub last_hash : (BillingRecord → Bool) → ℕ → Text → List BillingRecord → Text
last_hash counts max_seq hash [] = hash
last_hash counts max_seq hash (billed ∷ rest) =
    let newer = last_hash counts billed.seq billed.record_hash rest in
    let older = last_hash counts max_seq hash rest in
    if counts billed && ltb max_seq billed.seq then newer else older

unfoldable pub get_last_billing_hash : Action Text
get_last_billing_hash = query (λ t. all_parsed t.billing) >>= λ r.
    lift r >>= λ records. pure (last_hash (λ billed. true) 0 [] records)

unfoldable pub get_last_billing_hash_for_node : Text → Action Text
get_last_billing_hash_for_node node_id = query (λ t. all_parsed t.billing) >>= λ r.
    lift r >>= λ records. pure (last_hash (λ billed. billed.node_id == node_id) 0 [] records)

unfoldable pub get_billing_records_for_node : Text → Action (List BillingRecord)
get_billing_records_for_node node_id =
    query (λ t. all_parsed (retain_keys (λ key. starts_with key (node_id ++ colon ∷ [])) t.billing))
    >>= lift

unfoldable pub get_all_billing_records : Action (List BillingRecord)
get_all_billing_records = query (λ t. all_parsed t.billing) >>= lift

abbrev pub watermark_key : Text
watermark_key = codes "billing_export_watermark"

-- the number that the entry holds, 0 without one
abbrev pub number_of : Option Text → ℕ
number_of none = 0
number_of (some text) = unwrap_or (parse_u64 text) 0

-- `get_fails` says whether redb's read of the key fails, which counts as no entry
unfoldable pub get_billing_export_watermark : Bool → Action ℕ
get_billing_export_watermark get_fails =
    query λ t. if get_fails then 0 else number_of (lookup watermark_key t.schema_meta)

unfoldable pub set_billing_export_watermark : ℕ → Action (Unit {0})
set_billing_export_watermark seq =
    update λ t. record t { schema_meta = put watermark_key (to_text seq) t.schema_meta }

unfoldable pub read_unexported_billing_records : Bool → ℕ → Action (List BillingRecord)
read_unexported_billing_records get_fails limit = do
  watermark ← get_billing_export_watermark get_fails
  all_records ← get_all_billing_records
  pure (take limit (filter (λ billed. ltb watermark billed.seq) all_records))

-- `r.tenant_id == tenant_id && r.timestamp_ms >= start_ms && r.timestamp_ms < end_ms`
unfoldable pub is_billed_to : Text → ℕ → ℕ → BillingRecord → Bool
is_billed_to tenant_id start_ms end_ms billed =
    billed.tenant_id == tenant_id
    && leb start_ms billed.timestamp_ms
    && ltb billed.timestamp_ms end_ms

unfoldable pub read_billing_records_for_tenant : Text → ℕ → ℕ → Action (List BillingRecord)
read_billing_records_for_tenant tenant_id start_ms end_ms =
    get_all_billing_records >>= λ all_records.
    pure (filter (is_billed_to tenant_id start_ms end_ms) all_records)

unfoldable pub read_billing_records_for_app : Text → Action (List BillingRecord)
read_billing_records_for_app app_id = get_all_billing_records >>= λ all_records.
    pure (filter (λ billed. billed.app_id == app_id) all_records)
