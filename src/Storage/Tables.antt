-- ===== src/Storage/Tables.antt =====
-- crates/storage/src/tables.rs and lib.rs: the tables, and a call of the store as a chain of redb
-- transactions. redb is not part of this repository: `completes` says whether its n-th transaction
-- goes through. One that fails at any of its steps, the commit included, leaves the tables as they
-- were and makes the call return the storage error. A value is stored as JSON text; what counts of
-- the text is what `serde_json::from_str` makes of it, the value that was written or nothing; a
-- config can also be JSON of another kind. An
-- entry that redb cannot read while a table is iterated is left out of the model, except where an
-- app is purged.
pub mod Triples
pub mod Works
use wasm_cloud_platform.Common.{
  ℕ, ◌+◌, Bool, Option, none, some, List, [], ◌∷◌, Text, Map, Result, ok, err, if◌then◌else◌,
}

pub data Json {ℓ} (A : Type ℓ) : Type ℓ where
  json : A → Json A
  malformed : Json A

abbrev pub Bytes : Type 0
Bytes = Text

pub record AppRateLimitConfig : Type 0 where
  pub requests_per_second : ℕ
  pub burst_capacity : ℕ
  pub per_ip_limit : ℕ

-- A field of a JSON object: one that was never written, `null`, or a value.
pub data Field {ℓ} (A : Type ℓ) : Type ℓ where
  missing null : Field A
  present : A → Field A

-- The fields of an `AppConfig` that the store reads or writes, and the JSON of the others.
pub record StoredConfig : Type 0 where
  pub id : Text
  pub env_vars : Map Text Text
  pub db_max_connections : Field ℕ
  pub rate_limit : Field AppRateLimitConfig
  pub other_fields : Text

-- The JSON of an entry of the config table: an `AppConfig`; an object that is none, since its other
-- fields do not make one; `null`; or a value of another kind.
pub data ConfigValue : Type 0 where
  app_config : StoredConfig → ConfigValue
  plain_object : Field ℕ → Field AppRateLimitConfig → Text → ConfigValue
  null_value other_value : ConfigValue

-- An `f64` is its bits here: the store only passes it on.
pub record MetricBucket : Type 0 where
  pub app_id : Text
  pub minute_ts : ℕ
  pub request_count : ℕ
  pub fuel_consumed_total : ℕ
  pub fuel_consumed_avg : ℕ
  pub ram_usage_peak_bytes : ℕ
  pub latency_p50_ms : ℕ
  pub latency_p99_ms : ℕ
  pub trap_count : ℕ

pub record Route : Type 0 where
  pub host : Text
  pub app_id : Text
  pub path_prefix : Text
  pub strip_prefix : Bool
  pub created_at : ℕ
  pub updated_at : ℕ

pub record BillingRecord : Type 0 where
  pub seq : ℕ
  pub prev_hash : Text
  pub tenant_id : Text
  pub app_id : Text
  pub instance_id : Text
  pub node_id : Text
  pub timestamp_ms : ℕ
  pub fuel_consumed : ℕ
  pub fuel_quota : ℕ
  pub ram_bytes : ℕ
  pub wall_clock_ms : ℕ
  pub status_code : ℕ
  pub is_trap : Bool
  pub record_hash : Text

-- A value that the store only passes on is its JSON text.
abbrev pub Opaque : Type 0
Opaque = Text

pub record Tables : Type 0 where
  pub artifacts : Map Text Bytes
  pub configs : Map Text (Json ConfigValue)
  pub secrets : Map Text Bytes
  pub metrics : Map Text (Json MetricBucket)
  pub routes : Map Text (Json Route)
  pub raw_wasm : Map Text Bytes
  pub schema_meta : Map Text Text
  pub artifact_hashes : Map Text Text
  pub artifact_verifications : Map Text (Json Opaque)
  pub billing : Map Text (Json BillingRecord)
  pub kek : Map Text Bytes
  pub gateway_configs : Map Text (Json Opaque)
  pub api_keys : Map Text (Json (List Opaque))

pub record Store : Type 0 where
  pub tables : Tables
  pub completes : ℕ → Bool
  pub transactions : ℕ

-- The variants of `PlatformError` and of `redb::Error` that the store makes, and a panic, after
-- which nothing of the call runs either.
pub data StorageError : Type 0 where
  storage corrupted panicked : StorageError
  app_not_found : Text → StorageError

-- What was committed before an error stays, so the store comes back beside the error too.
abbrev pub Action {ℓ} : Type ℓ → Type ℓ
Action A = Store → Result StorageError A × Store

module _ {ℓ} {A : Type ℓ} where
  abbrev pub pure : A → Action A
  pure a s = (ok a, s)

  abbrev pub fail : StorageError → Action A
  fail e s = (err e, s)

  unfoldable pub transact : (Tables → A × Tables) → Action A
  transact work s =
      if s.completes s.transactions
      then (
        ok (work s.tables).0,
        record s { tables = (work s.tables).1; transactions = s.transactions + 1 },
      )
      else (err storage, record s { transactions = s.transactions + 1 })

  -- a read transaction
  abbrev pub query : (Tables → A) → Action A
  query read = transact λ t. (read t, t)

  -- `option.ok_or_else(..)?`, `from_str(..)?`
  abbrev pub lift : Result StorageError A → Action A
  lift r s = (r, s)

  abbrev pub from_str : Json A → Result StorageError A
  from_str (json a) = ok a
  from_str malformed = err storage

-- a write transaction
abbrev pub update : (Tables → Tables) → Action (Unit {0})
update write = transact λ t. (tt, write t)

module _ {ℓ κ} {A : Type ℓ} {B : Type κ} where
  abbrev pub continue : Result StorageError A → (A → Action B) → Action B
  continue (ok a) rest s = rest a s
  continue (err e) rest s = (err e, s)

  infixl 5 ◌>>=◌
  unfoldable pub ◌>>=◌ : Action A → (A → Action B) → Action B
  ◌>>=◌ first rest s = let (r, t) = first s in continue r rest t

infixl 5 ◌>>◌
abbrev pub ◌>>◌ {κ} : {B : Type κ} → Action (Unit {0}) → Action B → Action B
first >> rest = first >>= λ _. rest

-- `for x in xs { body(x)?; }`
unfoldable pub for_each {ℓ} : {A : Type ℓ} → (A → Action (Unit {0})) → List A → Action (Unit {0})
for_each body [] = pure tt
for_each body (x ∷ xs) = body x >> for_each body xs
