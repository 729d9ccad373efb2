-- ===== src/Storage/Migrations.antt =====
-- crates/storage/src/migrations.rs: a store that an older version wrote is brought to the current
-- schema, one version after the other.
pub mod Runs
pub mod Succeeds
use wasm_cloud_platform.Common.{
  ℕ, zero, suc, ◌+◌, ◌-◌, Bool, true, false, Option, none, some, List, [], ◌∷◌, Text, Map, lookup,
  codes, Result, ok, err, unwrap_or, ltb, text_key, nat_key, ◌==◌, if◌then◌else◌,
}
use wasm_cloud_platform.Storage.Keys.{put, parse_u32, to_text}
use wasm_cloud_platform.Storage.Tables.{
  Json, json, malformed, Field, missing, null, present, ConfigValue, app_config, plain_object,
  null_value, other_value, AppRateLimitConfig, Tables, StorageError, panicked, transact, lift,
  corrupted, Action, pure, fail, query, update, ◌>>=◌, ◌>>◌,
}

abbrev pub current_schema_version : ℕ
current_schema_version = 8

abbrev pub version_key : Text
version_key = codes "version"

abbrev pub version_of : Option Text → ℕ
version_of none = 0
version_of (some text) = unwrap_or (parse_u32 text) 0

unfoldable pub schema_version : Tables → ℕ
schema_version t = version_of (lookup version_key t.schema_meta)

unfoldable pub read_schema_version : Action ℕ
read_schema_version = query schema_version

unfoldable pub with_version : ℕ → Tables → Tables
with_version version t = record t { schema_meta = put version_key (to_text version) t.schema_meta }

unfoldable pub write_schema_version : ℕ → Action (Unit {0})
write_schema_version version = update (with_version version)

-- `if val.get(field).is_none() { val[field] = default }`
abbrev pub or_default {ℓ} : {A : Type ℓ} → Field A → A → Field A
or_default missing default = present default
or_default null default = null
or_default (present a) default = present a

-- `val[field] = default` makes an object of `null`, and panics on a value that is no object.
unfoldable pub with_connections : ConfigValue → Option ConfigValue
with_connections (app_config config) =
    some
      (app_config (record config { db_max_connections = or_default config.db_max_connections 10 }))
with_connections (plain_object connections limit others) =
    some (plain_object (or_default connections 10) limit others)
with_connections null_value = some (plain_object (present 10) missing [])
with_connections other_value = none

abbrev default_limit : AppRateLimitConfig
default_limit = record { requests_per_second = 1000; burst_capacity = 50; per_ip_limit = 100 }

unfoldable pub with_rate_limit : ConfigValue → Option ConfigValue
with_rate_limit (app_config config) =
    some (app_config (record config { rate_limit = or_default config.rate_limit default_limit }))
with_rate_limit (plain_object connections limit others) =
    some (plain_object connections (or_default limit default_limit) others)
with_rate_limit null_value = some (plain_object missing (present default_limit) [])
with_rate_limit other_value = none

-- The loop over the records that were read: those that parse are written back. `none` is a panic.
unfoldable pub rewrite :
    (ConfigValue → Option ConfigValue)
    → Map Text (Json ConfigValue)
    → Map Text (Json ConfigValue)
    → Option (Map Text (Json ConfigValue))
rewrite f [] table = some table
rewrite f ((key, malformed) ∷ records) table = rewrite f records table
rewrite f ((key, json value) ∷ records) table = elim (f value) [
  | none ↦ none
  | some new_value ↦ rewrite f records (put key (json new_value) table)
]

-- what the second transaction makes of the tables; after a panic it is not committed
abbrev pub write_configs :
    ℕ → Tables → Option (Map Text (Json ConfigValue)) → Result StorageError (Unit {0}) × Tables
write_configs version t none = (err panicked, t)
write_configs version t (some configs) =
    (ok tt, with_version version (record t { configs = configs }))

-- the records are read in one transaction, and written with the new version in another
unfoldable pub migrate_configs : (ConfigValue → Option ConfigValue) → ℕ → Action (Unit {0})
migrate_configs f version = query (λ t. t.configs) >>= λ records.
    transact (λ t. write_configs version t (rewrite f records t.configs)) >>= lift

unfoldable pub migrate_v1_to_v2 : Action (Unit {0})
migrate_v1_to_v2 = migrate_configs with_connections 2

unfoldable pub migrate_v2_to_v3 : Action (Unit {0})
migrate_v2_to_v3 = migrate_configs with_rate_limit 3

-- Opening a table makes it exist; a table that has no entry is not told from none here.
unfoldable pub migrate_v3_to_v4 : Action (Unit {0})
migrate_v3_to_v4 = update (with_version 4)

unfoldable pub migrate_v4_to_v5 : Action (Unit {0})
migrate_v4_to_v5 = update (with_version 5)

unfoldable pub migrate_v5_to_v6 : Action (Unit {0})
migrate_v5_to_v6 = update (with_version 6)

unfoldable pub migrate_v6_to_v7 : Action (Unit {0})
migrate_v6_to_v7 = update (with_version 7)

unfoldable pub migrate_v7_to_v8 : Action (Unit {0})
migrate_v7_to_v8 = update (with_version 8)

unfoldable pub apply_migration_transactional : ℕ → Action (Unit {0})
apply_migration_transactional target_version =
    if target_version == 1
    then write_schema_version 1
    else if target_version == 2
    then migrate_v1_to_v2
    else if target_version == 3
    then migrate_v2_to_v3
    else if target_version == 4
    then migrate_v3_to_v4
    else if target_version == 5
    then migrate_v4_to_v5
    else if target_version == 6
    then migrate_v5_to_v6
    else if target_version == 7
    then migrate_v6_to_v7
    else if target_version == 8
    then migrate_v7_to_v8
    else fail corrupted

-- `for v in current..CURRENT_SCHEMA_VERSION`, by the number of versions to go
unfoldable pub migrate : ℕ → ℕ → Action (Unit {0})
migrate zero v = pure tt
migrate (suc left) v = apply_migration_transactional (v + 1) >> migrate left (v + 1)

-- what `run_migrations` does once it has read the version
unfoldable pub migrate_from : ℕ → Action (Unit {0})
migrate_from current =
    if current == current_schema_version
    then pure tt
    else if ltb current_schema_version current
    then fail corrupted
    else migrate (current_schema_version - current) current

unfoldable pub run_migrations : Action (Unit {0})
run_migrations = read_schema_version >>= migrate_from
