-- ===== src/Storage/Gc.antt =====
-- crates/storage/src/gc.rs: what the garbage collector deletes. `now` is the wall clock in seconds.
pub mod Purge
pub mod Deployed
pub mod Deletions
pub mod Versions
use wasm_cloud_platform.Common.{
  ℕ, ◌+◌, ◌-◌, ◌*◌, ◌^◌, Bool, true, false, not, ◌||◌, Option, none, some, List, [], ◌∷◌, ◌++◌,
  Text, Map, lookup, remove, insert, contains_key, or_insert, retain_keys, map_values, filter, any,
  take, length, map, codes, u64, Result, ok, err, unwrap_or, leb, ltb, text_key, ◌==◌,
  if◌then◌else◌,
}
use wasm_cloud_platform.AppId.{colon, before}
use wasm_cloud_platform.Storage.Keys.{
  put, starts_with, strip_prefix, rsplit_once, parse_u64, to_text, trim_start_matches,
}
use wasm_cloud_platform.Storage.Tables.{
  Route, Tables, Store, StorageError, Action, pure, transact, query, update, for_each, ◌>>=◌, ◌>>◌,
}
use wasm_cloud_platform.Storage.Apps.{keys, sort_by_key, letter_v, list_apps}
use wasm_cloud_platform.Storage.Routes.{delete_route, list_routes_for_app}
use wasm_cloud_platform.Storage.Records.{prune_keys}

pub record VersionEntry : Type 0 where
  pub key : Text
  pub app_name : Text
  pub version : Text

pub record GcStats : Type 0 where
  pub artifacts_deleted : ℕ
  pub raw_wasm_deleted : ℕ
  pub configs_deleted : ℕ

abbrev pub max_u64 : ℕ
max_u64 = 2 ^ 64 - 1

unfoldable pub version_sort_key : Text → ℕ
version_sort_key version = unwrap_or (parse_u64 (trim_start_matches letter_v version)) max_u64

-- the entries of the keys `<app>:<version>`, by their app, each list in the order of the keys
unfoldable pub group : List Text → Map Text (List VersionEntry) → Map Text (List VersionEntry)
group [] inventory = inventory
group (key ∷ rest) inventory = elim (rsplit_once colon key) [
  | none ↦ group rest inventory
  | some parts ↦
      let entry : VersionEntry = record { key = key; app_name = parts.0; version = parts.1 } in
      group rest (insert parts.0 (or_insert parts.0 [] inventory ++ entry ∷ []) inventory)
]

unfoldable pub inventory_versions : Action (Map Text (List VersionEntry))
inventory_versions = query λ t.
    map_values (sort_by_key λ entry. version_sort_key entry.version) (group (keys t.artifacts) [])

-- whether an id is one of the app that the key begins with, whatever its version
abbrev pub is_of_app : Text → Text → Bool
is_of_app artifact_key id = starts_with id (before colon artifact_key ++ colon ∷ [])

unfoldable pub has_active_instances : Text → Action Bool
has_active_instances artifact_key = list_apps >>= λ apps. pure (any (is_of_app artifact_key) apps)

unfoldable pub delete_artifact_by_key : Text → Action (Unit {0})
delete_artifact_by_key key = update λ t. record t { artifacts = remove key t.artifacts }

unfoldable pub delete_raw_wasm_by_key : Text → Action (Unit {0})
delete_raw_wasm_by_key key = update λ t. record t { raw_wasm = remove key t.raw_wasm }

unfoldable pub delete_config_by_key : Text → Action (Unit {0})
delete_config_by_key key = update λ t. record t { configs = remove key t.configs }

abbrev pub counted : Result StorageError (Unit {0}) × Store → Result StorageError ℕ × Store
counted (ok done, s) = (ok 1, s)
counted (err e, s) = (ok 0, s)

-- `call.is_ok()`, as the number to add
unfoldable pub is_ok : Action (Unit {0}) → Action ℕ
is_ok call s = counted (call s)

unfoldable pub delete_version : Text → GcStats → Action GcStats
delete_version key stats = do
  delete_artifact_by_key key
  raw ← is_ok (delete_raw_wasm_by_key key)
  configs ← is_ok (delete_config_by_key key)
  pure (record {
    artifacts_deleted = stats.artifacts_deleted + 1;
    raw_wasm_deleted = stats.raw_wasm_deleted + raw;
    configs_deleted = stats.configs_deleted + configs;
  })

-- the loop over the candidates of one app
unfoldable pub gc_versions : List VersionEntry → GcStats → Action GcStats
gc_versions [] stats = pure stats
gc_versions (entry ∷ entries) stats = has_active_instances entry.key >>= λ active.
    (if active then pure stats else delete_version entry.key stats) >>= gc_versions entries

-- all but the last `keep`
abbrev pub candidates_to_delete : ℕ → List VersionEntry → List VersionEntry
candidates_to_delete keep versions = take (length versions - keep) versions

-- the loop over the apps
unfoldable pub gc_apps : ℕ → Map Text (List VersionEntry) → GcStats → Action GcStats
gc_apps keep [] stats = pure stats
gc_apps keep ((app_name, versions) ∷ rest) stats =
    (if leb (length versions) keep
      then pure stats
      else gc_versions (candidates_to_delete keep versions) stats)
    >>= gc_apps keep rest

abbrev pub no_stats : GcStats
no_stats = record { artifacts_deleted = 0; raw_wasm_deleted = 0; configs_deleted = 0 }

unfoldable pub gc_artifacts : ℕ → Action GcStats
gc_artifacts keep = inventory_versions >>= λ inventory. gc_apps keep inventory no_stats

-- the number behind the last colon of `<app>:<timestamp>`, 0 if there is none
abbrev pub bucket_time : Text → ℕ
bucket_time key = elim (rsplit_once colon key) [
  | none ↦ 0
  | some parts ↦ unwrap_or (parse_u64 parts.1) 0
]

-- the difference is one of `u64`, which wraps in a release build
unfoldable pub gc_metrics : ℕ → ℕ → Action ℕ
gc_metrics retain_days now = transact λ t.
    let pruned =
      prune_keys (λ key. ltb (bucket_time key) (u64 (now + 2 ^ 64 - retain_days * 86400)))
        t.metrics in
    (pruned.0, record t { metrics = pruned.1 })

abbrev pub undeploy : Text
undeploy = codes "_undeploy:"

unfoldable pub mark_undeployed : Text → ℕ → Action (Unit {0})
mark_undeployed app_name now =
    update λ t. record t { schema_meta = put (undeploy ++ app_name) (to_text now) t.schema_meta }

-- `table.remove(key).ok()`, which goes on if the removal fails
abbrev pub remove_unless : {V : Type 0} → Bool → Text → Map Text V → Map Text V
remove_unless skipped key table = if skipped then table else remove key table

unfoldable pub mark_deployed : Bool → Text → Action (Unit {0})
mark_deployed remove_fails app_name =
    update λ t. record t {
      schema_meta = remove_unless remove_fails (undeploy ++ app_name) t.schema_meta;
    }

unfoldable pub is_undeployed : Text → Action Bool
is_undeployed app_name = query λ t. contains_key (undeploy ++ app_name) t.schema_meta

-- the `filter_map` of `list_deployed_apps`
unfoldable pub deployed_of : List Text → Action (List Text)
deployed_of [] = pure []
deployed_of (id ∷ ids) = do
  undeployed ← is_undeployed id
  rest ← deployed_of ids
  pure (if undeployed then rest else id ∷ rest)

unfoldable pub list_deployed_apps : Action (List Text)
list_deployed_apps = list_apps >>= deployed_of

-- the apps whose marker is older than the grace period; the difference wraps
unfoldable pub expired_apps : ℕ → ℕ → Map Text Text → List Text
expired_apps grace_secs now [] = []
expired_apps grace_secs now ((key, value) ∷ rest) = elim (strip_prefix key undeploy) [
  | none ↦ expired_apps grace_secs now rest
  | some app_name ↦
      if ltb grace_secs (u64 (now + 2 ^ 64 - unwrap_or (parse_u64 value) 0))
      then app_name ∷ expired_apps grace_secs now rest
      else expired_apps grace_secs now rest
]

-- `key.starts_with(&format!("{app_name}:"))`
abbrev pub has_prefix : Text → Text → Bool
has_prefix app_name key = starts_with key (app_name ++ colon ∷ [])

-- the tables in which the purge goes on without an entry that cannot be read or removed
pub data PurgedTable : Type 0 where
  artifacts_table raw_wasm_table configs_table metrics_table meta_table : PurgedTable

-- what is left of a table, by the keys that are skipped
abbrev pub without_app : {V : Type 0} → (Text → Bool) → Text → Map Text V → Map Text V
without_app skipped app_name = retain_keys λ key. not (has_prefix app_name key) || skipped key

unfoldable pub purge_routes : Text → Action (Unit {0})
purge_routes app_name = list_routes_for_app app_name >>= λ routes_to_delete.
    for_each delete_route (map (λ route. route.host) routes_to_delete)

-- `skips` says of which entries redb gives an error that the code drops; the transaction goes on.
module _ (skips : PurgedTable → Text → Bool) where
  unfoldable pub purge_tables : Text → Action (Unit {0})
  purge_tables app_name =
      update
        (λ t. record t { artifacts = without_app (skips artifacts_table) app_name t.artifacts })
      >> update
          (λ t. record t { raw_wasm = without_app (skips raw_wasm_table) app_name t.raw_wasm })
      >> update (λ t. record t { configs = without_app (skips configs_table) app_name t.configs })
      >> update (λ t. record t { metrics = without_app (skips metrics_table) app_name t.metrics })

  unfoldable pub purge_marker : Text → Action (Unit {0})
  purge_marker app_name = update λ t. record t {
    schema_meta =
        let marker = undeploy ++ app_name in
        remove_unless (skips meta_table marker) marker t.schema_meta;
  }

  unfoldable pub purge_app_state : Text → Action (Unit {0})
  purge_app_state app_name = purge_tables app_name >> purge_routes app_name >> purge_marker app_name

  unfoldable pub purge_all : List Text → Action ℕ
  purge_all [] = pure 0
  purge_all (app_name ∷ rest) = do
    purge_app_state app_name
    purged ← purge_all rest
    pure (purged + 1)

  unfoldable pub gc_undeployed_apps : ℕ → ℕ → Action ℕ
  gc_undeployed_apps grace_secs now =
      query (λ t. expired_apps grace_secs now t.schema_meta) >>= purge_all
