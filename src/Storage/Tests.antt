-- ===== src/Storage/Tests.antt =====
-- Runs of the store on small tables.
use wasm_cloud_platform.Common.{
  Bool, All, err, ◌≡◌, refl, true, false, [], ◌∷◌, ◌++◌, Text, lookup, codes, ok, arith, text_key,
}
use wasm_cloud_platform.Storage.Keys.{put, parse_uint, parse_digits, scan}
use wasm_cloud_platform.Storage.Tables.{
  json, missing, StoredConfig, app_config, other_value, panicked, Route, BillingRecord, Tables,
  Store, transact, ◌>>=◌,
}
use wasm_cloud_platform.Storage.Tables.Triples.{Triple}
use wasm_cloud_platform.Storage.Routes.{save_route_if_newer}
use wasm_cloud_platform.Storage.Routes.Newer.{Newest, save_route_if_newer-IsNewest}
use wasm_cloud_platform.Storage.Migrations.{
  schema_version, run_migrations, read_schema_version, migrate_from, migrate,
  apply_migration_transactional, migrate_v2_to_v3, migrate_configs, rewrite, with_rate_limit,
}
use wasm_cloud_platform.Storage.Migrations.Succeeds.{IsMigratable, run_migrations-succeeds}
use wasm_cloud_platform.Storage.Gc.{undeploy, PurgedTable, purge_app_state, list_deployed_apps}
use wasm_cloud_platform.Storage.Gc.Purge.{IsPurged, purge_app_state-purges}
use wasm_cloud_platform.Storage.Gc.Deployed.{OwnIsKept, purge_app_state-revives}

abbrev no_tables : Tables
no_tables = record {
  artifacts = [];
  configs = [];
  secrets = [];
  metrics = [];
  routes = [];
  raw_wasm = [];
  schema_meta = [];
  artifact_hashes = [];
  artifact_verifications = [];
  billing = [];
  kek = [];
  gateway_configs = [];
  api_keys = [];
}

abbrev users : Text
users = codes "users:v1"

abbrev users_config : StoredConfig
users_config = record {
  id = users;
  env_vars = [];
  db_max_connections = missing;
  rate_limit = missing;
  other_fields = [];
}

abbrev users_route : Route
users_route = record {
  host = codes "a.org";
  app_id = users;
  path_prefix = codes "/";
  strip_prefix = false;
  created_at = 100;
  updated_at = 100;
}

-- an app that was undeployed at second 5
abbrev some_tables : Tables
some_tables = record no_tables {
  artifacts = (users, 1 ∷ 2 ∷ []) ∷ [];
  configs = (users, json (app_config users_config)) ∷ [];
  routes = (codes "a.org", json users_route) ∷ [];
  schema_meta = (undeploy ++ users, codes "5") ∷ (codes "version", codes "2") ∷ [];
}

-- every transaction goes through
abbrev healthy : Tables → Store
healthy t = record { tables = t; completes = λ n. true; transactions = 0 }

abbrev newer_tables : Tables
newer_tables = record no_tables { schema_meta = (codes "version", codes "9") ∷ [] }

program : Unit {0}
unfolding lookup schema_version parse_uint parse_digits scan save_route_if_newer put
program = tt

abbrev none_skipped : PurgedTable → Text → Bool
none_skipped table key = false

purge_app_state-purges_example :
    Triple
      (λ t. t ≡ some_tables)
      (purge_app_state none_skipped users)
      (λ _. IsPurged none_skipped users some_tables)
      (λ t. t.schema_meta ≡ some_tables.schema_meta)
purge_app_state-purges_example = purge_app_state-purges none_skipped users some_tables

purge_app_state-revives_example :
    Triple
      (λ t. t ≡ some_tables)
      (purge_app_state none_skipped users >>= λ _. list_deployed_apps)
      (OwnIsKept users some_tables)
      (λ _. Unit)
purge_app_state-revives_example = purge_app_state-revives none_skipped users some_tables refl refl

abbrev later_route : Route
later_route = record users_route { updated_at = 200 }

save_route_if_newer-IsNewest_example :
    Triple
      (λ t. t ≡ some_tables)
      (save_route_if_newer later_route)
      (Newest some_tables later_route users_route)
      (λ t. t ≡ some_tables)
unfolding program
save_route_if_newer-IsNewest_example =
    save_route_if_newer-IsNewest some_tables later_route users_route refl

some_version : schema_version some_tables ≡ 2
unfolding program
some_version = refl

newer_version : schema_version newer_tables ≡ 9
unfolding program
newer_version = refl

run_migrations-succeeds_example :
    (t : Store) × (run_migrations (healthy some_tables) ≡ (ok tt, t))
    × (schema_version t.tables ≡ 8)
    × All IsMigratable t.tables.configs
run_migrations-succeeds_example =
    run_migrations-succeeds (healthy some_tables) ((λ n. refl), (tt, tt))
      (omega (arith, some_version))

-- a config that is the JSON of a number
panics :
    (run_migrations (healthy (record some_tables { configs = (users, json other_value) ∷ [] }))).0
    ≡ err panicked
unfolding program run_migrations ◌>>=◌ read_schema_version transact migrate_from migrate
    apply_migration_transactional migrate_v2_to_v3 migrate_configs rewrite with_rate_limit
panics = refl

abbrev billed : BillingRecord
billed = record {
  seq = 1;
  prev_hash = [];
  tenant_id = codes "tenant";
  app_id = users;
  instance_id = codes "i";
  node_id = codes "node:0";
  timestamp_ms = 1712400000000;
  fuel_consumed = 1000;
  fuel_quota = 100000000;
  ram_bytes = 1024;
  wall_clock_ms = 10;
  status_code = 200;
  is_trap = false;
  record_hash = codes "h";
}
