-- ===== src/Storage/Migrations/Succeeds.antt =====
-- crates/storage/src/migrations.rs: the stores on which a run of the migrations succeeds.
use wasm_cloud_platform.Common.{
  ℕ, zero, suc, ◌+◌, ◌-◌, ◌≤◌, ◌<◌, ◌≡◌, ap, ◌∙◌, refl, subst, none, some, ok, Option, [], ◌∷◌,
  Text, Map, All, Bool-cases, Option-cases, inl, inr, text_key, nat_key, ◌==◌, arith,
}
use wasm_cloud_platform.Storage.Keys.{put, text_lt}
use wasm_cloud_platform.Storage.Tables.{
  Json, json, malformed, ConfigValue, app_config, plain_object, null_value, other_value, Store,
  Action, transact, update, continue, ◌>>=◌,
}
use wasm_cloud_platform.Storage.Tables.Triples.{Ends}
use wasm_cloud_platform.Storage.Tables.Works.{IsHealthy}
use wasm_cloud_platform.Storage.Migrations.{
  schema_version, read_schema_version, with_version, write_schema_version, with_connections,
  with_rate_limit, rewrite, migrate_configs, apply_migration_transactional, migrate, migrate_from,
  run_migrations, migrate_v1_to_v2, migrate_v2_to_v3, migrate_v3_to_v4, migrate_v4_to_v5,
  migrate_v5_to_v6, migrate_v6_to_v7, migrate_v7_to_v8,
}
use wasm_cloud_platform.Storage.Migrations.Runs.{Reached, ltb-none, run_migrations-ends}

-- a value that a field can be set in
abbrev pub IsSettable : ConfigValue → Type 0
IsSettable (app_config config) = Unit
IsSettable (plain_object connections limit others) = Unit
IsSettable null_value = Unit
IsSettable other_value = ⊥

-- an entry of the config table that no migration panics on
abbrev pub IsMigratable : Text × Json ConfigValue → Type 0
IsMigratable (key, json value) = IsSettable value
IsMigratable (key, malformed) = Unit

-- a store whose transactions go through, and whose configs no migration panics on
abbrev pub IsReady : Store → Type 0
IsReady s = IsHealthy s × All IsMigratable s.tables.configs

-- the call succeeds, and the next one can
abbrev Runs : Action (Unit {0}) → Store → Type 0
Runs call s = (t : Store) × (call s ≡ (ok tt, t)) × IsReady t

>>=-Runs :
    (first rest : Action (Unit {0})) (s : Store)
    → Runs first s
    → ((t : Store) → IsReady t → Runs rest t)
    → Runs (first >>= λ _. rest) s
unfolding ◌>>=◌
>>=-Runs first rest s w next =
    let n = next w.0 w.2 in (n.0, ap (λ end. continue end.0 (λ _. rest) end.1) w.1 ∙ n.1, n.2)

-- a value is settable still after its field was set
abbrev StaysSettable : Option ConfigValue → Type 0
StaysSettable none = ⊥
StaysSettable (some value) = IsSettable value

with_connections-StaysSettable :
    (value : ConfigValue) → IsSettable value → StaysSettable (with_connections value)
unfolding with_connections
with_connections-StaysSettable (app_config config) h = tt
with_connections-StaysSettable (plain_object connections limit others) h = tt
with_connections-StaysSettable null_value h = tt
with_connections-StaysSettable other_value h = elim h [ ]

with_rate_limit-StaysSettable :
    (value : ConfigValue) → IsSettable value → StaysSettable (with_rate_limit value)
unfolding with_rate_limit
with_rate_limit-StaysSettable (app_config config) h = tt
with_rate_limit-StaysSettable (plain_object connections limit others) h = tt
with_rate_limit-StaysSettable null_value h = tt
with_rate_limit-StaysSettable other_value h = elim h [ ]

put-IsMigratable :
    (key : Text) (value : ConfigValue) (m : Map Text (Json ConfigValue))
    → IsSettable value
    → All IsMigratable m
    → All IsMigratable (put key (json value) m)
unfolding put
put-IsMigratable key value [] settable held = (settable, tt)
put-IsMigratable key value ((other, old) ∷ rest) settable held = elim (Bool-cases (other == key)) [
  | inl same ↦ rw (same) (settable, held.1)
  | inr differs ↦ elim (Bool-cases (text_lt key other)) [
    | inl before ↦ rw (differs, before) (settable, held)
    | inr behind ↦ rw (differs, behind) (held.0, put-IsMigratable key value rest settable held.1)
  ]
]

-- a table that was rewritten without a panic
abbrev IsWritten : Option (Map Text (Json ConfigValue)) → Type 0
IsWritten none = ⊥
IsWritten (some table) = All IsMigratable table

module _ (f : ConfigValue → Option ConfigValue)
    (sets : (value : ConfigValue) → IsSettable value → StaysSettable (f value)) where
  rewrite-IsWritten :
      (records table : Map Text (Json ConfigValue))
      → All IsMigratable records
      → All IsMigratable table
      → IsWritten (rewrite f records table)
  unfolding rewrite
  rewrite-IsWritten [] table held into = into
  rewrite-IsWritten ((key, malformed) ∷ records) table held into =
      rewrite-IsWritten records table held.1 into
  rewrite-IsWritten ((key, json value) ∷ records) table held into = elim (Option-cases (f value)) [
    | inl panics ↦ absurd (subst StaysSettable panics (sets value held.0))
    | inr (new_value, e) ↦
        rw (rewrite, e)
          (rewrite-IsWritten records (put key (json new_value) table) held.1
            (put-IsMigratable key new_value table (subst StaysSettable e (sets value held.0)) into))
  ]

  migrate_configs-Runs : (v : ℕ) (s : Store) → IsReady s → Runs (migrate_configs f v) s
  unfolding migrate_configs ◌>>=◌ transact with_version
  migrate_configs-Runs v s ready =
      let held = s.tables.configs in
      let written = rewrite-IsWritten held held ready.1 ready.1 in
      elim (Option-cases (rewrite f held held)) [
        | inl panics ↦ absurd (subst IsWritten panics written)
        | inr (table, e) ↦ (
          record s {
            tables = with_version v (record s.tables { configs = table });
            transactions = s.transactions + 1 + 1;
          },
          rw (ready.0 s.transactions, ready.0 (s.transactions + 1), e) refl,
          (ready.0, subst IsWritten e written),
        )
      ]

with_version-Runs : (v : ℕ) (s : Store) → IsReady s → Runs (update (with_version v)) s
unfolding transact with_version
with_version-Runs v s ready = (
  record s { tables = with_version v s.tables; transactions = s.transactions + 1 },
  rw (ready.0 s.transactions) refl,
  ready,
)

apply_migration_transactional-Runs :
    (v : ℕ) → v < 8 → (s : Store) → IsReady s → Runs (apply_migration_transactional (v + 1)) s
unfolding apply_migration_transactional write_schema_version migrate_v1_to_v2 migrate_v2_to_v3
    migrate_v3_to_v4 migrate_v4_to_v5 migrate_v5_to_v6 migrate_v6_to_v7 migrate_v7_to_v8
apply_migration_transactional-Runs zero lt = with_version-Runs 1
apply_migration_transactional-Runs (suc zero) lt =
    migrate_configs-Runs with_connections with_connections-StaysSettable 2
apply_migration_transactional-Runs (suc (suc zero)) lt =
    migrate_configs-Runs with_rate_limit with_rate_limit-StaysSettable 3
apply_migration_transactional-Runs (suc (suc (suc zero))) lt = with_version-Runs 4
apply_migration_transactional-Runs (suc (suc (suc (suc zero)))) lt = with_version-Runs 5
apply_migration_transactional-Runs (suc (suc (suc (suc (suc zero))))) lt = with_version-Runs 6
apply_migration_transactional-Runs (suc (suc (suc (suc (suc (suc zero)))))) lt = with_version-Runs 7
apply_migration_transactional-Runs (suc (suc (suc (suc (suc (suc (suc zero))))))) lt =
    with_version-Runs 8
apply_migration_transactional-Runs (suc (suc (suc (suc (suc (suc (suc (suc n)))))))) lt =
    absurd (omega arith)

migrate-Runs : (left v : ℕ) → v + left ≡ 8 → (s : Store) → IsReady s → Runs (migrate left v) s
unfolding migrate
migrate-Runs zero v e s ready = (s, refl, ready)
migrate-Runs (suc left) v e s ready =
    >>=-Runs (apply_migration_transactional (v + 1)) (migrate left (v + 1)) s
      (apply_migration_transactional-Runs v (omega arith) s ready)
      λ t next. migrate-Runs left (v + 1) (omega arith) t next

migrate_from-Runs : (v : ℕ) → v ≤ 8 → (s : Store) → IsReady s → Runs (migrate_from v) s
unfolding migrate_from
migrate_from-Runs v le s ready = elim (Bool-cases (v == 8)) [
  | inl same ↦ rw same (s, refl, ready)
  | inr differs ↦ rw (differs, ltb-none v le) (migrate-Runs (8 - v) v (ground arith) s ready)
]

run_migrations-Runs : (s : Store) → IsReady s → schema_version s.tables ≤ 8 → Runs run_migrations s
unfolding run_migrations ◌>>=◌ read_schema_version transact
run_migrations-Runs s ready le = rw (ready.0 s.transactions) (
    migrate_from-Runs (schema_version s.tables) le (record s { transactions = s.transactions + 1 })
      ready)

-- On a store of a version up to the current one, whose transactions all go through and whose
-- configs hold no JSON value but an object or `null`, a run of the migrations succeeds, leaves the
-- store at the current version, and leaves configs that no later migration of a field panics on.
pub run_migrations-succeeds :
    (s : Store)
    → IsReady s
    → schema_version s.tables ≤ 8
    → (t : Store) × (run_migrations s ≡ (ok tt, t))
      × (schema_version t.tables ≡ 8)
      × All IsMigratable t.tables.configs
run_migrations-succeeds s ready le =
    let w = run_migrations-Runs s ready le in
    (
      w.0,
      w.1,
      subst (Ends (λ _ t. schema_version t ≡ 8) (Reached (schema_version s.tables))) w.1
          (run_migrations-ends s.tables le s refl),
      w.2.1,
    )
