-- ===== src/Storage/Migrations/Runs.antt =====
-- How a run of the migrations ends.
use wasm_cloud_platform.Common.{
  ℕ, zero, suc, ◌+◌, ◌-◌, ◌^◌, ◌≤◌, ◌<◌, ◌≡◌, ap, sym, ◌∙◌, refl, subst, false, none, some, ok, err,
  Option, Result, Text, Map, ltb, text_key, nat_key, ◌==◌, arith, inl, inr, Bool-cases,
}
use wasm_cloud_platform.Storage.Keys.{to_text}
use wasm_cloud_platform.Storage.Keys.Decimal.{parse_uint-to_text}
use wasm_cloud_platform.Storage.Keys.Laws.{lookup-put}
use wasm_cloud_platform.Storage.Tables.{Json, ConfigValue, Tables, StorageError, update, lift}
use wasm_cloud_platform.Storage.Tables.Triples.{
  Triple, Never, transact-Triple, >>=-Triple, Ends-mono,
}
use wasm_cloud_platform.Storage.Migrations.{
  version_key, version_of, schema_version, read_schema_version, with_version, write_schema_version,
  rewrite, write_configs, migrate_configs, apply_migration_transactional, migrate, migrate_from,
  run_migrations, migrate_v1_to_v2, migrate_v2_to_v3, migrate_v3_to_v4, migrate_v4_to_v5,
  migrate_v5_to_v6, migrate_v6_to_v7, migrate_v7_to_v8, with_connections, with_rate_limit,
}

-- the printed versions are read back
version_of-to_text : (v : ℕ) → 0 < v → v ≤ 8 → version_of (some (to_text v)) ≡ v
version_of-to_text v pos le = rw (parse_uint-to_text (2 ^ 32) v (omega arith) (omega arith)) refl

schema_version-with_version :
    (v : ℕ) (t : Tables) → 0 < v → v ≤ 8 → schema_version (with_version v t) ≡ v
unfolding schema_version with_version
schema_version-with_version v t pos le =
    rw (lookup-put version_key version_key (to_text v) t.schema_meta, version_of-to_text v pos le)
      refl

module _ (from v : ℕ) (pos : 0 < v) (le : v ≤ 8) where
  versioned-Triple :
      (work : Tables → Tables)
      → Triple
          (λ t. schema_version t ≡ from)
          (update (λ t. with_version v (work t)))
          (λ _ t. schema_version t ≡ v)
          (λ t. schema_version t ≡ from)
  versioned-Triple work =
      transact-Triple _ _ _ _ (λ t e. schema_version-with_version v (work t) pos le) (λ t e. e)

  -- the version after the second transaction of a migration of the configs
  abbrev EndsAt : Result StorageError (Unit {0}) → Tables → Type 0
  EndsAt (ok done) t = schema_version t ≡ v
  EndsAt (err e) t = schema_version t ≡ from

  write_configs-EndsAt :
      (t : Tables) (configs : Option (Map Text (Json ConfigValue)))
      → schema_version t ≡ from
      → let written = write_configs v t configs in EndsAt written.0 written.1
  write_configs-EndsAt t none e = e
  write_configs-EndsAt t (some configs) e =
      schema_version-with_version v (record t { configs = configs }) pos le

  lift-EndsAt :
      (r : Result StorageError (Unit {0}))
      → Triple (EndsAt r) (lift r) (λ _ t. schema_version t ≡ v) (λ t. schema_version t ≡ from)
  lift-EndsAt (ok done) s e = e
  lift-EndsAt (err e) s same = same

  migrate_configs-Triple :
      (f : ConfigValue → Option ConfigValue)
      → Triple
          (λ t. schema_version t ≡ from)
          (migrate_configs f v)
          (λ _ t. schema_version t ≡ v)
          (λ t. schema_version t ≡ from)
  unfolding migrate_configs
  migrate_configs-Triple f =
      >>=-Triple (λ _ t. schema_version t ≡ from) _ _ _ _ _
        (transact-Triple _ _ _ _ (λ t e. e) (λ t e. e))
        λ records.
          >>=-Triple (λ r t. EndsAt r t) _ _ _ _ _
            (transact-Triple _ _ _ _ (λ t e. write_configs-EndsAt t (rewrite f records t.configs) e)
              (λ t e. e))
            λ r. lift-EndsAt r

-- A migration that fails leaves the store at the version that it had.
pub apply_migration_transactional-Triple :
    (v : ℕ)
    → v < 8
    → Triple
        (λ t. schema_version t ≡ v)
        (apply_migration_transactional (v + 1))
        (λ _ t. schema_version t ≡ v + 1)
        (λ t. schema_version t ≡ v)
unfolding apply_migration_transactional write_schema_version migrate_v1_to_v2 migrate_v2_to_v3
    migrate_v3_to_v4 migrate_v4_to_v5 migrate_v5_to_v6 migrate_v6_to_v7 migrate_v7_to_v8
apply_migration_transactional-Triple zero lt =
    versioned-Triple 0 1 (omega arith) (omega arith) λ t. t
apply_migration_transactional-Triple (suc zero) lt =
    migrate_configs-Triple 1 2 (omega arith) (omega arith) with_connections
apply_migration_transactional-Triple (suc (suc zero)) lt =
    migrate_configs-Triple 2 3 (omega arith) (omega arith) with_rate_limit
apply_migration_transactional-Triple (suc (suc (suc zero))) lt =
    versioned-Triple 3 4 (omega arith) (omega arith) λ t. t
apply_migration_transactional-Triple (suc (suc (suc (suc zero)))) lt =
    versioned-Triple 4 5 (omega arith) (omega arith) λ t. t
apply_migration_transactional-Triple (suc (suc (suc (suc (suc zero))))) lt =
    versioned-Triple 5 6 (omega arith) (omega arith) λ t. t
apply_migration_transactional-Triple (suc (suc (suc (suc (suc (suc zero)))))) lt =
    versioned-Triple 6 7 (omega arith) (omega arith) λ t. t
apply_migration_transactional-Triple (suc (suc (suc (suc (suc (suc (suc zero))))))) lt =
    versioned-Triple 7 8 (omega arith) (omega arith) λ t. t
apply_migration_transactional-Triple (suc (suc (suc (suc (suc (suc (suc (suc n)))))))) lt =
    absurd (omega arith)

-- between the version that a store had and the current one
abbrev pub Reached : ℕ → Tables → Type 0
Reached v t = (v ≤ schema_version t) × (schema_version t ≤ 8)

migrate-Triple :
    (left v : ℕ)
    → v + left ≡ 8
    → Triple (λ t. schema_version t ≡ v) (migrate left v) (λ _ t. schema_version t ≡ 8) (Reached v)
unfolding migrate
migrate-Triple zero v e s p = omega arith
migrate-Triple (suc left) v e s p =
    >>=-Triple (λ _ t. schema_version t ≡ v + 1) _ _ _ _ _
      (λ s p.
        Ends-mono (apply_migration_transactional (v + 1) s) (λ _ t q. q) (λ t q. omega arith)
          (apply_migration_transactional-Triple v (omega arith) s p))
      (λ _ s p.
        Ends-mono (migrate left (v + 1) s) (λ _ t q. q) (λ t q. omega arith)
          (migrate-Triple left (v + 1) (omega arith) s p))
      s p

pub ltb-none : (v : ℕ) → v ≤ 8 → ltb 8 v ≡ false
ltb-none v le = ground arith

migrate_from-Triple :
    (v : ℕ)
    → v ≤ 8
    → Triple (λ t. schema_version t ≡ v) (migrate_from v) (λ _ t. schema_version t ≡ 8) (Reached v)
unfolding migrate_from
migrate_from-Triple v le = elim (Bool-cases (v == 8)) [
  | inl same ↦ rw same (λ s p. ground arith)
  | inr other ↦ rw (other, ltb-none v le) (migrate-Triple (8 - v) v (ground arith))
]

pub reads_version :
    (before : Tables) (R : Tables → Type 0)
    → R before
    → Triple
        (λ t. t ≡ before)
        read_schema_version
        (λ v t. (v ≡ schema_version before) × (t ≡ before))
        R
unfolding read_schema_version
reads_version before R r =
    transact-Triple _ _ _ _ (λ t e. (ap schema_version e, e)) (λ t e. subst R (sym e) r)

-- From any version up to the current one, a run that succeeds leaves the store at the current
-- version; a run that fails leaves it at a version that it had or reached on the way, so that the
-- next run goes on from there.
pub run_migrations-ends :
    (before : Tables)
    → schema_version before ≤ 8
    → Triple
        (λ t. t ≡ before)
        run_migrations
        (λ _ t. schema_version t ≡ 8)
        (Reached (schema_version before))
unfolding run_migrations
run_migrations-ends before le =
    >>=-Triple _ _ _ _ _ _
      (reads_version before (Reached (schema_version before)) (omega arith, le))
      λ v s p.
        Ends-mono (migrate_from v s) (λ _ t q. q) (λ t q. omega (arith, p.0))
          (migrate_from-Triple v (omega (arith, p.0)) s (ap schema_version p.1 ∙ sym p.0))

migrate_from-refuses :
    (before : Tables) (v : ℕ)
    → 8 < v
    → Triple (λ t. t ≡ before) (migrate_from v) Never (λ t. t ≡ before)
unfolding migrate_from
migrate_from-refuses before v lt = elim (Bool-cases (v == 8)) [
  | inl same ↦ absurd (ground arith)
  | inr other ↦ elim (Bool-cases (ltb 8 v)) [
    | inl less ↦ rw (other, less) (λ s p. p)
    | inr less ↦ absurd (ground arith)
  ]
]

-- A store that a newer version wrote is refused, and not changed.
pub run_migrations-refuses :
    (before : Tables)
    → 8 < schema_version before
    → Triple (λ t. t ≡ before) run_migrations Never (λ t. t ≡ before)
unfolding run_migrations
run_migrations-refuses before newer =
    >>=-Triple _ _ _ _ _ _ (reads_version before (λ t. t ≡ before) refl)
      λ v s p. migrate_from-refuses before v (omega (arith, p.0)) s p.1
