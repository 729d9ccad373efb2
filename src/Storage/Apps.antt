-- ===== src/Storage/Apps.antt =====
-- crates/storage/src/artifact.rs, config.rs and secrets.rs: what is stored of an app, by its id. The
-- Rust `AppId` is its text here.
pub mod Sorting
use wasm_cloud_platform.Common.{
  ℕ, ◌+◌, Bool, true, false, not, ◌&&◌, Option, none, some, List, [], ◌∷◌, Text, Map, lookup,
  remove, insert, codes, contains_key, contains, filter, length, ◌++◌, drop, map, Result, ok, err,
  or_fail, unwrap_or, leb, ltb, text_key, ◌==◌, if◌then◌else◌,
}
use mathlib.Core.List.{reverse}
use wasm_cloud_platform.AppId.{colon}
use wasm_cloud_platform.Storage.Keys.{put, starts_with, rsplit_once, trim_start_matches, parse_u32}
use wasm_cloud_platform.Storage.Tables.{
  Json, json, malformed, Bytes, Opaque, StoredConfig, ConfigValue, app_config, plain_object,
  null_value, other_value, Tables, StorageError, storage, app_not_found, Action, pure, transact,
  query, update, lift, from_str, for_each, ◌>>=◌, ◌>>◌,
}

abbrev pub keys : {V : Type 0} → Map Text V → List Text
keys = map (λ entry. entry.0)

unfoldable pub store_artifact : Text → Bytes → Action (Unit {0})
store_artifact id bytes = update λ t. record t { artifacts = put id bytes t.artifacts }

unfoldable pub load_artifact : Text → Action (Option Bytes)
load_artifact id = query λ t. lookup id t.artifacts

unfoldable pub artifact_exists : Text → Action Bool
artifact_exists id = query λ t. contains_key id t.artifacts

unfoldable pub delete_artifact : Text → Action (Unit {0})
delete_artifact id = update λ t. record t { artifacts = remove id t.artifacts }

-- `sort_by_key`, which keeps the order of elements with the same key
unfoldable pub insert_by_key {ℓ} : {A : Type ℓ} → (A → ℕ) → A → List A → List A
insert_by_key key x [] = x ∷ []
insert_by_key key x (y ∷ ys) =
    if leb (key x) (key y) then x ∷ y ∷ ys else y ∷ insert_by_key key x ys

unfoldable pub sort_by_key {ℓ} : {A : Type ℓ} → (A → ℕ) → List A → List A
sort_by_key key [] = []
sort_by_key key (x ∷ xs) = insert_by_key key x (sort_by_key key xs)

-- `key.rsplit(':').next()` and `key.split(':').next_back()`: what stands behind the last colon, or
-- all of it
abbrev pub last_part : Text → Text
last_part key = elim (rsplit_once colon key) [ none ↦ key | some parts ↦ parts.1 ]

abbrev pub letter_v : ℕ
letter_v = 118

-- the number behind the last colon, `v` left out; 0 if it is none
unfoldable pub version_number : Text → ℕ
version_number key = unwrap_or (parse_u32 (trim_start_matches letter_v (last_part key))) 0

-- what `prune_old_versions` deletes: `keep` of the newest stay, and the active ones
unfoldable pub pruned_versions : Text → ℕ → List Text → List Text → List Text
pruned_versions app_name keep active_versions stored =
    let versions = filter (λ key. starts_with key (app_name ++ colon ∷ [])) stored in
    filter (λ key. not (contains active_versions key))
      (drop keep (reverse (sort_by_key version_number versions)))

unfoldable pub prune_old_versions : Text → ℕ → List Text → Action (Unit {0})
prune_old_versions app_name keep active_versions = query (λ t. keys t.artifacts) >>= λ stored.
    for_each delete_artifact (pruned_versions app_name keep active_versions stored)

unfoldable pub save_raw_wasm : Text → Bytes → Action (Unit {0})
save_raw_wasm sha256 bytes = update λ t. record t { raw_wasm = put sha256 bytes t.raw_wasm }

unfoldable pub load_raw_wasm : Text → Action (Option Bytes)
load_raw_wasm sha256 = query λ t. lookup sha256 t.raw_wasm

unfoldable pub raw_wasm_exists : Text → Action Bool
raw_wasm_exists sha256 = query λ t. contains_key sha256 t.raw_wasm

unfoldable pub delete_raw_wasm : Text → Action (Unit {0})
delete_raw_wasm sha256 = update λ t. record t { raw_wasm = remove sha256 t.raw_wasm }

-- all of them, whatever their age; one transaction for each
unfoldable pub prune_raw_wasm_older_than : ℕ → Action ℕ
prune_raw_wasm_older_than hours = query (λ t. keys t.raw_wasm) >>= λ sha256s.
    for_each delete_raw_wasm sha256s >> pure (length sha256s)

unfoldable pub save_artifact_verification : Text → Opaque → Action (Unit {0})
save_artifact_verification sha256 verification = update λ t. record t {
  artifact_verifications = put sha256 (json verification) t.artifact_verifications;
}

-- the stored value, parsed, if there is one
abbrev pub parsed {ℓ} : {A : Type ℓ} → Option (Json A) → Result StorageError (Option A)
parsed none = ok none
parsed (some (json a)) = ok (some a)
parsed (some malformed) = err storage

unfoldable pub load_artifact_verification : Text → Action (Option Opaque)
load_artifact_verification sha256 =
    query (λ t. lookup sha256 t.artifact_verifications) >>= λ v. lift (parsed v)

unfoldable pub save_artifact_hash : Text → Text → Action (Unit {0})
save_artifact_hash id sha256 =
    update λ t. record t { artifact_hashes = put id sha256 t.artifact_hashes }

unfoldable pub get_artifact_sha256 : Text → Action (Option Text)
get_artifact_sha256 id = query λ t. lookup id t.artifact_hashes

unfoldable pub delete_artifact_hash : Text → Action (Unit {0})
delete_artifact_hash id = update λ t. record t { artifact_hashes = remove id t.artifact_hashes }

unfoldable pub save_config : StoredConfig → Action (Unit {0})
save_config config =
    update λ t. record t { configs = put config.id (json (app_config config)) t.configs }

-- the text of an entry, read as an `AppConfig`
abbrev pub as_app_config : Option (Json ConfigValue) → Option (Json StoredConfig)
as_app_config none = none
as_app_config (some malformed) = some malformed
as_app_config (some (json (app_config config))) = some (json config)
as_app_config (some (json (plain_object connections limit others))) = some malformed
as_app_config (some (json null_value)) = some malformed
as_app_config (some (json other_value)) = some malformed

unfoldable pub load_config : Text → Action (Option StoredConfig)
load_config id = query (λ t. lookup id t.configs) >>= λ v. lift (parsed (as_app_config v))

unfoldable pub set_env_var : Text → Text → Text → Action (Unit {0})
set_env_var id key value = do
  found ← load_config id
  config ← lift (or_fail found (app_not_found id))
  save_config (record config { env_vars = insert key value config.env_vars })

unfoldable pub list_apps : Action (List Text)
list_apps = query λ t. keys t.configs

unfoldable pub save_secrets : Text → Bytes → Action (Unit {0})
save_secrets id blob = update λ t. record t { secrets = put id blob t.secrets }

unfoldable pub load_secrets : Text → Action (Option Bytes)
load_secrets id = query λ t. lookup id t.secrets

unfoldable pub delete_secrets : Text → Action (Unit {0})
delete_secrets id = update λ t. record t { secrets = remove id t.secrets }

abbrev pub kek_key : Text
kek_key = codes "kek"

unfoldable pub save_kek : Bytes → Action (Unit {0})
save_kek bytes = update λ t. record t { kek = put kek_key bytes t.kek }

unfoldable pub load_kek : Action (Option Bytes)
load_kek = query λ t. lookup kek_key t.kek

unfoldable pub delete_kek : Action (Unit {0})
delete_kek = update λ t. record t { kek = remove kek_key t.kek }
