-- ===== src/Storage/Gc/Versions.antt =====
-- Which artifacts the collector of old versions deletes.
use wasm_cloud_platform.Common.{
  ℕ, ◌-◌, ◌≡◌, Bool, true, List, [], Text, Map, contains, any, length, drop, ◌≤◌, All, text_key,
  nat_key, ◌==◌, map_values,
}
use wasm_cloud_platform.AppId.{colon}
use wasm_cloud_platform.Storage.Tables.{Tables}
use wasm_cloud_platform.Storage.Apps.{keys, sort_by_key}
use wasm_cloud_platform.Storage.Apps.Sorting.{sort_by_key-IsSorted, take-drop-IsSorted}
use wasm_cloud_platform.Storage.Gc.{VersionEntry, candidates_to_delete, group, version_sort_key}

-- the candidates of all apps
abbrev pub is_doomed : ℕ → Map Text (List VersionEntry) → Text → Bool
is_doomed keep inventory key =
    any (λ entry. any (λ e. e.key == key) (candidates_to_delete keep entry.1)) inventory

-- what `inventory_versions` returns
abbrev pub inventory_of : Tables → Map Text (List VersionEntry)
inventory_of t =
    map_values (sort_by_key λ entry. version_sort_key entry.version) (group (keys t.artifacts) [])

HasColon : VersionEntry → Type 0
HasColon e = contains e.key colon ≡ true

module _ (P : Text → Type 0) where
  abbrev Both : VersionEntry → Type 0
  Both e = (contains e.key colon ≡ true) × P e.key

-- Each candidate of an app is at most as new as each version that stays.
pub candidates_to_delete-oldest :
    (keep : ℕ) (versions : List VersionEntry)
    → let sorted = sort_by_key (λ e. version_sort_key e.version) versions in
      All
        (λ e.
          All
            (λ k. version_sort_key e.version ≤ version_sort_key k.version)
            (drop (length sorted - keep) sorted))
        (candidates_to_delete keep sorted)
candidates_to_delete-oldest keep versions =
    take-drop-IsSorted (λ e. version_sort_key e.version) _ _ (sort_by_key-IsSorted _ versions)
