-- ===== src/Storage/Routes.antt =====
-- crates/storage/src/routes.rs, and `list_routes_for_app` of gc.rs.
pub mod Newer
use wasm_cloud_platform.Common.{
  ℕ, Bool, true, false, Option, none, some, List, [], ◌∷◌, Text, Map, lookup, remove, filter,
  Result, ok, err, leb, text_key, ◌==◌, if◌then◌else◌, ◌≡◌,
}
use wasm_cloud_platform.Storage.Keys.{put}
use wasm_cloud_platform.Storage.Tables.{
  Json, json, malformed, Route, StorageError, storage, Action, pure, query, update, lift, ◌>>=◌,
  ◌>>◌,
}
use wasm_cloud_platform.Storage.Apps.{parsed}

unfoldable pub save_route : Route → Action (Unit {0})
save_route route = update λ t. record t { routes = put route.host (json route) t.routes }

unfoldable pub delete_route : Text → Action (Unit {0})
delete_route host = update λ t. record t { routes = remove host t.routes }

-- the values of a table, parsed one after the other; the first that does not parse ends it
unfoldable pub all_parsed : {A : Type 0} → Map Text (Json A) → Result StorageError (List A)
all_parsed [] = ok []
all_parsed ((key, malformed) ∷ rest) = err storage
all_parsed ((key, json a) ∷ rest) = elim (all_parsed rest) [
  | ok found ↦ ok (a ∷ found)
  | err e ↦ err e
]

unfoldable pub list_routes : Action (List Route)
list_routes = query (λ t. all_parsed t.routes) >>= lift

unfoldable pub load_route : Text → Action (Option Route)
load_route host = query (λ t. lookup host t.routes) >>= λ v. lift (parsed v)

-- whether a route that is held already is at least as new
abbrev pub is_outdated : Option Route → Route → Bool
is_outdated none route = false
is_outdated (some existing) route = leb route.updated_at existing.updated_at

unfoldable pub save_route_if_newer : Route → Action Bool
save_route_if_newer route = load_route route.host >>= λ held.
    if is_outdated held route then pure false else (save_route route >> pure true)

unfoldable pub list_routes_for_app : Text → Action (List Route)
list_routes_for_app app_name =
    list_routes >>= λ all_routes. pure (filter (λ route. route.app_id == app_name) all_routes)
