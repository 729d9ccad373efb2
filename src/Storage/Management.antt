-- ===== src/Storage/Management.antt =====
-- crates/storage/src/management_state.rs: metadata, gateway configs and API keys. The stored auth
-- config and the node registry are left out.
use wasm_cloud_platform.Common.{
  Option, none, some, List, [], ◌∷◌, Text, Map, lookup, remove, Result, ok, err, text_key,
}
use wasm_cloud_platform.Storage.Keys.{put}
use wasm_cloud_platform.Storage.Tables.{
  Json, json, malformed, Opaque, StorageError, storage, Action, pure, query, update, lift, ◌>>=◌,
}
use wasm_cloud_platform.Storage.Apps.{parsed}

unfoldable pub save_meta : Text → Text → Action (Unit {0})
save_meta key value = update λ t. record t { schema_meta = put key value t.schema_meta }

unfoldable pub load_meta : Text → Action (Option Text)
load_meta key = query λ t. lookup key t.schema_meta

unfoldable pub delete_meta : Text → Action (Unit {0})
delete_meta key = update λ t. record t { schema_meta = remove key t.schema_meta }

unfoldable pub save_gateway_config : Text → Opaque → Action (Unit {0})
save_gateway_config app_id config =
    update λ t. record t { gateway_configs = put app_id (json config) t.gateway_configs }

unfoldable pub load_gateway_config : Text → Action (Option Opaque)
load_gateway_config app_id = query (λ t. lookup app_id t.gateway_configs) >>= λ v. lift (parsed v)

unfoldable pub delete_gateway_config : Text → Action (Unit {0})
delete_gateway_config app_id =
    update λ t. record t { gateway_configs = remove app_id t.gateway_configs }

-- the entries, parsed one after the other
unfoldable pub all_configs : Map Text (Json Opaque) → Result StorageError (List (Text × Opaque))
all_configs [] = ok []
all_configs ((app_id, malformed) ∷ rest) = err storage
all_configs ((app_id, json config) ∷ rest) = elim (all_configs rest) [
  | ok configs ↦ ok ((app_id, config) ∷ configs)
  | err e ↦ err e
]

unfoldable pub list_gateway_configs : Action (List (Text × Opaque))
list_gateway_configs = query (λ t. all_configs t.gateway_configs) >>= lift

unfoldable pub save_api_keys : Text → List Opaque → Action (Unit {0})
save_api_keys app_id held = update λ t. record t { api_keys = put app_id (json held) t.api_keys }

abbrev pub or_empty : Option (List Opaque) → List Opaque
or_empty none = []
or_empty (some held) = held

unfoldable pub load_api_keys : Text → Action (List Opaque)
load_api_keys app_id =
    query (λ t. lookup app_id t.api_keys) >>= λ v. lift (parsed v) >>= λ held. pure (or_empty held)

unfoldable pub delete_api_keys : Text → Action (Unit {0})
delete_api_keys app_id = update λ t. record t { api_keys = remove app_id t.api_keys }
