-- ===== src/Proxy/NodeTable/Tests.antt =====
-- Runs of the node table, and its theorems at a concrete one.
use wasm_cloud_platform.Common.{
  ℕ, ◌≡◌, refl, string_key, some, none, [], ◌∷◌, String, lookup, insert,
}
use wasm_cloud_platform.Proxy.NodeTable.{
  place, healthy, unhealthy, NodeEntry, NodeLoadTable, is_stale, update, is_unhealthy, is_eligible,
  min_from, min_by, least_loaded_node, least_loaded_other_node, update_health, mark_unhealthy,
  mark_healthy,
}

program : Unit {0}
unfolding is_stale update is_unhealthy is_eligible min_from min_by least_loaded_node
    least_loaded_other_node update_health mark_unhealthy mark_healthy lookup insert
program = tt

abbrev node : String → ℕ → NodeEntry
node id load = record {
  node_id = id;
  proxy_address = "10.0.0.5:8080";
  fuel_used_percent = place load;
  active_instances = 1;
  last_seen = 1000;
  health_status = healthy;
}

abbrev table : NodeLoadTable
table = record {
  nodes = ("a", node "a" 40) ∷ ("b", node "b" 20) ∷ ("c", node "c" 30) ∷ [];
  unhealthy_ids = [];
}

least_loaded :
    (least_loaded_node table 1010 ≡ some (node "b" 20))
    × (least_loaded_other_node table 1010 "b" ≡ some (node "c" 30))
    × (least_loaded_node (mark_unhealthy table "b") 1010 ≡ some (node "c" 30))
    × (least_loaded_node (mark_healthy (mark_unhealthy table "b") "b") 1010 ≡ some (node "b" 20))
    × (least_loaded_node (update_health table "b" unhealthy) 1010 ≡ some (node "c" 30))
    × (least_loaded_node table 1031 ≡ none)
unfolding program
least_loaded = (refl, refl, refl, refl, refl, refl)
