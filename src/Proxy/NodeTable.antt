-- ===== src/Proxy/NodeTable.antt =====
-- crates/proxy/src/node_table.rs: the load of the other nodes. A call takes the seconds since the
-- epoch at which it runs, and the order in which the map is read is that of its entries.
pub mod Selection
mod Tests
use wasm_cloud_platform.Common.{
  ℕ, ◌+◌, ◌-◌, ◌^◌, Bool, true, false, not, ◌&&◌, Option, none, some, List, [], ◌∷◌, String,
  string_key, ◌==◌, Map, lookup, insert, remove, contains, filter, map, ltb, u64, if◌then◌else◌,
}

pub data NodeHealthStatus : Type 0 where
  healthy degraded unhealthy : NodeHealthStatus

-- An `f32`: not a number, or its place in the order of the numbers.
pub data F32 : Type 0 where
  nan : F32
  place : ℕ → F32

pub record NodeEntry : Type 0 where
  pub node_id : String
  pub proxy_address : String
  pub fuel_used_percent : F32
  pub active_instances : ℕ
  pub last_seen : ℕ
  pub health_status : NodeHealthStatus

-- The subtraction is one of `u64` and wraps around; a clock before the epoch is left out.
unfoldable pub is_stale : ℕ → NodeEntry → Bool
is_stale now n = ltb 30 (u64 (now + 2 ^ 64 - n.last_seen))

pub record NodeLoadTable : Type 0 where
  pub nodes : Map String NodeEntry
  -- the members of the set
  pub unhealthy_ids : List String

unfoldable pub update : NodeLoadTable → NodeEntry → NodeLoadTable
update t entry = record t { nodes = insert entry.node_id entry t.nodes }

abbrev is_unhealthy_status : NodeHealthStatus → Bool
is_unhealthy_status unhealthy = true
is_unhealthy_status _ = false

unfoldable pub is_unhealthy : NodeLoadTable → String → Bool
is_unhealthy t node_id = contains t.unhealthy_ids node_id

-- the test of the filter in `least_loaded_node`
unfoldable pub is_eligible : NodeLoadTable → ℕ → NodeEntry → Bool
unfolding is_unhealthy
is_eligible t now n =
    not (is_stale now n)
    && not (is_unhealthy t n.node_id)
    && not (is_unhealthy_status n.health_status)

-- `partial_cmp(..).unwrap_or(Equal)` is `Greater`
abbrev pub is_greater : F32 → F32 → Bool
is_greater (place a) (place b) = ltb b a
is_greater _ _ = false

-- `min_by`: the first of the least
unfoldable pub min_from : NodeEntry → List NodeEntry → NodeEntry
min_from best [] = best
min_from best (n ∷ ns) =
    if is_greater best.fuel_used_percent n.fuel_used_percent
    then min_from n ns
    else min_from best ns

unfoldable pub min_by : List NodeEntry → Option NodeEntry
min_by [] = none
min_by (n ∷ ns) = some (min_from n ns)

abbrev pub values : Map String NodeEntry → List NodeEntry
values = map (λ (kv : String × NodeEntry). kv.1)

unfoldable pub least_loaded_node : NodeLoadTable → ℕ → Option NodeEntry
least_loaded_node t now = min_by (filter (is_eligible t now) (values t.nodes))

unfoldable pub least_loaded_other_node : NodeLoadTable → ℕ → String → Option NodeEntry
least_loaded_other_node t now local_node_id = min_by (
    filter (λ (n : NodeEntry). not (n.node_id == local_node_id) && is_eligible t now n)
      (values t.nodes))

unfoldable pub update_health : NodeLoadTable → String → NodeHealthStatus → NodeLoadTable
update_health t node_id status = elim (lookup node_id t.nodes) [
  | none ↦ t
  | some node ↦ record t { nodes = insert node_id (record node { health_status = status }) t.nodes }
]

unfoldable pub mark_unhealthy : NodeLoadTable → String → NodeLoadTable
unfolding is_unhealthy
mark_unhealthy t node_id =
    if is_unhealthy t node_id then t else record t { unhealthy_ids = node_id ∷ t.unhealthy_ids }

unfoldable pub mark_healthy : NodeLoadTable → String → NodeLoadTable
mark_healthy t node_id = record t {
  unhealthy_ids = filter (λ id. not (id == node_id)) t.unhealthy_ids;
}
