-- ===== src/Proxy/NodeTable/Selection.antt =====
-- Which node crates/proxy/src/node_table.rs picks.
use wasm_cloud_platform.Common.{
  ℕ, ◌+◌, ◌^◌, ◌<◌, ◌≡◌, ◌≢◌, ◌↔◌, ◌⊎◌, Bool, true, false, Option, none, some, List, string_key,
  All, arith,
}
use wasm_cloud_platform.Proxy.NodeTable.{nan, NodeEntry, is_stale, is_greater}

-- a load that is a number
abbrev pub IsNumber : NodeEntry → Type 0
IsNumber n = n.fuel_used_percent ≢ nan

-- no load of the list is below it
abbrev pub IsLeast : NodeEntry → List NodeEntry → Type 0
IsLeast best =
    All (λ (n : NodeEntry). is_greater best.fuel_used_percent n.fuel_used_percent ≡ false)

module _ (p : NodeEntry → Bool) where
  -- What a choice among the nodes that pass a test has to be.
  abbrev pub IsChoice : List NodeEntry → Option NodeEntry → Type 0
  IsChoice ns none = All (λ n. p n ≡ false) ns
  IsChoice ns (some best) =
      (p best ≡ true)
      × All
          (λ (n : NodeEntry).
            p n ≡ true → is_greater best.fuel_used_percent n.fuel_used_percent ≡ false)
          ns

-- A node is stale if it was last seen more than 30 seconds ago, and also if it was seen at a time
-- that the clock has not reached yet: there the subtraction wraps around.
pub is_stale-true_iff :
    (now : ℕ) (n : NodeEntry)
    → now < 2 ^ 64
    → n.last_seen < 2 ^ 64
    → (is_stale now n ≡ true)
      ↔ ((n.last_seen + 30 < now) ⊎ ((now < n.last_seen) × (n.last_seen + 30 < now + 2 ^ 64)))
unfolding is_stale
is_stale-true_iff now n small small' = ground arith
