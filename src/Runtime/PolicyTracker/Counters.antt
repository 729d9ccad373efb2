-- ===== src/Runtime/PolicyTracker/Counters.antt =====
-- crates/runtime/src/policy_tracker/counters.rs and denied.rs.
use wasm_cloud_platform.Common.{ℕ, List, String, IpAddr}

pub record PolicyCounters : Type 0 where
  pub outbound_connections_active : ℕ  -- u32
  pub outbound_connections_total : ℕ  -- u64
  pub egress_bytes : ℕ  -- u64
  pub dns_lookups_total : ℕ  -- u64
  pub inbound_connections_active : ℕ  -- u32
  pub current_memory_bytes : ℕ  -- u64
  pub memory_bytes_peak : ℕ  -- u64
  pub current_table_elements : ℕ  -- u32
  pub table_elements_peak : ℕ  -- u32
  pub open_fds : ℕ  -- u32
  pub open_fds_peak : ℕ  -- u32
  pub fd_open_total : ℕ  -- u64
  pub fs_write_bytes : ℕ  -- u64
  pub fs_read_bytes : ℕ  -- u64
  pub file_creates_total : ℕ  -- u64
  pub file_deletes_total : ℕ  -- u64
  pub connection_denied_total : ℕ  -- u64
  pub egress_denied_total : ℕ  -- u64
  pub fd_denied_total : ℕ  -- u64
  pub fs_write_denied_total : ℕ  -- u64
  pub bind_denied_total : ℕ  -- u64
  pub dns_denied_total : ℕ  -- u64
  pub memory_growth_denied_total : ℕ  -- u64
  pub table_growth_denied_total : ℕ  -- u64

abbrev pub new_counters : PolicyCounters
new_counters = record {
  outbound_connections_active = 0;
  outbound_connections_total = 0;
  egress_bytes = 0;
  dns_lookups_total = 0;
  inbound_connections_active = 0;
  current_memory_bytes = 0;
  memory_bytes_peak = 0;
  current_table_elements = 0;
  table_elements_peak = 0;
  open_fds = 0;
  open_fds_peak = 0;
  fd_open_total = 0;
  fs_write_bytes = 0;
  fs_read_bytes = 0;
  file_creates_total = 0;
  file_deletes_total = 0;
  connection_denied_total = 0;
  egress_denied_total = 0;
  fd_denied_total = 0;
  fs_write_denied_total = 0;
  bind_denied_total = 0;
  dns_denied_total = 0;
  memory_growth_denied_total = 0;
  table_growth_denied_total = 0;
}

-- why a destination was refused, and for which address
pub data Reason : Type 0 where
  in_denied_cidrs not_in_allowed_cidrs : Reason

pub data PolicyDenied : Type 0 where
  network_disabled : String → PolicyDenied
  destination_denied : IpAddr → Reason → PolicyDenied
  -- the current value, and the limit
  connection_limit_exceeded : ℕ → ℕ → PolicyDenied
  -- the current value, what was asked for, and the limit
  egress_limit_exceeded : ℕ → ℕ → ℕ → PolicyDenied
  dns_disabled : PolicyDenied
  bind_denied : ℕ → List ℕ → PolicyDenied
  fd_limit_exceeded : ℕ → ℕ → PolicyDenied
  fs_write_limit_exceeded : ℕ → ℕ → ℕ → PolicyDenied
  file_create_denied file_delete_denied : PolicyDenied
