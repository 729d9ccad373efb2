-- ===== src/Runtime/PolicyLaws/Quotas.antt =====
-- The limits of a policy over any history of calls: core.rs, network.rs and filesystem.rs.
use wasm_cloud_platform.Common.{
  ℕ, All, ◌+◌, ◌^◌, ◌≤◌, ◌<◌, ◌≡◌, ◌≢◌, ◌⊎◌, Bool, List, [], ◌∷◌, IpAddr, ok, err, arith,
}
use wasm_cloud_platform.Runtime.PolicyTracker.{
  PolicyEnforcer, Tracked, check_outbound_tcp_connect, record_outbound_connect,
  record_outbound_disconnect, release_tracked_outbound_connections, reset_active_counters,
  check_and_record_egress, check_egress, record_egress, check_dns_lookup, check_tcp_bind,
  check_fd_open, record_fd_open, record_fd_close, check_and_record_fs_write, check_file_create,
  check_file_delete,
}

-- The calls of the host functions, less the two pairs that the source marks deprecated.
pub data Call : Type 0 where
  connect : IpAddr → ℕ → Call
  connected disconnect drop_store drop_instance : Call
  egress : ℕ → Call
  dns : Call
  bind : ℕ → Call
  fd_open fd_opened fd_close : Call
  fs_write : ℕ → Call
  file_create file_delete : Call

module _ {IpNet : Type 0} (net_contains : IpNet → IpAddr → Bool) (e : PolicyEnforcer IpNet) where
  pub step : Tracked → Call → Tracked
  step s (connect ip port) = (check_outbound_tcp_connect net_contains e ip port s).0
  step s connected = record_outbound_connect s
  step s disconnect = record_outbound_disconnect s
  step s drop_store = release_tracked_outbound_connections s
  step s drop_instance = reset_active_counters s
  step s (egress bytes) = (check_and_record_egress e bytes s).0
  step s dns = (check_dns_lookup e s).0
  step s (bind port) = (check_tcp_bind e port s).0
  step s fd_open = (check_fd_open e s).0
  step s fd_opened = record_fd_open s
  step s fd_close = record_fd_close s
  step s (fs_write bytes) = (check_and_record_fs_write e bytes s).0
  step s file_create = (check_file_create e s).0
  step s file_delete = (check_file_delete e s).0

  pub run : Tracked → List Call → Tracked
  run s [] = s
  run s (c ∷ cs) = run (step s c) cs

-- The counters stand within the limits of the policy; a byte limit of 0 is none.
pub record IsWithin (IpNet : Type 0) (e : PolicyEnforcer IpNet) (s : Tracked) : Type 0 where
  pub connections :
      s.counters.outbound_connections_active ≤ e.policy.network.max_outbound_connections
  pub egress :
      e.policy.network.max_egress_bytes ≢ 0
      → s.counters.egress_bytes ≤ e.policy.network.max_egress_bytes
  pub files : s.counters.open_fds ≤ e.policy.filesystem.max_open_fds
  pub peak : s.counters.open_fds ≤ s.counters.open_fds_peak
  pub peak_within : s.counters.open_fds_peak ≤ e.policy.filesystem.max_open_fds
  pub writes :
      e.policy.filesystem.max_fs_write_bytes ≢ 0
      → s.counters.fs_write_bytes ≤ e.policy.filesystem.max_fs_write_bytes

module _ {IpNet : Type 0} (net_contains : IpNet → IpAddr → Bool) (e : PolicyEnforcer IpNet) where
  step-IsWithin :
      (s : Tracked) (c : Call) → IsWithin IpNet e s → IsWithin IpNet e (step net_contains e s c)
  unfolding step check_outbound_tcp_connect record_outbound_connect record_outbound_disconnect
      release_tracked_outbound_connections reset_active_counters check_and_record_egress
      check_dns_lookup check_tcp_bind check_fd_open record_fd_open record_fd_close
      check_and_record_fs_write check_file_create check_file_delete
  step-IsWithin s (connect ip port) w = ground arith
  step-IsWithin s connected w = ground arith
  step-IsWithin s disconnect w = ground arith
  step-IsWithin s drop_store w = ground arith
  step-IsWithin s drop_instance w = ground arith
  step-IsWithin s (egress bytes) w = ground arith
  step-IsWithin s dns w = ground arith
  step-IsWithin s (bind port) w = ground arith
  step-IsWithin s fd_open w = ground arith
  step-IsWithin s fd_opened w = ground arith
  step-IsWithin s fd_close w = ground arith
  step-IsWithin s (fs_write bytes) w = ground arith
  step-IsWithin s file_create w = ground arith
  step-IsWithin s file_delete w = ground arith

  -- However the host functions are called, the counters stay within the limits of the policy:
  -- connections, bytes sent, open files with their peak, and bytes written.
  pub run-IsWithin :
      (s : Tracked) (cs : List Call)
      → IsWithin IpNet e s
      → IsWithin IpNet e (run net_contains e s cs)
  unfolding run
  run-IsWithin s [] w = w
  run-IsWithin s (c ∷ cs) w = run-IsWithin (step net_contains e s c) cs (step-IsWithin s c w)

module _ {IpNet : Type 0} (e : PolicyEnforcer IpNet) where
  -- one send after the other; the sum of those that were granted
  pub sends : Tracked → List ℕ → Tracked × ℕ
  sends s [] = (s, 0)
  sends s (bytes ∷ later) =
      let (s', answer) = check_and_record_egress e bytes s in
      let (end, granted) = sends s' later in
      (end, elim answer [ ok _ ↦ bytes + granted | err _ ↦ granted ])

  sends-step :
      (bytes : ℕ) (s : Tracked)
      → e.policy.network.max_egress_bytes ≢ 0
      → e.policy.network.max_egress_bytes < 2 ^ 63
      → bytes < 2 ^ 63
      → s.counters.egress_bytes ≤ e.policy.network.max_egress_bytes
      → let (s', answer) = check_and_record_egress e bytes s in
        (((answer ≡ ok tt) × (s'.counters.egress_bytes ≡ s.counters.egress_bytes + bytes))
          ⊎ ((answer ≢ ok tt) × (s'.counters.egress_bytes ≡ s.counters.egress_bytes)))
        × (s'.counters.egress_bytes ≤ e.policy.network.max_egress_bytes)
  unfolding check_and_record_egress
  sends-step bytes s limited small fits w = ground arith

  -- Under a byte limit, the counter grows by exactly the bytes of the sends that were granted and
  -- stays within the limit, for sends and limits below 2^63.
  pub sends-total :
      (s : Tracked) (bs : List ℕ)
      → e.policy.network.max_egress_bytes ≢ 0
      → e.policy.network.max_egress_bytes < 2 ^ 63
      → All (λ bytes. bytes < 2 ^ 63) bs
      → s.counters.egress_bytes ≤ e.policy.network.max_egress_bytes
      → ((sends s bs).0.counters.egress_bytes ≡ s.counters.egress_bytes + (sends s bs).1)
        × ((sends s bs).0.counters.egress_bytes ≤ e.policy.network.max_egress_bytes)
  unfolding sends
  sends-total s [] limited small fits w = ground arith
  sends-total s (bytes ∷ later) limited small fits w =
      let (grant, w') = sends-step bytes s limited small fits.0 w in
      let (total, within) =
        sends-total (check_and_record_egress e bytes s).0 later limited small fits.1 w' in
      (ground arith, within)

  -- The addition is not checked for overflow: a send so large that the sum wraps to a value within
  -- the limit is granted, although it is larger than the whole limit, and the counter falls.
  pub check_and_record_egress-wraps :
      (bytes : ℕ) (s : Tracked)
      → s.counters.egress_bytes ≤ e.policy.network.max_egress_bytes
      → e.policy.network.max_egress_bytes < 2 ^ 64
      → bytes < 2 ^ 64
      → 2 ^ 64 ≤ s.counters.egress_bytes + bytes
      → ((check_and_record_egress e bytes s).1 ≡ ok tt)
        × ((check_and_record_egress e bytes s).0.counters.egress_bytes < s.counters.egress_bytes)
  unfolding check_and_record_egress
  check_and_record_egress-wraps bytes s w small word large = ground arith

  -- The deprecated pair is not atomic: two sends that fit one by one, but not together, are both
  -- granted if both are checked before either is recorded, and the limit is passed.
  pub check_egress-record_egress_races :
      (a b : ℕ) (s : Tracked)
      → e.policy.network.max_egress_bytes ≢ 0
      → s.counters.egress_bytes + a ≤ e.policy.network.max_egress_bytes
      → s.counters.egress_bytes + b ≤ e.policy.network.max_egress_bytes
      → e.policy.network.max_egress_bytes < s.counters.egress_bytes + a + b
      → s.counters.egress_bytes + a + b < 2 ^ 64
      → ((check_egress e a s).1 ≡ ok tt)
        × ((check_egress e b s).1 ≡ ok tt)
        × (e.policy.network.max_egress_bytes
            < (record_egress b (record_egress a s)).counters.egress_bytes)
  unfolding check_egress record_egress
  check_egress-record_egress_races a b s limited fa fb over word = ground arith
