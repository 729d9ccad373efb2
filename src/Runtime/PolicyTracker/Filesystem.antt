-- ===== src/Runtime/PolicyTracker/Filesystem.antt =====
-- crates/runtime/src/policy_tracker/filesystem.rs.
use wasm_cloud_platform.Common.{
  ℕ, ◌+◌, not, ltb, leb, ◌==◌, nat_key, if◌then◌else◌, fetch_add_u64, fetch_sub_u32, u32, u64, ok,
  err,
}
use wasm_cloud_platform.Runtime.PolicyTracker.Counters.{
  fd_limit_exceeded, fs_write_limit_exceeded, file_create_denied, file_delete_denied,
}
use wasm_cloud_platform.Runtime.PolicyTracker.Core.{PolicyEnforcer, Tracked, update_peak}
use wasm_cloud_platform.Runtime.PolicyTracker.Network.{Answer}

module _ {IpNet : Type 0} (e : PolicyEnforcer IpNet) where
  unfoldable pub check_fd_open : Tracked → Answer
  check_fd_open s =
      let limit = e.policy.filesystem.max_open_fds in
      let current = s.counters.open_fds in
      if leb limit current
      then (
        record s {
          counters = record s.counters {
            fd_denied_total = fetch_add_u64 s.counters.fd_denied_total 1;
          };
        },
        err (fd_limit_exceeded current limit),
      )
      else (
        record s {
          counters = record s.counters {
            open_fds = u32 (current + 1);
            open_fds_peak = update_peak s.counters.open_fds_peak (u32 (current + 1));
          };
        },
        ok tt,
      )

  abbrev deny_write : ℕ → ℕ → Tracked → Answer
  deny_write bytes limit s = (
    record s {
      counters = record s.counters {
        fs_write_denied_total = fetch_add_u64 s.counters.fs_write_denied_total 1;
      };
    },
    err (fs_write_limit_exceeded s.counters.fs_write_bytes bytes limit),
  )

  -- deprecated in favour of `check_and_record_fs_write`, as is `record_fs_write`
  unfoldable pub check_fs_write : ℕ → Tracked → Answer
  check_fs_write additional_bytes s =
      let limit = e.policy.filesystem.max_fs_write_bytes in
      if limit == 0
      then (s, ok tt)
      else if ltb limit (u64 (s.counters.fs_write_bytes + additional_bytes))
      then deny_write additional_bytes limit s
      else (s, ok tt)

  unfoldable pub check_and_record_fs_write : ℕ → Tracked → Answer
  check_and_record_fs_write bytes s =
      let limit = e.policy.filesystem.max_fs_write_bytes in
      let current = s.counters.fs_write_bytes in
      let new_val = u64 (current + bytes) in
      if limit == 0
      then (
        record s { counters = record s.counters { fs_write_bytes = fetch_add_u64 current bytes } },
        ok tt,
      )
      else if ltb limit new_val
      then deny_write bytes limit s
      else (record s { counters = record s.counters { fs_write_bytes = new_val } }, ok tt)

  unfoldable pub check_file_create : Tracked → Answer
  check_file_create s =
      if not e.policy.filesystem.allow_file_create then (s, err file_create_denied) else (
        record s {
          counters = record s.counters {
            file_creates_total = fetch_add_u64 s.counters.file_creates_total 1;
          };
        },
        ok tt,
      )

  unfoldable pub check_file_delete : Tracked → Answer
  check_file_delete s =
      if not e.policy.filesystem.allow_file_delete then (s, err file_delete_denied) else (
        record s {
          counters = record s.counters {
            file_deletes_total = fetch_add_u64 s.counters.file_deletes_total 1;
          };
        },
        ok tt,
      )

unfoldable pub record_fd_open : Tracked → Tracked
record_fd_open s = record s {
  counters = record s.counters { fd_open_total = fetch_add_u64 s.counters.fd_open_total 1 };
}

unfoldable pub record_fd_close : Tracked → Tracked
record_fd_close s = record s {
  counters = record s.counters {
    open_fds = if s.counters.open_fds == 0 then 0 else fetch_sub_u32 s.counters.open_fds 1;
  };
}

unfoldable pub record_fs_write : ℕ → Tracked → Tracked
record_fs_write bytes s = record s {
  counters = record s.counters { fs_write_bytes = fetch_add_u64 s.counters.fs_write_bytes bytes };
}
