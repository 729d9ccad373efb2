-- ===== src/Runtime/PolicyLaws/Tests.antt =====
-- Runs of the policy tracker, and its theorems at a concrete policy.
use wasm_cloud_platform.Common.{ℕ, ◌<◌, ◌≡◌, refl, ◌↔◌, List, [], ◌∷◌, nat_key, ok, err, arith}
use wasm_cloud_platform.Runtime.PolicyTracker.{
  with_policy, check_outbound_tcp_connect, record_fd_close, check_and_record_egress,
  connection_limit_exceeded, destination_denied, not_in_allowed_cidrs, egress_limit_exceeded,
  new_counters,
}
use wasm_cloud_platform.Runtime.PolicyLaws.Permits.{IsAllowedBy, resolved-connect-ok_iff}
use wasm_cloud_platform.Runtime.PolicyLaws.Quotas
use wasm_cloud_platform.Runtime.PolicyLaws.Quotas.{
  Call, IsWithin, run-IsWithin, sends, sends-total, check_and_record_egress-wraps,
  check_egress-record_egress_races,
}
use wasm_cloud_platform.Runtime.PolicyLaws.Sharing
use wasm_cloud_platform.Runtime.PolicyLaws.Sharing.{
  World, IsBalanced, run-IsBalanced, drop_store-releases, drop_all-releases, drops, drop_store,
}
use wasm_cloud_platform.Runtime.PolicyLaws.Interleaving.{
  idle, Machine, Reach, IsConsistent, Reach-IsConsistent, Reach-connect,
}
use wasm_cloud_platform.Runtime.Samples.{
  parse, net_contains, inside, outside, config, policy, config_resolves, enforcer, busy,
}

refused_outside :
    (check_outbound_tcp_connect net_contains enforcer outside 443 busy).1
    ≡ err (destination_denied outside not_in_allowed_cidrs)
unfolding check_outbound_tcp_connect
refused_outside = refl

refused_third :
    (check_outbound_tcp_connect net_contains enforcer inside 443
      (check_outbound_tcp_connect net_contains enforcer inside 443 busy).0).1
    ≡ err (connection_limit_exceeded 2 2)
unfolding check_outbound_tcp_connect
refused_third = refl

egress_boundary :
    ((check_and_record_egress enforcer 10 busy).1 ≡ ok tt)
    × ((check_and_record_egress enforcer 11 busy).1 ≡ err (egress_limit_exceeded 990 11 1000))
unfolding check_and_record_egress
egress_boundary = (refl, refl)

close_below_zero : (record_fd_close (record busy { counters = new_counters })).counters.open_fds ≡ 0
unfolding record_fd_close
close_below_zero = refl

resolved-connect-ok_iff_example :
    ((check_outbound_tcp_connect net_contains (with_policy parse policy) inside 443 busy).1 ≡ ok tt)
    ↔ (IsAllowedBy parse net_contains policy inside × (1 < 2))
resolved-connect-ok_iff_example =
    resolved-connect-ok_iff parse net_contains config 8080 policy inside 443 busy config_resolves

busy-IsWithin : IsWithin ℕ enforcer busy
busy-IsWithin = ground arith

abbrev history : List Call
history =
    Quotas.connect inside 443
    ∷ Quotas.connect inside 443
    ∷ Quotas.egress 10
    ∷ Quotas.egress 1
    ∷ Quotas.fd_open
    ∷ Quotas.fd_close
    ∷ Quotas.disconnect
    ∷ Quotas.drop_store
    ∷ []

run-IsWithin_example : IsWithin ℕ enforcer (Quotas.run net_contains enforcer busy history)
run-IsWithin_example = run-IsWithin net_contains enforcer busy history busy-IsWithin

-- two stores, of which the first holds one of the two slots
abbrev shared : World
shared = record { counters = busy.counters; locals = 1 ∷ 0 ∷ [] }

shared-IsBalanced : IsBalanced net_contains enforcer shared
shared-IsBalanced = ground arith

run-IsBalanced_example : IsBalanced net_contains enforcer (
    Sharing.run net_contains enforcer shared
      ((1, Sharing.connect inside 443) ∷ (1, Sharing.disconnect) ∷ (0, drop_store) ∷ []))
run-IsBalanced_example =
    run-IsBalanced net_contains enforcer shared
      ((1, Sharing.connect inside 443) ∷ (1, Sharing.disconnect) ∷ (0, drop_store) ∷ [])
      (omega arith) shared-IsBalanced

drop_all-releases_example :
    (Sharing.run net_contains enforcer shared (drops 0 2)).counters.outbound_connections_active ≡ 0
drop_all-releases_example =
    drop_all-releases net_contains enforcer shared (omega arith) shared-IsBalanced

abbrev two_threads : Machine
two_threads = record {
  active = 0;
  threads = record { pc = idle; local = 0 } ∷ record { pc = idle; local = 0 } ∷ [];
}

abbrev one_connected : Machine
one_connected = record {
  active = 1;
  threads = record { pc = idle; local = 0 } ∷ record { pc = idle; local = 1 } ∷ [];
}

one_reached : Reach 2 two_threads one_connected
one_reached = Reach-connect 2 (record { pc = idle; local = 0 } ∷ []) [] 0 0 (omega arith)

Reach-IsConsistent_example : IsConsistent 2 one_connected
Reach-IsConsistent_example =
    Reach-IsConsistent {m = two_threads} (omega arith) (ground arith) one_reached
