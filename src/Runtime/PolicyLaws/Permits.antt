-- ===== src/Runtime/PolicyLaws/Permits.antt =====
-- Which operations the policy permits: network.rs and filesystem.rs against the policy's fields.
use wasm_cloud_platform.Common.{
  ℕ, ◌+◌, ◌<◌, ◌≡◌, refl, ◌≢◌, ◌↔◌, ◌⊎◌, Bool, true, false, Option, none, some, List, [], ◌∷◌,
  String, All, contains, nat_key, IpAddr, u32, u64, ok, arith, any,
}
use wasm_cloud_platform.Policy.{InstancePolicy, PolicyConfig, resolve}
use wasm_cloud_platform.Policy.Resolve.{resolve-IsEnforceable, Parses}
use wasm_cloud_platform.Runtime.PolicyTracker.{
  PolicyEnforcer, Tracked, parse_cidrs, with_policy, ip_in_cidrs, check_outbound_tcp_connect,
  check_tcp_bind,
}

module _ {IpNet : Type 0} (net_contains : IpNet → IpAddr → Bool) (e : PolicyEnforcer IpNet) where
  -- A destination that the policy allows: TCP is on, no denied network holds it, and some allowed
  -- network does unless none is given.
  abbrev pub IsAllowedDestination : IpAddr → Type 0
  IsAllowedDestination ip =
      (e.policy.network.allow_outbound_tcp ≡ true)
      × (ip_in_cidrs net_contains ip e.denied_cidrs_parsed ≡ false)
      × ((e.allowed_cidrs_parsed ≡ [])
          ⊎ (ip_in_cidrs net_contains ip e.allowed_cidrs_parsed ≡ true))

  -- A connection is granted exactly if its destination is allowed and a slot is free.
  pub check_outbound_tcp_connect-ok_iff :
      (ip : IpAddr) (port : ℕ) (s : Tracked)
      → ((check_outbound_tcp_connect net_contains e ip port s).1 ≡ ok tt) ↔ (
          IsAllowedDestination ip
          × (s.counters.outbound_connections_active < e.policy.network.max_outbound_connections))
  unfolding check_outbound_tcp_connect
  check_outbound_tcp_connect-ok_iff ip port s = ground arith

  -- A granted connection takes one slot of the shared count and of the store's own, and a refused
  -- one changes nothing but the count of refusals.
  pub check_outbound_tcp_connect-effect :
      (ip : IpAddr) (port : ℕ) (s : Tracked)
      → let (s', answer) = check_outbound_tcp_connect net_contains e ip port s in
        ((answer ≡ ok tt)
          × (s' ≡ record {
            counters = record s.counters {
              outbound_connections_active = u32 (s.counters.outbound_connections_active + 1);
            };
            local = u32 (s.local + 1);
          }))
        ⊎ ((answer ≢ ok tt)
            × (s' ≡ record s {
              counters = record s.counters {
                connection_denied_total = u64 (s.counters.connection_denied_total + 1);
              };
            }))
  unfolding check_outbound_tcp_connect
  check_outbound_tcp_connect-effect ip port s = ground arith

module _ {IpNet : Type 0} (e : PolicyEnforcer IpNet) where
  -- Binding to a port is granted exactly if inbound traffic is on and the port is on the list.
  pub check_tcp_bind-ok_iff :
      (port : ℕ) (s : Tracked)
      → ((check_tcp_bind e port s).1 ≡ ok tt) ↔ (
          (e.policy.network.allow_inbound ≡ true)
          × (contains e.policy.network.allowed_bind_ports port ≡ true))
  unfolding check_tcp_bind
  check_tcp_bind-ok_iff port s = ground arith

-- Whether a CIDR text of the configuration covers an address.
abbrev pub covers :
    {IpNet : Type 0} → (String → Option IpNet) → (IpNet → IpAddr → Bool) → IpAddr → String → Bool
covers parse net_contains ip s = elim (parse s) [ none ↦ false | some net ↦ net_contains net ip ]

module _ {IpNet : Type 0} (parse : String → Option IpNet)
    (net_contains : IpNet → IpAddr → Bool) where
  any-parse_cidrs :
      (ip : IpAddr) (ss : List String)
      → any (λ cidr. net_contains cidr ip) (parse_cidrs parse ss)
        ≡ any (covers parse net_contains ip) ss
  unfolding parse_cidrs
  any-parse_cidrs ip [] = refl
  any-parse_cidrs ip (s ∷ ss) = ground (arith, any-parse_cidrs ip ss)

  parse_cidrs-nil_iff :
      (ss : List String) → All (Parses parse) ss → (parse_cidrs parse ss ≡ []) ↔ (ss ≡ [])
  unfolding parse_cidrs
  parse_cidrs-nil_iff [] h = (λ e. refl, λ e. refl)
  parse_cidrs-nil_iff (s ∷ ss) h = ground arith

  -- A destination that the texts of a policy allow.
  abbrev pub IsAllowedBy : InstancePolicy → IpAddr → Type 0
  IsAllowedBy p ip =
      (p.network.allow_outbound_tcp ≡ true)
      × (any (covers parse net_contains ip) p.network.denied_cidrs ≡ false)
      × ((p.network.allowed_cidrs ≡ [])
          ⊎ (any (covers parse net_contains ip) p.network.allowed_cidrs ≡ true))

  -- Under a policy that `resolve` made, a connection is granted exactly if the CIDR texts of that
  -- policy allow its destination and a slot is free: no text is lost in parsing, so a list of
  -- allowed networks that is not empty never comes to allow every destination.
  pub resolved-connect-ok_iff :
      (c : PolicyConfig) (assigned_port : ℕ) (p : InstancePolicy) (ip : IpAddr) (port : ℕ)
      (s : Tracked)
      → resolve parse c assigned_port ≡ ok p
      → ((check_outbound_tcp_connect net_contains (with_policy parse p) ip port s).1 ≡ ok tt) ↔ (
          IsAllowedBy p ip
          × (s.counters.outbound_connections_active < p.network.max_outbound_connections))
  unfolding with_policy
  resolved-connect-ok_iff c assigned_port p ip port s r =
      let v = resolve-IsEnforceable parse c assigned_port p r in
      let granted =
        check_outbound_tcp_connect-ok_iff net_contains (with_policy parse p) ip port s in
      let denied = any-parse_cidrs ip p.network.denied_cidrs in
      let allowed = any-parse_cidrs ip p.network.allowed_cidrs in
      let none_given = parse_cidrs-nil_iff p.network.allowed_cidrs v.network.allowed in
      (
        λ h. ground (arith, granted.0 h, none_given.0),
        λ h. granted.1 (ground (arith, none_given.1)),
      )

module _ {IpNet : Type 0} (parse : String → Option IpNet) where
  -- Under a policy that `resolve` made, an app may bind to the port that it was assigned, if its
  -- inbound traffic is on, and to no other.
  pub resolved-bind-ok_iff :
      (c : PolicyConfig) (assigned_port : ℕ) (p : InstancePolicy) (port : ℕ) (s : Tracked)
      → resolve parse c assigned_port ≡ ok p
      → ((check_tcp_bind (with_policy parse p) port s).1 ≡ ok tt)
        ↔ ((p.network.allow_inbound ≡ true) × (port ≡ assigned_port))
  unfolding with_policy
  resolved-bind-ok_iff c assigned_port p port s r =
      let v = resolve-IsEnforceable parse c assigned_port p r in
      let granted = check_tcp_bind-ok_iff (with_policy parse p) port s in
      (
        λ h. ground (arith, granted.0 h, v.network.ports),
        λ h. granted.1 (ground (arith, v.network.ports)),
      )
