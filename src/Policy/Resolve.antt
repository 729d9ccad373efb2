-- ===== src/Policy/Resolve.antt =====
-- What `resolve` of crates/common/src/policy.rs accepts, and what it guarantees.
use wasm_cloud_platform.Common.{
  ℕ, ◌<◌, ◌≡◌, refl, subst, ok-injective, ◌≢◌, ◌↔◌, ◌⊎◌, Bool, true, false, Option, none, some,
  List, [], ◌∷◌, String, Text, All, ok, guard, unwrap_or, trim, arith, >>=-eq-ok,
}
use wasm_cloud_platform.Policy.{
  NetworkPolicy, FilesystemPolicy, InstancePolicy, NetworkPolicyConfig, FilesystemPolicyConfig,
  PolicyConfig, is_absolute, validate_paths, validate_filesystem_policy, parses, validate_cidrs,
  validate_option, resolve_network, resolve_filesystem, resolve, network_from, filesystem_from,
  default_network, default_filesystem,
}

-- A path that may be opened for an app: not blank, and absolute.
abbrev pub IsHostPath : Text → Type 0
IsHostPath p = (trim p ≢ []) × (is_absolute (trim p) ≡ true)

-- A policy that may be enforced: what the doc comment of `resolve` promises.
pub record IsFilesystem (f : FilesystemPolicy) : Type 0 where
  pub paths : All IsHostPath f.allowed_paths
  pub writable :
      0 < f.max_fs_write_bytes
      → (f.allowed_paths ≢ []) × ((f.allow_file_create ≡ true) ⊎ (f.allow_file_delete ≡ true))

guard-eq-ok {μ} : {E : Type μ} (b : Bool) (e : E) → guard b e ≡ ok tt → b ≡ true
guard-eq-ok true e h = refl
guard-eq-ok false e h = cc

validate_paths_iff : (ps : List Text) → (validate_paths ps ≡ ok tt) ↔ All IsHostPath ps
unfolding validate_paths
validate_paths_iff [] = (λ h. tt, λ h. refl)
validate_paths_iff (p ∷ ps) =
    let ih = validate_paths_iff ps in (λ h. ground (arith, ih.0), λ h. ground (arith, ih.1))

validate_filesystem_policy_iff :
    (f : FilesystemPolicy) → (validate_filesystem_policy f ≡ ok tt) ↔ IsFilesystem f
unfolding validate_filesystem_policy
validate_filesystem_policy_iff f =
    let ih = validate_paths_iff f.allowed_paths in
    (λ h. ground (arith, ih.0), λ h. ground (arith, ih.1))

module _ {IpNet : Type 0} (parse : String → Option IpNet) where
  abbrev pub Parses : String → Type 0
  Parses s = parses parse s ≡ true

  validate_cidrs_iff : (ss : List String) → (validate_cidrs parse ss ≡ ok tt) ↔ All Parses ss
  unfolding validate_cidrs
  validate_cidrs_iff [] = (λ h. tt, λ h. refl)
  validate_cidrs_iff (s ∷ ss) =
      let ih = validate_cidrs_iff ss in (λ h. ground (arith, ih.0), λ h. ground (arith, ih.1))

  pub record IsNetwork (port : ℕ) (n : NetworkPolicy) : Type 0 where
    pub allowed : All Parses n.allowed_cidrs
    pub denied : All Parses n.denied_cidrs
    pub connections : 0 < n.max_outbound_connections
    pub ports : n.allowed_bind_ports ≡ port ∷ []

  -- the network part of a configuration that is accepted
  abbrev pub IsNetworkConfig : Option NetworkPolicyConfig → Type 0
  IsNetworkConfig none = Unit
  IsNetworkConfig (some cfg) =
      All Parses (unwrap_or cfg.allowed_cidrs [])
      × All Parses (unwrap_or cfg.denied_cidrs [])
      × (cfg.max_outbound_connections ≢ some 0)

  validate_option_iff :
      (o : Option (List String)) → (validate_option parse o ≡ ok tt) ↔ All Parses (unwrap_or o [])
  validate_option_iff none = (λ h. tt, λ h. refl)
  validate_option_iff (some ss) = validate_cidrs_iff ss

  resolve_network-IsNetwork :
      (port : ℕ) (c : Option NetworkPolicyConfig) (n : NetworkPolicy)
      → resolve_network parse port c ≡ ok n
      → IsNetwork port n × IsNetworkConfig c
  unfolding resolve_network network_from
  resolve_network-IsNetwork port none n h = ground arith
  resolve_network-IsNetwork port (some cfg) n h =
      let a = validate_option_iff cfg.allowed_cidrs in
      let d = validate_option_iff cfg.denied_cidrs in ground (arith, a.0, d.0)

  resolve_network-total :
      (port : ℕ) (c : Option NetworkPolicyConfig)
      → IsNetworkConfig c
      → (n : NetworkPolicy) × (resolve_network parse port c ≡ ok n)
  unfolding resolve_network
  resolve_network-total port none h =
      (record default_network { allowed_bind_ports = port ∷ [] }, refl)
  resolve_network-total port (some cfg) (ha, hd, hm) =
      let a = (validate_option_iff cfg.allowed_cidrs).1 ha in
      let d = (validate_option_iff cfg.denied_cidrs).1 hd in
      (network_from port cfg, ground (arith, a, d))

resolve_filesystem-IsFilesystem :
    (c : Option FilesystemPolicyConfig) (f : FilesystemPolicy)
    → resolve_filesystem c ≡ ok f
    → IsFilesystem f × (0 < f.max_open_fds)
unfolding resolve_filesystem filesystem_from
resolve_filesystem-IsFilesystem none f h =
    let v = validate_filesystem_policy_iff default_filesystem in ground (arith, v.0)
resolve_filesystem-IsFilesystem (some cfg) f h =
    let v = validate_filesystem_policy_iff (filesystem_from cfg) in
    let e : (filesystem_from cfg).max_open_fds ≡ unwrap_or cfg.max_open_fds 64 = refl in
    ground (arith, v.0, e)

-- the filesystem part of a configuration that is accepted
abbrev pub IsFilesystemConfig : Option FilesystemPolicyConfig → Type 0
IsFilesystemConfig none = Unit
IsFilesystemConfig (some cfg) = (cfg.max_open_fds ≢ some 0) × IsFilesystem (filesystem_from cfg)

resolve_filesystem-total :
    (c : Option FilesystemPolicyConfig)
    → IsFilesystemConfig c
    → (f : FilesystemPolicy) × (resolve_filesystem c ≡ ok f)
unfolding resolve_filesystem
resolve_filesystem-total none h =
    let v = (validate_filesystem_policy_iff default_filesystem).1 (ground arith) in
    (default_filesystem, ground (arith, v))
resolve_filesystem-total (some cfg) h =
    let v = (validate_filesystem_policy_iff (filesystem_from cfg)).1 h.1 in
    (filesystem_from cfg, ground (arith, v))

module _ {IpNet : Type 0} (parse : String → Option IpNet) where
  -- A policy that `resolve` hands out: every CIDR text parses, the limits on connections and open
  -- files are positive, the one port to bind is the assigned one, the host paths are absolute, and
  -- a quota of written bytes comes with a path to write to.
  pub record IsEnforceable (port : ℕ) (p : InstancePolicy) : Type 0 where
    pub network : IsNetwork parse port p.network
    pub filesystem : IsFilesystem p.filesystem
    pub files : 0 < p.filesystem.max_open_fds

  -- What an operator's configuration must be for `resolve` to accept it.
  abbrev pub IsAcceptable : PolicyConfig → Type 0
  IsAcceptable c = IsNetworkConfig parse c.network × IsFilesystemConfig c.filesystem

  -- Whatever `resolve` accepts is an enforceable policy.
  pub resolve-IsEnforceable :
      (c : PolicyConfig) (port : ℕ) (p : InstancePolicy)
      → resolve parse c port ≡ ok p
      → IsEnforceable port p
  unfolding resolve
  resolve-IsEnforceable c port p h =
      let (n, hn, h') = >>=-eq-ok _ _ h in
      let (f, hf, h'') = >>=-eq-ok _ _ h' in
      let (net, _) = resolve_network-IsNetwork parse port c.network n hn in
      let (fs, files) = resolve_filesystem-IsFilesystem c.filesystem f hf in
      subst (IsEnforceable port) (ok-injective _ _ h'')
        (record { network = net; filesystem = fs; files = files })

  -- `resolve` accepts every acceptable configuration: no other reason to refuse one exists.
  pub resolve-total :
      (c : PolicyConfig) (port : ℕ)
      → IsAcceptable c
      → (p : InstancePolicy) × (resolve parse c port ≡ ok p)
  unfolding resolve
  resolve-total c port h =
      let (n, hn) = resolve_network-total parse port c.network h.0 in
      let (f, hf) = resolve_filesystem-total c.filesystem h.1 in
      (record { network = n; filesystem = f }, rw (hn, hf))
