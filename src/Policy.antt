-- ===== src/Policy.antt =====
-- crates/common/src/policy.rs: the policy of an instance, and how an operator's configuration
-- resolves to one. A CIDR text is parsed by the `ipnet` crate, the parameter `parse`; a path is the
-- list of its characters.
pub mod Resolve
pub mod Profiles
mod Tests
use wasm_cloud_platform.Common.{
  ℕ, ◌*◌, Bool, true, false, not, ◌&&◌, ◌||◌, Option, none, some, List, [], ◌∷◌, String, Text, ltb,
  ◌==◌, nat_key, Result, ok, err, ◌>>=◌, ◌>>◌, guard, unwrap_or, trim, codes,
}

pub record NetworkPolicy : Type 0 where
  pub allow_outbound_tcp : Bool
  pub allow_outbound_udp : Bool
  pub allow_dns : Bool
  pub allowed_cidrs : List String
  pub denied_cidrs : List String
  pub max_outbound_connections : ℕ
  pub max_egress_bytes : ℕ
  pub allowed_bind_ports : List ℕ
  pub allow_inbound : Bool

abbrev pub default_network : NetworkPolicy
default_network = record {
  allow_outbound_tcp = true;
  allow_outbound_udp = false;
  allow_dns = true;
  allowed_cidrs = [];
  denied_cidrs = [];
  max_outbound_connections = 100;
  max_egress_bytes = 0;
  allowed_bind_ports = [];
  allow_inbound = true;
}

pub record FilesystemPolicy : Type 0 where
  pub max_open_fds : ℕ
  pub max_fs_write_bytes : ℕ
  pub max_fs_read_bytes : ℕ
  pub allow_file_create : Bool
  pub allow_file_delete : Bool
  pub allowed_paths : List Text

abbrev pub default_filesystem : FilesystemPolicy
default_filesystem = record {
  max_open_fds = 64;
  max_fs_write_bytes = 0;
  max_fs_read_bytes = 0;
  allow_file_create = false;
  allow_file_delete = false;
  allowed_paths = [];
}

pub record InstancePolicy : Type 0 where
  pub network : NetworkPolicy
  pub filesystem : FilesystemPolicy

pub record NetworkPolicyConfig : Type 0 where
  pub allow_outbound_tcp : Option Bool
  pub allow_outbound_udp : Option Bool
  pub allow_dns : Option Bool
  pub allowed_cidrs : Option (List String)
  pub denied_cidrs : Option (List String)
  pub max_outbound_connections : Option ℕ
  pub max_egress_bytes : Option ℕ
  pub allow_inbound : Option Bool

pub record FilesystemPolicyConfig : Type 0 where
  pub max_open_fds : Option ℕ
  pub max_fs_write_bytes : Option ℕ
  pub max_fs_read_bytes : Option ℕ
  pub allow_file_create : Option Bool
  pub allow_file_delete : Option Bool
  pub allowed_paths : Option (List Text)

pub record PolicyConfig : Type 0 where
  pub network : Option NetworkPolicyConfig
  pub filesystem : Option FilesystemPolicyConfig

-- the messages of the source, a constructor for each
pub data PolicyError : Type 0 where
  invalid_cidr : String → PolicyError
  zero_max_outbound_connections : PolicyError
  zero_max_open_fds : PolicyError
  empty_allowed_path : PolicyError
  relative_allowed_path : Text → PolicyError
  writes_without_writable_path : PolicyError

-- `Path::new(p).is_absolute()` on Unix
abbrev pub is_absolute : Text → Bool
is_absolute [] = false
is_absolute (c ∷ cs) = c == b'/'

abbrev pub is_empty {ℓ} : {A : Type ℓ} → List A → Bool
is_empty [] = true
is_empty (x ∷ xs) = false

-- the loop of `validate_filesystem_policy`
unfoldable pub validate_paths : List Text → Result PolicyError (Unit {0})
unfolding trim
validate_paths [] = ok tt
validate_paths (p ∷ ps) =
    guard (not (is_empty (trim p))) empty_allowed_path
    >> guard (is_absolute (trim p)) (relative_allowed_path p)
    >> validate_paths ps

unfoldable pub validate_filesystem_policy : FilesystemPolicy → Result PolicyError (Unit {0})
validate_filesystem_policy f =
    validate_paths f.allowed_paths
    >> (let has_writable_preopen =
          not (is_empty f.allowed_paths) && (f.allow_file_create || f.allow_file_delete) in
        guard (not (ltb 0 f.max_fs_write_bytes && not has_writable_preopen))
          writes_without_writable_path)

-- the policy with the defaults put in for what the configuration leaves out
unfoldable pub network_from : ℕ → NetworkPolicyConfig → NetworkPolicy
network_from assigned_port cfg = record {
  allow_outbound_tcp = unwrap_or cfg.allow_outbound_tcp default_network.allow_outbound_tcp;
  allow_outbound_udp = unwrap_or cfg.allow_outbound_udp default_network.allow_outbound_udp;
  allow_dns = unwrap_or cfg.allow_dns default_network.allow_dns;
  allowed_cidrs = unwrap_or cfg.allowed_cidrs default_network.allowed_cidrs;
  denied_cidrs = unwrap_or cfg.denied_cidrs default_network.denied_cidrs;
  max_outbound_connections =
      unwrap_or cfg.max_outbound_connections default_network.max_outbound_connections;
  max_egress_bytes = unwrap_or cfg.max_egress_bytes default_network.max_egress_bytes;
  allowed_bind_ports = assigned_port ∷ [];
  allow_inbound = unwrap_or cfg.allow_inbound default_network.allow_inbound;
}

unfoldable pub filesystem_from : FilesystemPolicyConfig → FilesystemPolicy
filesystem_from cfg = record {
  max_open_fds = unwrap_or cfg.max_open_fds default_filesystem.max_open_fds;
  max_fs_write_bytes = unwrap_or cfg.max_fs_write_bytes default_filesystem.max_fs_write_bytes;
  max_fs_read_bytes = unwrap_or cfg.max_fs_read_bytes default_filesystem.max_fs_read_bytes;
  allow_file_create = unwrap_or cfg.allow_file_create default_filesystem.allow_file_create;
  allow_file_delete = unwrap_or cfg.allow_file_delete default_filesystem.allow_file_delete;
  allowed_paths = unwrap_or cfg.allowed_paths default_filesystem.allowed_paths;
}

-- `if let Some(limit) = .. { if limit == 0 { return Err(..) } }`
abbrev pub positive : Option ℕ → Bool
positive none = true
positive (some n) = not (n == 0)

abbrev pub parses : {IpNet : Type 0} → (String → Option IpNet) → String → Bool
parses parse s = elim (parse s) [ none ↦ false | some net ↦ true ]

module _ {IpNet : Type 0} (parse : String → Option IpNet) where
  unfoldable pub validate_cidrs : List String → Result PolicyError (Unit {0})
  validate_cidrs [] = ok tt
  validate_cidrs (s ∷ ss) = guard (parses parse s) (invalid_cidr s) >> validate_cidrs ss

  abbrev pub validate_option : Option (List String) → Result PolicyError (Unit {0})
  validate_option none = ok tt
  validate_option (some ss) = validate_cidrs ss

  unfoldable pub resolve_network : ℕ → Option NetworkPolicyConfig → Result PolicyError NetworkPolicy
  resolve_network assigned_port none =
      ok (record default_network { allowed_bind_ports = assigned_port ∷ [] })
  resolve_network assigned_port (some cfg) =
      validate_option cfg.allowed_cidrs
      >> validate_option cfg.denied_cidrs
      >> guard (positive cfg.max_outbound_connections) zero_max_outbound_connections
      >> ok (network_from assigned_port cfg)

unfoldable pub resolve_filesystem :
    Option FilesystemPolicyConfig → Result PolicyError FilesystemPolicy
resolve_filesystem none = validate_filesystem_policy default_filesystem >> ok default_filesystem
resolve_filesystem (some cfg) =
    guard (positive cfg.max_open_fds) zero_max_open_fds
    >> validate_filesystem_policy (filesystem_from cfg)
    >> ok (filesystem_from cfg)

unfoldable pub resolve :
    {IpNet : Type 0}
    → (String → Option IpNet)
    → PolicyConfig
    → ℕ
    → Result PolicyError InstancePolicy
resolve parse config assigned_port = do
  network ← resolve_network parse assigned_port config.network
  filesystem ← resolve_filesystem config.filesystem
  ok (record { network = network; filesystem = filesystem })
