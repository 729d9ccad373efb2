-- ===== src/Policy/Profiles.antt =====
-- The ready-made profiles of crates/common/src/policy.rs.
use wasm_cloud_platform.Common.{
  ℕ, ◌*◌, ◌≡◌, Bool, true, false, Option, none, some, List, [], ◌∷◌, String, Text, All, codes, ok,
  trim, trim_start, arith,
}
use wasm_cloud_platform.Policy.{
  InstancePolicy, NetworkPolicyConfig, FilesystemPolicyConfig, PolicyConfig, resolve,
  filesystem_from,
}
use wasm_cloud_platform.Policy.Resolve.{IsAcceptable, Parses, resolve-total}

pub data PolicyProfile : Type 0 where
  http_api background_worker static_site database_proxy unrestricted : PolicyProfile

-- the CIDR texts of the database profile
abbrev pub private_ranges : List String
private_ranges = "10.0.0.0/8" ∷ "172.16.0.0/12" ∷ "192.168.0.0/16" ∷ []

abbrev network_config :
    Bool → Bool → Bool → Option (List String) → Option ℕ → Bool → NetworkPolicyConfig
network_config tcp udp dns allowed connections inbound = record {
  allow_outbound_tcp = some tcp;
  allow_outbound_udp = some udp;
  allow_dns = some dns;
  allowed_cidrs = allowed;
  denied_cidrs = none;
  max_outbound_connections = connections;
  max_egress_bytes = some 0;
  allow_inbound = some inbound;
}

abbrev filesystem_config : Option ℕ → ℕ → Bool → List Text → FilesystemPolicyConfig
filesystem_config fds reads writable paths = record {
  max_open_fds = fds;
  max_fs_write_bytes = some 0;
  max_fs_read_bytes = some reads;
  allow_file_create = some writable;
  allow_file_delete = some writable;
  allowed_paths = some paths;
}

unfoldable pub to_config : PolicyProfile → PolicyConfig
to_config http_api = record {
  network = some (network_config true false true none (some 100) true);
  filesystem = some (filesystem_config (some 64) 0 false []);
}
to_config background_worker = record {
  network = some (network_config true false true none (some 50) false);
  filesystem = some (filesystem_config (some 32) 0 false []);
}
to_config static_site = record {
  network = some (network_config false false false none (some 1) true);
  filesystem = some (filesystem_config (some 32) (100 * 1024 * 1024) false (codes "/static" ∷ []));
}
to_config database_proxy = record {
  network = some (network_config true false true (some private_ranges) (some 200) true);
  filesystem = some (filesystem_config (some 128) 0 false []);
}
to_config unrestricted = record {
  network = some (network_config true true true none none true);
  filesystem = some (filesystem_config none 0 true (codes "/" ∷ []));
}

module _ {IpNet : Type 0} (parse : String → Option IpNet) where
  to_config-IsAcceptable :
      (profile : PolicyProfile)
      → All (Parses parse) private_ranges
      → IsAcceptable parse (to_config profile)
  unfolding to_config filesystem_from trim trim_start
  to_config-IsAcceptable http_api h = ground arith
  to_config-IsAcceptable background_worker h = ground arith
  to_config-IsAcceptable static_site h = ground arith
  to_config-IsAcceptable database_proxy h = ground arith
  to_config-IsAcceptable unrestricted h = ground arith

  -- Every profile resolves, at every port, if the three private ranges parse.
  pub profile-resolves :
      (profile : PolicyProfile) (port : ℕ)
      → All (Parses parse) private_ranges
      → (p : InstancePolicy) × (resolve parse (to_config profile) port ≡ ok p)
  profile-resolves profile port h =
      resolve-total parse (to_config profile) port (to_config-IsAcceptable profile h)
