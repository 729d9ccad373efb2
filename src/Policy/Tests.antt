-- ===== src/Policy/Tests.antt =====
-- Configurations resolved, and the theorems at concrete ones.
use wasm_cloud_platform.Common.{
  ℕ, ◌≡◌, refl, true, Option, none, some, [], ◌∷◌, String, string_key, ◌==◌, codes, ok, err,
  if◌then◌else◌, trim, trim_start,
}
use wasm_cloud_platform.Policy.{
  PolicyConfig, NetworkPolicyConfig, FilesystemPolicyConfig, InstancePolicy, invalid_cidr,
  zero_max_outbound_connections, zero_max_open_fds, relative_allowed_path,
  writes_without_writable_path, default_network, default_filesystem, validate_paths,
  validate_filesystem_policy, validate_cidrs, network_from, filesystem_from, resolve_network,
  resolve_filesystem, resolve,
}
use wasm_cloud_platform.Policy.Resolve.{IsEnforceable, resolve-IsEnforceable}

resolution : Unit {0}
unfolding resolve resolve_network resolve_filesystem validate_cidrs validate_filesystem_policy
    validate_paths network_from filesystem_from trim trim_start
resolution = tt

-- stands in for the parser of the `ipnet` crate
abbrev pub parse_but : String → String → Option ℕ
parse_but bad s = if s == bad then none else some 24

abbrev parse : String → Option ℕ
parse = parse_but "not-valid"

abbrev no_network : NetworkPolicyConfig
no_network = record {
  allow_outbound_tcp = none;
  allow_outbound_udp = none;
  allow_dns = none;
  allowed_cidrs = none;
  denied_cidrs = none;
  max_outbound_connections = none;
  max_egress_bytes = none;
  allow_inbound = none;
}

abbrev no_files : FilesystemPolicyConfig
no_files = record {
  max_open_fds = none;
  max_fs_write_bytes = none;
  max_fs_read_bytes = none;
  allow_file_create = none;
  allow_file_delete = none;
  allowed_paths = none;
}

abbrev narrow : PolicyConfig
narrow = record {
  network = some (record no_network { denied_cidrs = some ("169.254.0.0/16" ∷ []) });
  filesystem = some (record no_files {
    max_fs_write_bytes = some 1000;
    allow_file_create = some true;
    allowed_paths = some (codes " /data" ∷ []);
  });
}

abbrev narrowed : InstancePolicy
narrowed = record {
  network = record default_network {
    denied_cidrs = "169.254.0.0/16" ∷ [];
    allowed_bind_ports = 8080 ∷ [];
  };
  filesystem = record default_filesystem {
    max_fs_write_bytes = 1000;
    allow_file_create = true;
    allowed_paths = codes " /data" ∷ [];
  };
}

narrow_resolves : resolve parse narrow 8080 ≡ ok narrowed
unfolding resolution
narrow_resolves = refl

refusals :
    (resolve parse
        (record {
          network =
              some (record no_network { allowed_cidrs = some ("10.0.0.0/8" ∷ "not-valid" ∷ []) });
          filesystem = none;
        })
        8080
      ≡ err (invalid_cidr "not-valid"))
    × (resolve parse
          (record {
            network = some (record no_network { max_outbound_connections = some 0 });
            filesystem = none;
          })
          8080
        ≡ err zero_max_outbound_connections)
    × (resolve parse
          (record { network = none; filesystem = some (record no_files { max_open_fds = some 0 }) })
          8080
        ≡ err zero_max_open_fds)
    × (resolve parse
          (record {
            network = none;
            filesystem = some (record no_files { allowed_paths = some (codes "data" ∷ []) });
          })
          8080
        ≡ err (relative_allowed_path (codes "data")))
    × (resolve parse
          (record {
            network = none;
            filesystem = some (record no_files { max_fs_write_bytes = some 1 });
          })
          8080
        ≡ err writes_without_writable_path)
unfolding resolution
refusals = (refl, refl, refl, refl, refl)

resolve-IsEnforceable_example : IsEnforceable parse 8080 narrowed
resolve-IsEnforceable_example = resolve-IsEnforceable parse narrow 8080 narrowed narrow_resolves
