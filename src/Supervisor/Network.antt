-- ===== src/Supervisor/Network.antt =====
-- crates/supervisor/src/network.rs and network_interceptor.rs: the instances of each namespace, and
-- the check of a connection between apps of one node. `err` stands for a panic.
pub mod Registry
pub mod Ports
pub mod Isolation
mod Tests
use wasm_cloud_platform.Common.{
  ℕ, ◌/◌, ◌^◌, Bool, true, false, not, Option, none, some, List, [], ◌∷◌, ◌++◌, String, Text,
  text_key, nat_key, Map, lookup, insert, remove, or_insert, any, filter, ◌==◌, if◌then◌else◌,
  IpAddr, v4, v6, SocketAddr, socket_addr_key, Result, ok, err, ◌>>=◌, codes,
}
use wasm_cloud_platform.AppId.{new_namespaced, namespace, bare_app_name}

pub record RegisteredEndpoint : Type 0 where
  pub addr : SocketAddr
  pub h2c : Bool

abbrev pub AppInstanceMap : Type 0
AppInstanceMap = Map Text (List RegisteredEndpoint)

pub record NamespaceRegistry : Type 0 where
  pub instances : Map Text AppInstanceMap
  pub port_to_app : Map ℕ Text

abbrev pub empty : NamespaceRegistry
empty = record { instances = []; port_to_app = [] }

unfoldable pub register_endpoint : NamespaceRegistry → Text → RegisteredEndpoint → NamespaceRegistry
register_endpoint r app_id endpoint =
    let apps = or_insert (namespace app_id) [] r.instances in
    let endpoints = or_insert (bare_app_name app_id) [] apps in
    record r {
      instances =
          insert (namespace app_id)
            (insert (bare_app_name app_id) (endpoints ++ endpoint ∷ []) apps) r.instances;
    }

unfoldable pub register : NamespaceRegistry → Text → SocketAddr → NamespaceRegistry
register r app_id addr = register_endpoint r app_id (record { addr = addr; h2c = false })

-- an entry that is left empty is removed
unfoldable pub put_back : Text → List RegisteredEndpoint → AppInstanceMap → AppInstanceMap
put_back key [] apps = remove key apps
put_back key (e ∷ es) apps = insert key (e ∷ es) apps

unfoldable pub put_apps : Text → AppInstanceMap → Map Text AppInstanceMap → Map Text AppInstanceMap
put_apps ns [] instances = remove ns instances
put_apps ns (a ∷ apps) instances = insert ns (a ∷ apps) instances

-- the apps of the namespace afterwards
unfoldable pub deregister_from : Text → SocketAddr → AppInstanceMap → AppInstanceMap
deregister_from key addr apps = elim (lookup key apps) [
  | none ↦ apps
  | some addrs ↦
      put_back key (filter (λ (endpoint : RegisteredEndpoint). not (endpoint.addr == addr)) addrs)
        apps
]

unfoldable pub deregister : NamespaceRegistry → Text → SocketAddr → NamespaceRegistry
deregister r app_id addr = elim (lookup (namespace app_id) r.instances) [
  | none ↦ r
  | some ns ↦ record r {
    instances =
        put_apps (namespace app_id) (deregister_from (bare_app_name app_id) addr ns) r.instances;
  }
]

abbrev first : List RegisteredEndpoint → Option RegisteredEndpoint
first [] = none
first (e ∷ es) = some e

unfoldable pub resolve_endpoint : NamespaceRegistry → Text → Text → Option RegisteredEndpoint
resolve_endpoint r ns bare_name = first (or_insert bare_name [] (or_insert ns [] r.instances))

-- the inner loop of `resolve_app_by_port`: the first app of a namespace that listens on the port
unfoldable pub app_on : ℕ → AppInstanceMap → Option Text
app_on port [] = none
app_on port ((name, addrs) ∷ apps) =
    if any (λ (endpoint : RegisteredEndpoint). endpoint.addr.port == port) addrs
    then some name
    else app_on port apps

-- both loops, over the entries in the order of the maps
unfoldable pub app_by_port : ℕ → Map Text AppInstanceMap → Option (Text × Text)
app_by_port port [] = none
app_by_port port ((ns, apps) ∷ rest) = elim (app_on port apps) [
  | some name ↦ some (ns, name)
  | none ↦ app_by_port port rest
]

unfoldable pub resolve_app_by_port : NamespaceRegistry → ℕ → Result String (Option Text)
resolve_app_by_port r port = elim (app_by_port port r.instances) [
  | none ↦ ok none
  | some (ns, name) ↦ new_namespaced ns name (codes "v1") >>= λ app_id. ok (some app_id)
]

unfoldable pub bind_source_port : NamespaceRegistry → ℕ → Text → NamespaceRegistry
bind_source_port r port app_id = record r { port_to_app = insert port app_id r.port_to_app }

unfoldable pub resolve_source_app : NamespaceRegistry → ℕ → Option Text
resolve_source_app r port = lookup port r.port_to_app

unfoldable pub release_source_port : NamespaceRegistry → ℕ → NamespaceRegistry
release_source_port r port = record r { port_to_app = remove port r.port_to_app }

pub data ConnectDecision : Type 0 where
  allow : SocketAddr → ConnectDecision
  -- the namespaces of the caller and of the target
  deny : Text → Text → ConnectDecision

-- `IpAddr::is_loopback`
unfoldable pub is_loopback : IpAddr → Bool
is_loopback (v4 bits) = bits / 2 ^ 24 == 127
is_loopback (v6 bits) = bits == 1

unfoldable pub check_connect : NamespaceRegistry → Text → SocketAddr → Result String ConnectDecision
check_connect r source_app dest =
    if not (is_loopback dest.ip)
    then ok (allow dest)
    else (resolve_app_by_port r dest.port >>= λ found. elim found [
      | none ↦ ok (allow dest)
      | some target_app ↦
          if not (namespace target_app == namespace source_app)
          then ok (deny (namespace source_app) (namespace target_app))
          else ok (allow dest)
    ])
