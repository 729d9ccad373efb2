-- ===== src/Proxy/Router.antt =====
-- crates/proxy/src/router/mod.rs: the host and path router. A host and a path are their bytes.
pub mod Table
pub mod Order
pub mod Resolve
pub mod Refines
mod Tests
use wasm_cloud_platform.Common.{
  ℕ, Bool, true, false, ◌&&◌, Option, none, some, List, [], ◌∷◌, ◌++◌, String, Text, text_key, ◌==◌,
  Map, lookup, insert, remove, map_values, or_insert, length, filter, not, if◌then◌else◌, leb,
  nat_key, nat_beq, Result, ok, err,
}

pub record ResolvedRoute : Type 0 where
  pub app_id : String
  pub strip_prefix : Bool
  pub matched_prefix : Text

pub record RouteEntry : Type 0 where
  pub app_id : String
  pub path_prefix : Text
  pub strip_prefix : Bool

pub record HostRouter : Type 0 where
  pub routes : Map Text (List RouteEntry)

abbrev pub slash : Text
slash = 47 ∷ []

-- the prefix under which a route is kept
unfoldable pub prefix_of : Text → Text
prefix_of [] = slash
prefix_of (c ∷ cs) = c ∷ cs

-- `path.starts_with(prefix)`
unfoldable pub starts_with : Text → Text → Bool
starts_with path [] = true
starts_with [] (c ∷ cs) = false
starts_with (p ∷ path) (c ∷ cs) = nat_beq p c && starts_with path cs

-- One step of the stable sort: an entry stands before the ones after it that are not longer.
unfoldable pub insert_sorted : RouteEntry → List RouteEntry → List RouteEntry
insert_sorted e [] = e ∷ []
insert_sorted e (x ∷ xs) =
    if leb (length x.path_prefix) (length e.path_prefix) then e ∷ x ∷ xs else x ∷ insert_sorted e xs

-- `sort_by_key(|entry| Reverse(entry.path_prefix.len()))`
unfoldable pub sort : List RouteEntry → List RouteEntry
sort [] = []
sort (e ∷ es) = insert_sorted e (sort es)

abbrev pub without : Text → List RouteEntry → List RouteEntry
without prefix = filter (λ (e : RouteEntry). not (e.path_prefix == prefix))

-- the new entries of a host that had `entries`
unfoldable pub upsert : Text → String → Bool → List RouteEntry → List RouteEntry
upsert prefix app_id strip entries = sort (
    without prefix entries
    ++ record { app_id = app_id; path_prefix = prefix; strip_prefix = strip } ∷ [])

unfoldable pub add_route : HostRouter → Text → Text → String → Bool → HostRouter
add_route r host path_prefix app_id strip = record {
  routes =
      insert host (upsert (prefix_of path_prefix) app_id strip (or_insert host [] r.routes))
        r.routes;
}

-- the entries that are left, and the map without the host when none is
unfoldable pub put_back : Text → List RouteEntry → Map Text (List RouteEntry) → HostRouter
put_back host [] routes = record { routes = remove host routes }
put_back host (e ∷ es) routes = record { routes = insert host (e ∷ es) routes }

unfoldable pub remove_route : HostRouter → Text → Text → HostRouter
remove_route r host path_prefix = elim (lookup host r.routes) [
  | none ↦ r
  | some entries ↦ put_back host (without path_prefix entries) r.routes
]

unfoldable pub remove_host : HostRouter → Text → HostRouter
remove_host r host = record { routes = remove host r.routes }

-- the inner loop of `resolve`
unfoldable pub first_match : Text → List RouteEntry → Option ResolvedRoute
first_match path [] = none
first_match path (e ∷ es) =
    if starts_with path e.path_prefix
    then some (record {
      app_id = e.app_id;
      strip_prefix = e.strip_prefix;
      matched_prefix = e.path_prefix;
    })
    else first_match path es

-- the outer loop of `resolve`
unfoldable pub try_hosts : HostRouter → Text → List Text → Option ResolvedRoute
try_hosts r path [] = none
try_hosts r path (h ∷ hs) = elim (first_match path (or_insert h [] r.routes)) [
  | some route ↦ some route
  | none ↦ try_hosts r path hs
]

-- `host.trim_start_matches("www.")`: the pattern is taken away as often as it stands there
unfoldable pub trim_www : Text → Text
trim_www (a ∷ b ∷ c ∷ d ∷ rest) =
    if a == 119 && b == 119 && c == 119 && d == 46 then trim_www rest else a ∷ b ∷ c ∷ d ∷ rest
trim_www host = host

unfoldable pub resolve : HostRouter → Text → Text → Option ResolvedRoute
resolve r host path = try_hosts r path (host ∷ trim_www host ∷ [])

-- a route of the storage layer
pub record StoredRoute : Type 0 where
  pub host : Text
  pub path_prefix : Text
  pub app_id : String
  pub strip_prefix : Bool

abbrev pub entry_of : StoredRoute → RouteEntry
entry_of s = record {
  app_id = s.app_id;
  path_prefix = prefix_of s.path_prefix;
  strip_prefix = s.strip_prefix;
}

unfoldable pub push_all : List StoredRoute → Map Text (List RouteEntry) → Map Text (List RouteEntry)
push_all [] m = m
push_all (s ∷ ss) m = push_all ss (insert s.host (or_insert s.host [] m ++ entry_of s ∷ []) m)

-- `store.list_routes()` is the argument; an error of the store is logged and changes nothing.
unfoldable pub load_routes_from_store {ℓ} :
    {E : Type ℓ} → HostRouter → Result E (List StoredRoute) → HostRouter
load_routes_from_store r (ok route_list) = record {
  routes = map_values sort (push_all route_list []);
}
load_routes_from_store r (err e) = r

-- the rows of `list_routes`, in the order of the map
list_entries : Text → List RouteEntry → List (Text × RouteEntry)
list_entries host [] = []
list_entries host (e ∷ es) = (host, e) ∷ list_entries host es

unfoldable pub list_routes : HostRouter → List (Text × RouteEntry)
unfolding list_entries
list_routes r = rows r.routes
  where
    rows : Map Text (List RouteEntry) → List (Text × RouteEntry)
    rows [] = []
    rows ((host, entries) ∷ rest) = list_entries host entries ++ rows rest
