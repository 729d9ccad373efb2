-- ===== src/Proxy/Router/Refines.antt =====
-- A router of crates/proxy/src/router/mod.rs as an implementation of a table of routes.
use wasm_cloud_platform.Common.{
  ◌≡◌, refl, ◌∙◌, ◌≢◌, Bool, Option, none, some, List, [], ◌∷◌, String, Text, text_key, ◌==◌,
  Values, lookup, length, take, take_all, beq_refl, ◌&&◌, if◌then◌else◌, ok, err, arith,
}
use wasm_cloud_platform.Proxy.Router.{HostRouter, prefix_of, add_route, trim_www, resolve}
use wasm_cloud_platform.Proxy.Router.Order.{
  IsSorted, Change, added, removed, host_removed, loaded, changed, changed-IsSorted,
}
use wasm_cloud_platform.Proxy.Router.Table.{
  Route, find, table, first_stored, table-add_route, table-remove_route, table-remove_host,
  table-load_routes, table-failed_load,
}
use wasm_cloud_platform.Proxy.Router.Resolve.{longest, longest-ext, route_of, resolve-eq-route_of}

route_of-ext :
    (f g : Text → Text → Option Route) (host path : Text)
    → ((h p : Text) → f h p ≡ g h p)
    → route_of f host path ≡ route_of g host path
unfolding route_of
route_of-ext f g host path same = ground (
  arith,
  longest-ext (f host) (g host) (length path) path (λ k. same host (take k path)),
  longest-ext (f (trim_www host)) (g (trim_www host)) (length path) path
      (λ k. same (trim_www host) (take k path)),
)

-- the same change, of a table
pub written : (Text → Text → Option Route) → Change → Text → Text → Option Route
written routes (added host prefix app strip) h p =
    if host == h && prefix_of prefix == p then some (app, strip) else routes h p
written routes (removed host prefix) h p = if host == h && prefix == p then none else routes h p
written routes (host_removed host) h p = if host == h then none else routes h p
written routes (loaded (ok ss)) h p = first_stored ss h p
written routes (loaded (err e)) h p = routes h p

written-ext :
    (f g : Text → Text → Option Route) (change : Change)
    → ((h p : Text) → f h p ≡ g h p)
    → (h p : Text) → written f change h p ≡ written g change h p
unfolding written
written-ext f g (added host prefix app strip) same h p = ground (arith, same h p)
written-ext f g (removed host prefix) same h p = ground (arith, same h p)
written-ext f g (host_removed host) same h p = ground (arith, same h p)
written-ext f g (loaded (ok ss)) same h p = refl
written-ext f g (loaded (err e)) same h p = same h p

table-changed :
    (r : HostRouter) (change : Change) (h p : Text)
    → table (changed r change) h p ≡ written (table r) change h p
unfolding changed written
table-changed r (added host prefix app strip) h p = table-add_route r host prefix app strip h p
table-changed r (removed host prefix) h p = table-remove_route r host prefix h p
table-changed r (host_removed host) h p = table-remove_host r host h p
table-changed r (loaded (ok ss)) h p = table-load_routes String r ss h p
table-changed r (loaded (err e)) h p = table-failed_load r e h p

unfoldable pub run : HostRouter → List Change → HostRouter
run r [] = r
run r (c ∷ cs) = run (changed r c) cs

pub run_table : (Text → Text → Option Route) → List Change → Text → Text → Option Route
run_table routes [] = routes
run_table routes (c ∷ cs) = run_table (written routes c) cs

run-refines :
    (r : HostRouter) (routes : Text → Text → Option Route) (cs : List Change)
    → Values IsSorted r.routes
    → ((h p : Text) → table r h p ≡ routes h p)
    → Values IsSorted (run r cs).routes
      × ((h p : Text) → table (run r cs) h p ≡ run_table routes cs h p)
unfolding run run_table
run-refines r routes [] sorted same = (sorted, same)
run-refines r routes (c ∷ cs) sorted same =
    run-refines (changed r c) (written routes c) cs (changed-IsSorted r c sorted)
      (λ h p. table-changed r c h p ∙ written-ext (table r) routes c same h p)

-- Whatever additions, removals and loads a new router has been through, it answers every request
-- like the table, host and prefix to app, to which each of them is a write: by the longest prefix
-- of the path that stands there for the host, or else for the host without `www.`.
pub resolve-refines :
    (cs : List Change) (host path : Text)
    → resolve (run (record { routes = [] }) cs) host path
      ≡ route_of (run_table (λ h p. none) cs) host path
unfolding table lookup find
resolve-refines cs host path =
    let (sorted, same) = run-refines (record { routes = [] }) (λ h p. none) cs tt (λ h p. refl) in
    resolve-eq-route_of (run (record { routes = [] }) cs) host path sorted
    ∙ route_of-ext _ _ host path same

-- A route is found again under its own host and prefix: the request for exactly that path goes to
-- the app that was added last, whatever other routes the host has.
pub resolve-add_route :
    (r : HostRouter) (host path : Text) (app : String) (strip : Bool)
    → Values IsSorted r.routes
    → path ≢ []
    → resolve (add_route r host path app strip) host path
      ≡ some (record { app_id = app; strip_prefix = strip; matched_prefix = path })
unfolding route_of longest prefix_of changed
resolve-add_route r host [] app strip sorted full = absurd (full refl)
resolve-add_route r host (c ∷ cs) app strip sorted full =
    let path : Text = c ∷ cs in
    let added_r = add_route r host path app strip in
    let ordered : Values IsSorted added_r.routes =
      changed-IsSorted r (added host path app strip) sorted in
    ground (
      arith,
      resolve-eq-route_of added_r host path ordered,
      take_all (length path) path (omega arith),
      table-add_route r host path app strip host path,
      beq_refl host,
      beq_refl path,
    )
