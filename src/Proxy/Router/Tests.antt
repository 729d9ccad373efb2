-- ===== src/Proxy/Router/Tests.antt =====
-- Runs of the router, and its theorems at concrete routers.
use wasm_cloud_platform.Common.{
  text_key, ◌≡◌, refl, true, false, none, some, Option, List, [], ◌∷◌, Text, codes, lookup, insert,
  remove, Values, map_values, arith,
}
use wasm_cloud_platform.Proxy.Router.{
  ResolvedRoute, HostRouter, prefix_of, starts_with, insert_sorted, sort, upsert, add_route,
  put_back, remove_route, remove_host, first_match, try_hosts, trim_www, resolve,
  load_routes_from_store, push_all, list_routes,
}
use wasm_cloud_platform.Proxy.Router.Order.{Change, added, changed, IsSorted}
use wasm_cloud_platform.Proxy.Router.Resolve.{route_of}
use wasm_cloud_platform.Proxy.Router.Refines.{run, run_table, resolve-refines, resolve-add_route}

program : Unit {0}
unfolding prefix_of starts_with insert_sorted sort upsert add_route put_back remove_route
    remove_host first_match try_hosts trim_www resolve load_routes_from_store push_all list_routes
    changed lookup insert remove map_values
program = tt

abbrev host : Text
host = codes "api.myapp.com"

abbrev v1 : Text
v1 = codes "/v1"

-- the routes of the example in the code, the shortest prefix first
abbrev setup : List Change
setup =
    added host [] "app-default" false
    ∷ added host v1 "app-v1" true
    ∷ added host (codes "/v2") "app-v2" false
    ∷ []

abbrev router : HostRouter
router = record {
  routes =
      (
        host,
        record { app_id = "app-v1"; path_prefix = v1; strip_prefix = true }
            ∷ record { app_id = "app-v2"; path_prefix = codes "/v2"; strip_prefix = false }
            ∷ record { app_id = "app-default"; path_prefix = codes "/"; strip_prefix = false }
            ∷ [],
      )
      ∷ [];
}

answer : Text → Option ResolvedRoute
answer path = resolve (run (record { routes = [] }) setup) host path

longest_prefix_wins :
    (answer (codes "/v1/users")
      ≡ some (record { app_id = "app-v1"; strip_prefix = true; matched_prefix = v1 }))
    × (answer (codes "/other")
        ≡ some
            (record { app_id = "app-default"; strip_prefix = false; matched_prefix = codes "/" }))
unfolding program answer run
longest_prefix_wins = (refl, refl)

router-IsSorted : Values IsSorted router.routes
unfolding IsSorted
router-IsSorted = ground arith

resolve-refines_example :
    resolve (run (record { routes = [] }) setup) host (codes "/v1/users")
    ≡ route_of (run_table (λ h p. none) setup) host (codes "/v1/users")
resolve-refines_example = resolve-refines setup host (codes "/v1/users")

resolve-add_route_example :
    resolve (add_route router host (codes "/v1/x") "x" false) host (codes "/v1/x")
    ≡ some (record { app_id = "x"; strip_prefix = false; matched_prefix = codes "/v1/x" })
resolve-add_route_example =
    resolve-add_route router host (codes "/v1/x") "x" false router-IsSorted (λ e. cc)
