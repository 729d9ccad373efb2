-- ===== src/Storage/Gc/Purge.antt =====
-- What the purge of an undeployed app takes away, and what it leaves.
use wasm_cloud_platform.Common.{
  Bool, ◌≡◌, ap, sym, ◌∙◌, subst, refl, none, List, [], ◌∷◌, ◌++◌, Text, Map, arith, lookup, remove,
  lookup-remove, contains, filter, map, ok, text_key, ◌==◌, if◌then◌else◌,
}
use wasm_cloud_platform.Storage.Tables.{Tables, Route, Json, json, malformed, update}
use wasm_cloud_platform.Storage.Tables.Triples.{
  Triple, transact-Triple, lift-Triple, >>=-Triple, for_each-Triple,
}
use wasm_cloud_platform.Storage.Routes.{delete_route, list_routes_for_app, list_routes, all_parsed}
use wasm_cloud_platform.Storage.Gc.{
  undeploy, without_app, remove_unless, PurgedTable, artifacts_table, raw_wasm_table, configs_table,
  metrics_table, meta_table, purge_tables, purge_routes, purge_marker, purge_app_state,
}

-- the hosts of the routes to an app
unfoldable pub hosts_of : Text → Map Text (Json Route) → List Text
hosts_of app_name [] = []
hosts_of app_name ((key, malformed) ∷ rest) = hosts_of app_name rest
hosts_of app_name ((key, json route) ∷ rest) =
    if route.app_id == app_name then route.host ∷ hosts_of app_name rest else hosts_of app_name rest

-- the tables that no purge touches are those of `before`
abbrev pub HasOthers : Tables → Tables → Type 0
HasOthers before t = t ≡ record before {
  artifacts = t.artifacts;
  raw_wasm = t.raw_wasm;
  configs = t.configs;
  metrics = t.metrics;
  routes = t.routes;
  schema_meta = t.schema_meta;
}

-- `t` is `before` without what is stored under the prefix of the app, its routes and its marker, less
-- the entries that were skipped.
pub record IsPurged (skips : PurgedTable → Text → Bool) (app_name : Text) (before t : Tables)
    : Type 0 where
  pub artifacts : t.artifacts ≡ without_app (skips artifacts_table) app_name before.artifacts
  pub raw_wasm : t.raw_wasm ≡ without_app (skips raw_wasm_table) app_name before.raw_wasm
  pub configs : t.configs ≡ without_app (skips configs_table) app_name before.configs
  pub metrics : t.metrics ≡ without_app (skips metrics_table) app_name before.metrics
  pub routes :
      (host : Text)
      → lookup host t.routes ≡ (
          if contains (hosts_of app_name before.routes) host
          then none
          else lookup host before.routes)
  pub schema_meta :
      let marker = undeploy ++ app_name in
      t.schema_meta ≡ remove_unless (skips meta_table marker) marker before.schema_meta
  pub others : HasOthers before t

-- while the hosts of `left` are still to be deleted
record IsPurging (skips : PurgedTable → Text → Bool) (app_name : Text) (before : Tables)
    (left : List Text) (t : Tables) : Type 0 where
  artifacts : t.artifacts ≡ without_app (skips artifacts_table) app_name before.artifacts
  raw_wasm : t.raw_wasm ≡ without_app (skips raw_wasm_table) app_name before.raw_wasm
  configs : t.configs ≡ without_app (skips configs_table) app_name before.configs
  metrics : t.metrics ≡ without_app (skips metrics_table) app_name before.metrics
  routes :
      (host : Text)
      → (if contains left host then none else lookup host t.routes) ≡ (
          if contains (hosts_of app_name before.routes) host
          then none
          else lookup host before.routes)
  schema_meta : t.schema_meta ≡ before.schema_meta
  others : HasOthers before t

hosts_of-all_parsed :
    (app_name : Text) (table : Map Text (Json Route)) (routes : List Route)
    → all_parsed table ≡ ok routes
    → map (λ route. route.host) (filter (λ route. route.app_id == app_name) routes)
      ≡ hosts_of app_name table
unfolding all_parsed hosts_of
hosts_of-all_parsed app_name [] [] h = refl
hosts_of-all_parsed app_name [] (r ∷ rs) h = cc
hosts_of-all_parsed app_name ((key, malformed) ∷ rest) routes h = cc
hosts_of-all_parsed app_name ((key, json route) ∷ rest) [] h = ground arith
hosts_of-all_parsed app_name ((key, json route) ∷ rest) (r ∷ rs) h =
    ground (arith, hosts_of-all_parsed app_name rest rs)

delete_route-IsPurging :
    (skips : PurgedTable → Text → Bool) (app_name : Text) (before : Tables) (host : Text)
    (left : List Text)
    → Triple
        (IsPurging skips app_name before (host ∷ left))
        (delete_route host)
        (λ _. IsPurging skips app_name before left)
        (λ t. t.schema_meta ≡ before.schema_meta)
unfolding delete_route
delete_route-IsPurging skips app_name before host left =
    transact-Triple _ _ _ _
      (λ t p. record {
        artifacts = p.artifacts;
        raw_wasm = p.raw_wasm;
        configs = p.configs;
        metrics = p.metrics;
        routes = λ other. ground (arith, lookup-remove host other t.routes, p.routes other);
        schema_meta = p.schema_meta;
        others = ap {A = Tables} (λ b. record b { routes = remove host t.routes }) p.others;
      })
      (λ t p. p.schema_meta)

-- once the four tables are purged
purged : (PurgedTable → Text → Bool) → Text → Tables → Tables
purged skips app_name t = record t {
  artifacts = without_app (skips artifacts_table) app_name t.artifacts;
  raw_wasm = without_app (skips raw_wasm_table) app_name t.raw_wasm;
  configs = without_app (skips configs_table) app_name t.configs;
  metrics = without_app (skips metrics_table) app_name t.metrics;
}

-- the marker is what it was before
abbrev HasMeta : Tables → Tables → Type 0
HasMeta before t = t.schema_meta ≡ before.schema_meta

update-Triple :
    (before t u : Tables) (write : Tables → Tables)
    → write t ≡ u
    → HasMeta before t
    → Triple (λ held. held ≡ t) (update write) (λ _ held. held ≡ u) (HasMeta before)
update-Triple before t u write e meta =
    transact-Triple _ _ _ _ (λ held same. ap write same ∙ e)
      (λ held same. ap (λ h. h.schema_meta) same ∙ meta)

purge_tables-purged :
    (skips : PurgedTable → Text → Bool) (app_name : Text) (before : Tables)
    → Triple
        (λ t. t ≡ before)
        (purge_tables skips app_name)
        (λ _ t. t ≡ purged skips app_name before)
        (HasMeta before)
unfolding purge_tables purged
purge_tables-purged skips app_name before =
    let a : Tables = record before {
      artifacts = without_app (skips artifacts_table) app_name before.artifacts;
    } in
    let b : Tables = record a {
      raw_wasm = without_app (skips raw_wasm_table) app_name before.raw_wasm;
    } in
    let c : Tables = record b {
      configs = without_app (skips configs_table) app_name before.configs;
    } in
    >>=-Triple (λ _ t. t ≡ c) _ _ _ _ _
      (>>=-Triple (λ _ t. t ≡ b) _ _ _ _ _
        (>>=-Triple (λ _ t. t ≡ a) _ _ _ _ _ (update-Triple before before a _ refl refl)
          λ _. update-Triple before a b _ refl refl)
        λ _. update-Triple before b c _ refl refl)
      λ _. update-Triple before c (purged skips app_name before) _ refl refl

list_routes_for_app-hosts :
    (app_name : Text) (before t : Tables)
    → t.routes ≡ before.routes
    → HasMeta before t
    → Triple
        (λ held. held ≡ t)
        (list_routes_for_app app_name)
        (λ routes held.
          (map (λ route. route.host) routes ≡ hosts_of app_name before.routes) × (held ≡ t))
        (HasMeta before)
unfolding list_routes_for_app list_routes
list_routes_for_app-hosts app_name before t same meta =
    >>=-Triple (λ routes held. (all_parsed t.routes ≡ ok routes) × (held ≡ t)) _ _ _ _ _
      (>>=-Triple (λ r held. (all_parsed t.routes ≡ r) × (held ≡ t)) _ _ _ _ _
        (transact-Triple _ _ _ _ (λ held e. (ap (λ h. all_parsed h.routes) (sym e), e)) (failed))
        λ r. lift-Triple _ _ _ r (λ routes held e p. (p.0 ∙ e, p.1)) λ held p. failed held p.1)
      λ routes s p.
        (hosts_of-all_parsed app_name before.routes routes (ap all_parsed (sym same) ∙ p.0), p.1)
  where
    failed : (held : Tables) → held ≡ t → HasMeta before held
    failed held e = ap (λ h. h.schema_meta) e ∙ meta

purged-IsPurging :
    (skips : PurgedTable → Text → Bool) (app_name : Text) (before : Tables)
    → IsPurging skips app_name before
        (hosts_of app_name before.routes)
        (purged skips app_name before)
unfolding purged
purged-IsPurging skips app_name before = record {
  artifacts = refl;
  raw_wasm = refl;
  configs = refl;
  metrics = refl;
  routes = λ host. refl;
  schema_meta = refl;
  others = refl;
}

purge_routes-IsPurging :
    (skips : PurgedTable → Text → Bool) (app_name : Text) (before : Tables)
    → Triple
        (λ t. t ≡ purged skips app_name before)
        (purge_routes app_name)
        (λ _. IsPurging skips app_name before [])
        (HasMeta before)
unfolding purge_routes purged
purge_routes-IsPurging skips app_name before =
    >>=-Triple _ _ _ _ _ _
      (list_routes_for_app-hosts app_name before (purged skips app_name before) refl refl)
      λ routes s p.
        for_each-Triple (IsPurging skips app_name before) (HasMeta before) delete_route
          (delete_route-IsPurging skips app_name before) (map (λ route. route.host) routes) s
          (subst (IsPurging skips app_name before (map (λ route. route.host) routes)) (sym p.1) (
            subst (λ hosts. IsPurging skips app_name before hosts (purged skips app_name before))
              (sym p.0) (purged-IsPurging skips app_name before)))

-- A purge that succeeds leaves all that was stored, in every table, but what is under the prefix of
-- the app, its routes and its marker. Of these just the entries are left whose removal failed
-- without the code looking at the error. A purge that fails at any transaction leaves the marker, so
-- the next run of the collector purges the app again.
pub purge_app_state-purges :
    (skips : PurgedTable → Text → Bool) (app_name : Text) (before : Tables)
    → Triple
        (λ t. t ≡ before)
        (purge_app_state skips app_name)
        (λ _. IsPurged skips app_name before)
        (λ t. t.schema_meta ≡ before.schema_meta)
unfolding purge_app_state purge_marker
purge_app_state-purges skips app_name before =
    >>=-Triple _ _ _ _ _ _
      (>>=-Triple _ _ _ _ _ _ (purge_tables-purged skips app_name before)
        λ _. purge_routes-IsPurging skips app_name before)
      λ _.
        transact-Triple _ _ _ _
          (λ t p. record {
            artifacts = p.artifacts;
            raw_wasm = p.raw_wasm;
            configs = p.configs;
            metrics = p.metrics;
            routes = p.routes;
            schema_meta = ap (remove_unless (skips meta_table marker) marker) p.schema_meta;
            others =
                ap {A = Tables}
                  (λ b. record b {
                    schema_meta = remove_unless (skips meta_table marker) marker t.schema_meta;
                  })
                  p.others;
          })
          λ t p. p.schema_meta
  where
    marker : Text
    marker = undeploy ++ app_name
