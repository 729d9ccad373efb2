-- ===== src/Storage/Routes/Newer.antt =====
-- A route is only replaced by a newer one.
use wasm_cloud_platform.Common.{
  ◌≡◌, ap, sym, subst, ◌∙◌, refl, Bool, true, false, some, Text, lookup, ok, leb, ltb, text_key,
  ◌==◌, if◌then◌else◌, arith, inl, inr, Bool-cases, beq_refl, ok-injective,
}
use wasm_cloud_platform.Storage.Keys.{put}
use wasm_cloud_platform.Storage.Keys.Laws.{lookup-put}
use wasm_cloud_platform.Storage.Tables.{json, Route, Tables, pure, ◌>>◌}
use wasm_cloud_platform.Storage.Tables.Triples.{
  Ends, Triple, transact-Triple, lift-Triple, >>=-Triple,
}
use wasm_cloud_platform.Storage.Apps.{parsed}
use wasm_cloud_platform.Storage.Routes.{save_route, load_route, is_outdated, save_route_if_newer}

-- Of the two routes the one with the later time is stored, the one that was held if the times are the
-- same, and nothing else has changed.
pub record IsNewest (before : Tables) (route existing : Route) (t : Tables) : Type 0 where
  pub kept :
      lookup route.host t.routes
      ≡ some (json (if ltb existing.updated_at route.updated_at then route else existing))
  pub other_hosts :
      (host : Text)
      → (route.host == host) ≡ false
      → lookup host t.routes ≡ lookup host before.routes
  pub other_tables : t ≡ record before { routes = t.routes }

load_route-parsed :
    (before : Tables) (host : Text)
    → Triple
        (λ t. t ≡ before)
        (load_route host)
        (λ found t. (parsed (lookup host before.routes) ≡ ok found) × (t ≡ before))
        (λ t. t ≡ before)
unfolding load_route
load_route-parsed before host =
    >>=-Triple (λ v t. (v ≡ lookup host before.routes) × (t ≡ before)) _ _ _ _ _
      (transact-Triple _ _ _ _ (λ t e. (ap (λ held. lookup host held.routes) e, e)) (λ t e. e))
      λ v. lift-Triple _ _ _ (parsed v) (λ found t e p. (ap parsed (sym p.0) ∙ e, p.1)) (λ t p. p.1)

-- what a call that goes through answers and leaves
abbrev pub Newest : Tables → Route → Route → Bool → Tables → Type 0
Newest before route existing saved t =
    (saved ≡ ltb existing.updated_at route.updated_at) × IsNewest before route existing t

decide-IsNewest :
    (before : Tables) (route existing : Route)
    → lookup route.host before.routes ≡ some (json existing)
    → Triple
        (λ t. t ≡ before)
        (if is_outdated (some existing) route then pure false else (save_route route >> pure true))
        (Newest before route existing)
        (λ t. t ≡ before)
unfolding save_route
decide-IsNewest before route existing held =
    elim (Bool-cases (leb route.updated_at existing.updated_at)) [
      | inl e ↦
          let older : ltb existing.updated_at route.updated_at ≡ false = ground arith in
          rw e (λ s same. (
            sym older,
            record {
              kept = ap (λ t. lookup route.host t.routes) same ∙ held ∙ rw older refl;
              other_hosts = λ host other. ap (λ t. lookup host t.routes) same;
              other_tables = same ∙ ap (λ t. record before { routes = t.routes }) (sym same);
            },
          ))
      | inr e ↦
          let newer : ltb existing.updated_at route.updated_at ≡ true = ground arith in
          rw e (
            >>=-Triple (λ _. IsNewest before route existing) _ _ _ _ _
              (transact-Triple _ _ _ _
                (λ t same. record {
                  kept =
                      lookup-put route.host route.host (json route) t.routes
                      ∙ rw (beq_refl route.host, newer) refl;
                  other_hosts = λ host other.
                      lookup-put route.host host (json route) t.routes
                      ∙ rw other (ap (λ t. lookup host t.routes) same);
                  other_tables =
                      ap {A = Tables}
                        (λ b. record b { routes = put route.host (json route) t.routes }) same;
                })
                (λ t same. same))
              λ _ s p. (sym newer, p))
    ]

-- If a route of the host is stored, then `save_route_if_newer` leaves the one with the later time
-- stored, the one that was held if the times are the same, and answers whether it is the new one. It
-- changes no other host's route and no other table; a call that fails changes nothing.
pub save_route_if_newer-IsNewest :
    (before : Tables) (route existing : Route)
    → lookup route.host before.routes ≡ some (json existing)
    → Triple
        (λ t. t ≡ before)
        (save_route_if_newer route)
        (Newest before route existing)
        (λ t. t ≡ before)
unfolding save_route_if_newer
save_route_if_newer-IsNewest before route existing held =
    >>=-Triple _ _ _ _ _ _ (load_route-parsed before route.host) λ found s p.
      subst
        (λ held.
          Ends (Newest before route existing) (λ t. t ≡ before)
            ((if is_outdated held route then pure false else (save_route route >> pure true)) s))
        (ok-injective _ _ (ap parsed (sym held) ∙ p.0))
        (decide-IsNewest before route existing held s p.1)
