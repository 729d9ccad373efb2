-- ===== src/AppId/Tests.antt =====
-- The parts of concrete ids.
use wasm_cloud_platform.Common.{◌≡◌, refl, codes, err}
use wasm_cloud_platform.AppId.{new_validate, before, behind, namespace, bare_name, bare_app_name}

program : Unit {0}
unfolding new_validate before behind namespace bare_name bare_app_name
program = tt

qualified :
    (namespace (codes "prod/api-users:v2") ≡ codes "prod")
    × (bare_name (codes "prod/api-users:v2") ≡ codes "api-users:v2")
    × (bare_app_name (codes "prod/api-users:v2") ≡ codes "api-users")
    × (namespace (codes "api-users:v2") ≡ codes "default")
unfolding program
qualified = (refl, refl, refl, refl)

no_star :
    new_validate (codes "a*:v1") ≡ err "AppId cannot contain > or * (invalid in NATS subjects)"
unfolding program
no_star = refl
