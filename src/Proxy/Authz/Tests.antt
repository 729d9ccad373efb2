-- ===== src/Proxy/Authz/Tests.antt =====
-- crates/proxy/src/gateway: concrete tokens and keys.
use wasm_cloud_platform.Common.{
  ◌≡◌, refl, ◌↔◌, inl, inr, All, true, false, none, some, [], ◌∷◌, text_key, codes, lookup, insert,
}
use wasm_cloud_platform.Storage.Keys.{text_lt, starts_with}
use wasm_cloud_platform.Proxy.Authz.{
  Claims, ApiKeyRecord, array, roles, strings, realm_roles, client_role, all_client_roles,
  client_roles, identity, authorize, authorize_roles, text_scopes, array_scopes, all_scopes,
  insert_sorted, sort, dedup_after, dedup, extract_scopes, authorize_scopes, add_keys,
  new_validator, validate,
}
use wasm_cloud_platform.Proxy.Authz.Roles.{authorize-realm_role}
use wasm_cloud_platform.Proxy.Authz.Scopes.{IsListed, authorize_scopes-true_iff}

-- a user of the realm role `admin`, who is a `reader` of the client `api`
abbrev user : Claims
user = record {
  scope = none;
  scp = some (array (some (codes "read") ∷ none ∷ some (codes "list") ∷ some (codes "read") ∷ []));
  realm_access_roles = some (some (codes "admin") ∷ []);
  resource_access = some ((codes "api", some (some (codes "reader") ∷ [])) ∷ []);
}

client_reader : authorize (identity user) (roles (codes "reader" ∷ []) (some (codes "api"))) ≡ true
unfolding authorize authorize_roles identity realm_roles client_roles all_client_roles client_role
    strings
client_reader = refl

no_reader : authorize (identity user) (roles (codes "reader" ∷ []) none) ≡ false
unfolding authorize authorize_roles identity realm_roles client_roles all_client_roles client_role
    strings
no_reader = refl

sorted : extract_scopes (identity user) ≡ codes "list" ∷ codes "read" ∷ []
unfolding extract_scopes all_scopes text_scopes array_scopes identity strings sort insert_sorted
    dedup dedup_after text_lt
sorted = refl

abbrev key : ApiKeyRecord
key = record { name = codes "ci"; key_hash = codes "k1"; scopes = codes "/api" ∷ [] }

in_scope : validate (λ t. t) (new_validator (key ∷ [])) (codes "k1") (codes "/api/x") ≡ true
unfolding validate new_validator add_keys lookup insert starts_with
in_scope = refl

out_of_scope : validate (λ t. t) (new_validator (key ∷ [])) (codes "k1") (codes "/adm") ≡ false
unfolding validate new_validator add_keys lookup insert starts_with
out_of_scope = refl

authorize-realm_role_example :
    authorize (identity user) (roles (codes "admin" ∷ []) (some (codes "api"))) ≡ true
unfolding realm_roles strings
authorize-realm_role_example =
    authorize-realm_role user (codes "admin" ∷ []) (some (codes "api")) (codes "admin") refl refl

authorize_scopes-true_iff_example :
    (authorize_scopes (identity user) (codes "list" ∷ codes "write" ∷ []) ≡ true)
    ↔ All (IsListed user) (codes "list" ∷ codes "write" ∷ [])
unfolding identity
authorize_scopes-true_iff_example =
    authorize_scopes-true_iff (identity user) (codes "list" ∷ codes "write" ∷ [])

lists_list : IsListed user (codes "list")
lists_list = inr (inl (inr (inr (inl refl))))
