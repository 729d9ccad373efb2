-- ===== src/Proxy/Authz.antt =====
-- crates/proxy/src/gateway: the roles and scopes of a token (oidc.rs, authz.rs) and API keys
-- (api_key.rs). The claims of a token are the JSON values that these functions ask for; an element
-- of a JSON array that is no string is `none`.
pub mod Roles
pub mod Scopes
mod Tests
use wasm_cloud_platform.Common.{
  ℕ, Bool, true, false, Option, none, some, List, [], ◌∷◌, ◌++◌, ◌||◌, ◌&&◌, Text, text_key, Map,
  lookup, insert, any, all, map, ◌==◌, if◌then◌else◌, is_whitespace, unwrap_or,
}
use wasm_cloud_platform.Storage.Keys.{text_lt, starts_with}

-- `AuthPolicy`
pub data AuthPolicy : Type 0 where
  no_auth authenticated : AuthPolicy
  roles : List Text → Option Text → AuthPolicy

-- a claim that is a string, an array or something else
pub data Claim : Type 0 where
  text : Text → Claim
  array : List (Option Text) → Claim
  other : Claim

-- `realm_access.roles` and, for each client, `resource_access.<client>.roles`, where they are arrays
pub record Claims : Type 0 where
  pub scope : Option Claim
  pub scp : Option Claim
  pub realm_access_roles : Option (List (Option Text))
  pub resource_access : Option (List (Text × Option (List (Option Text))))

pub record UserIdentity : Type 0 where
  pub roles : List Text
  pub raw_claims : Claims

abbrev pub is_empty : List Text → Bool
is_empty [] = true
is_empty (_ ∷ _) = false

-- `filter_map(|v| v.as_str().map(String::from))`
unfoldable pub strings : List (Option Text) → List Text
strings [] = []
strings (none ∷ rest) = strings rest
strings (some s ∷ rest) = s ∷ strings rest

unfoldable pub realm_roles : Claims → List Text
realm_roles c = strings (unwrap_or c.realm_access_roles [])

-- `format!("{}:{}", client_id, role)`
unfoldable pub client_role : Text → Text → Text
client_role client_id role = client_id ++ (58 ∷ role)

unfoldable pub all_client_roles : List (Text × Option (List (Option Text))) → List Text
all_client_roles [] = []
all_client_roles ((client_id, found) ∷ rest) =
    map (client_role client_id) (strings (unwrap_or found [])) ++ all_client_roles rest

unfoldable pub client_roles : Claims → List Text
client_roles c = all_client_roles (unwrap_or c.resource_access [])

-- the identity of a token that is valid
unfoldable pub identity : Claims → UserIdentity
identity c = record { roles = realm_roles c ++ client_roles c; raw_claims = c }

unfoldable pub authorize_roles : UserIdentity → List Text → Option Text → Bool
authorize_roles i allowed_roles client_id =
    any
      (λ required. any (λ r. r == required) i.roles || elim client_id [
        | none ↦ false
        | some cid ↦ any (λ r. r == client_role cid required) i.roles
      ])
      allowed_roles

unfoldable pub authorize : UserIdentity → AuthPolicy → Bool
authorize i no_auth = true
authorize i authenticated = true
authorize i (roles allowed_roles client_id) = authorize_roles i allowed_roles client_id

-- `split_whitespace`: a word begins where the last one has ended
unfoldable pub split_words : Text → List Text × Text
split_words [] = ([], [])
split_words (c ∷ cs) =
    let rest = split_words cs in
    if is_whitespace c
    then (if rest.1 == [] then rest.0 else rest.1 ∷ rest.0, [])
    else (rest.0, c ∷ rest.1)

unfoldable pub split_whitespace : Text → List Text
split_whitespace s = let rest = split_words s in if rest.1 == [] then rest.0 else rest.1 ∷ rest.0

unfoldable pub text_scopes : Option Claim → List Text
text_scopes none = []
text_scopes (some (text s)) = split_whitespace s
text_scopes (some (array _)) = []
text_scopes (some other) = []

unfoldable pub array_scopes : Option Claim → List Text
array_scopes none = []
array_scopes (some (text _)) = []
array_scopes (some (array xs)) = strings xs
array_scopes (some other) = []

-- the scopes as they are pushed
unfoldable pub all_scopes : UserIdentity → List Text
all_scopes i =
    text_scopes i.raw_claims.scope
    ++ (array_scopes i.raw_claims.scp ++ text_scopes i.raw_claims.scp)

-- `scopes.sort()`
unfoldable pub insert_sorted : Text → List Text → List Text
insert_sorted t [] = t ∷ []
insert_sorted t (u ∷ us) =
    let rest = insert_sorted t us in if text_lt u t then u ∷ rest else t ∷ u ∷ us

unfoldable pub sort : List Text → List Text
sort [] = []
sort (t ∷ ts) = insert_sorted t (sort ts)

-- `scopes.dedup()` of what comes after an element
unfoldable pub dedup_after : Text → List Text → List Text
dedup_after t [] = []
dedup_after t (u ∷ us) = let rest = dedup_after u us in if t == u then rest else u ∷ rest

unfoldable pub dedup : List Text → List Text
dedup [] = []
dedup (t ∷ ts) = t ∷ dedup_after t ts

unfoldable pub extract_scopes : UserIdentity → List Text
extract_scopes i = dedup (sort (all_scopes i))

unfoldable pub authorize_scopes : UserIdentity → List Text → Bool
authorize_scopes i [] = true
authorize_scopes i (r ∷ rs) =
    let scopes = extract_scopes i in
    all (λ required. any (λ scope. scope == required) scopes) (r ∷ rs)

pub record ApiKeyRecord : Type 0 where
  pub name : Text
  pub key_hash : Text
  pub scopes : List Text

-- `ApiKeyValidator::new`: the records by their hash, the last one of a hash
unfoldable pub add_keys : List ApiKeyRecord → Map Text ApiKeyRecord → Map Text ApiKeyRecord
add_keys [] keys = keys
add_keys (r ∷ rest) keys = add_keys rest (insert r.key_hash r keys)

unfoldable pub new_validator : List ApiKeyRecord → Map Text ApiKeyRecord
new_validator records = add_keys records []

-- `validate`; `hash` is `sha256$` and the hex digest of a text
unfoldable pub validate : (Text → Text) → Map Text ApiKeyRecord → Text → Text → Bool
validate hash keys header_value path = elim (lookup (hash header_value) keys) [
  | none ↦ false
  | some r ↦ is_empty r.scopes || any (λ s. starts_with path s) r.scopes
]
