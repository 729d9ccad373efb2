-- ===== src/Proxy/Authz/Roles.antt =====
-- crates/proxy/src/gateway/authz.rs: which roles a policy accepts.
use wasm_cloud_platform.Common.{
  ◌≡◌, ◌∙◌, refl, Bool, true, false, Option, none, some, List, [], ◌∷◌, ◌++◌, ◌||◌, Text, text_key,
  any, ◌==◌, arith, ap, Bool-cases, inl, inr,
}
use wasm_cloud_platform.Proxy.Authz.{
  Claims, roles, realm_roles, client_roles, identity, authorize, authorize_roles, client_role,
}

holds : Text → List Text → Bool
holds role held = any (λ r. r == role) held

any-append : (p : Text → Bool) (xs ys : List Text) → any p xs ≡ true → any p (xs ++ ys) ≡ true
any-append p [] ys h = cc
any-append p (x ∷ xs) ys h = ground (arith, any-append p xs ys)

any-found :
    (p : Text → Bool) (role : Text) (allowed : List Text)
    → any (λ a. a == role) allowed ≡ true
    → p role ≡ true
    → any p allowed ≡ true
any-found p role [] found h = cc
any-found p role (a ∷ allowed) found h = elim (Bool-cases (a == role)) [
  | inl same ↦ let at_a = ap p ((text_key.same_iff a role).0 same) ∙ h in ground (arith, at_a)
  | inr other ↦ ground (arith, other, any-found p role allowed, h)
]

-- A policy that accepts a role lets everyone pass who has the realm role of that name, also where
-- the policy names a client whose roles are to be checked.
pub authorize-realm_role :
    (claims : Claims) (allowed : List Text) (client_id : Option Text) (role : Text)
    → any (λ r. r == role) (realm_roles claims) ≡ true
    → any (λ a. a == role) allowed ≡ true
    → authorize (identity claims) (roles allowed client_id) ≡ true
unfolding authorize authorize_roles identity
authorize-realm_role claims allowed client_id role held accepted =
    any-found
      (λ required.
        any (λ r. r == required) (realm_roles claims ++ client_roles claims) || elim client_id [
          | none ↦ false
          | some cid ↦
              any (λ r. r == client_role cid required) (realm_roles claims ++ client_roles claims)
        ])
      role allowed accepted
      (rw (any-append (λ r. r == role) (realm_roles claims) (client_roles claims) held) refl)
