-- ===== src/Supervisor/Network/Registry.antt =====
-- What holds of the registry of crates/supervisor/src/network.rs at all times.
use wasm_cloud_platform.Common.{
  ℕ, ◌≡◌, refl, ◌≢◌, false, inl, inr, Option-cases, List, [], ◌∷◌, Text, text_key, nat_key, Map,
  lookup, or_insert, insert-All, remove-All, lookup-All, All, contains, SocketAddr, socket_addr_key,
  ok, arith,
}
use wasm_cloud_platform.AppId.{slash, new_validate, namespace, bare_app_name}
use wasm_cloud_platform.AppId.Parts.{namespace_free, namespace-contains, bare_app_name-contains}
use wasm_cloud_platform.Supervisor.Network.{
  RegisteredEndpoint, AppInstanceMap, NamespaceRegistry, register_endpoint, put_back, put_apps,
  deregister_from, deregister, bind_source_port, release_source_port,
}

-- no character that an app's id may not hold
pub record IsPlain (text : Text) : Type 0 where
  pub no_space : contains text 32 ≡ false
  pub no_newline : contains text 10 ≡ false
  pub no_tab : contains text 9 ≡ false
  pub no_greater : contains text 62 ≡ false
  pub no_star : contains text 42 ≡ false

new_validate-IsPlain : (id : Text) → new_validate id ≡ ok id → IsPlain id
unfolding new_validate
new_validate-IsPlain [] h = cc
new_validate-IsPlain (c ∷ cs) h = record {
  no_space = ground arith;
  no_newline = ground arith;
  no_tab = ground arith;
  no_greater = ground arith;
  no_star = ground arith;
}

pub IsPlain-new_validate : (id : Text) → IsPlain id → id ≢ [] → new_validate id ≡ ok id
unfolding new_validate
IsPlain-new_validate [] h full = absurd (full refl)
IsPlain-new_validate (c ∷ cs) h full =
    ground (arith, h.no_space, h.no_newline, h.no_tab, h.no_greater, h.no_star)

namespace-IsPlain : (id : Text) → IsPlain id → IsPlain (namespace id)
namespace-IsPlain id h = record {
  no_space = namespace-contains id 32 refl h.no_space;
  no_newline = namespace-contains id 10 refl h.no_newline;
  no_tab = namespace-contains id 9 refl h.no_tab;
  no_greater = namespace-contains id 62 refl h.no_greater;
  no_star = namespace-contains id 42 refl h.no_star;
}

bare_app_name-IsPlain : (id : Text) → IsPlain id → IsPlain (bare_app_name id)
bare_app_name-IsPlain id h = record {
  no_space = bare_app_name-contains id 32 h.no_space;
  no_newline = bare_app_name-contains id 10 h.no_newline;
  no_tab = bare_app_name-contains id 9 h.no_tab;
  no_greater = bare_app_name-contains id 62 h.no_greater;
  no_star = bare_app_name-contains id 42 h.no_star;
}

-- the name of an app
abbrev pub IsName : Text × List RegisteredEndpoint → Type 0
IsName app = IsPlain app.0

-- the entry of a namespace: its own name, and those of its apps
abbrev pub IsNamed : Text × AppInstanceMap → Type 0
IsNamed entry = (contains entry.0 slash ≡ false) × IsPlain entry.0 × All IsName entry.1

-- The calls on a registry.
pub data Call : Type 0 where
  registered : Text → RegisteredEndpoint → Call
  deregistered : Text → SocketAddr → Call
  bound : ℕ → Text → Call
  released : ℕ → Call

unfoldable pub after : NamespaceRegistry → Call → NamespaceRegistry
after r (registered app e) = register_endpoint r app e
after r (deregistered app addr) = deregister r app addr
after r (bound port app) = bind_source_port r port app
after r (released port) = release_source_port r port

-- the ids of apps that start are valid
abbrev pub IsAllowed : Call → Type 0
IsAllowed (registered app e) = new_validate app ≡ ok app
IsAllowed _ = Unit

put_back-IsName :
    (key : Text) (es : List RegisteredEndpoint) (apps : AppInstanceMap)
    → IsPlain key
    → All IsName apps
    → All IsName (put_back key es apps)
unfolding put_back
put_back-IsName key [] apps p h = remove-All IsName key apps h
put_back-IsName key (e ∷ es) apps p h = insert-All IsName key (e ∷ es) apps p h

put_apps-IsNamed :
    (ns : Text) (apps : AppInstanceMap) (instances : Map Text AppInstanceMap)
    → IsNamed (ns, apps)
    → All IsNamed instances
    → All IsNamed (put_apps ns apps instances)
unfolding put_apps
put_apps-IsNamed ns [] instances p h = remove-All IsNamed ns instances h
put_apps-IsNamed ns (a ∷ apps) instances p h = insert-All IsNamed ns (a ∷ apps) instances p h

or_insert-IsName :
    (ns : Text) (instances : Map Text AppInstanceMap)
    → All IsNamed instances
    → All IsName (or_insert ns [] instances)
or_insert-IsName ns instances h = elim (Option-cases (lookup ns instances)) [
  | inl absent ↦ rw (absent, or_insert) tt
  | inr (apps, found) ↦ rw (found, or_insert) (lookup-All IsNamed ns instances found h).2
]

deregister_from-IsName :
    (key : Text) (addr : SocketAddr) (apps : AppInstanceMap)
    → All IsName apps
    → All IsName (deregister_from key addr apps)
unfolding deregister_from
deregister_from-IsName key addr apps h = elim (Option-cases (lookup key apps)) [
  | inl absent ↦ rw (absent, deregister_from) h
  | inr (addrs, found) ↦
      rw (found, deregister_from)
        (put_back-IsName key _ apps (lookup-All IsName key apps found h) h)
]

pub after-IsNamed :
    (r : NamespaceRegistry) (call : Call)
    → IsAllowed call
    → All IsNamed r.instances
    → All IsNamed (after r call).instances
unfolding after register_endpoint deregister bind_source_port release_source_port
after-IsNamed r (registered app e) valid h =
    let plain = new_validate-IsPlain app valid in
    insert-All IsNamed (namespace app) _ r.instances
      (
        namespace_free app,
        namespace-IsPlain app plain,
        insert-All IsName (bare_app_name app) _ (or_insert (namespace app) [] r.instances)
            (bare_app_name-IsPlain app plain) (or_insert-IsName (namespace app) r.instances h),
      )
      h
after-IsNamed r (deregistered app addr) valid h =
    elim (Option-cases (lookup (namespace app) r.instances)) [
      | inl absent ↦ rw (absent, deregister) h
      | inr (apps, found) ↦
          let named = lookup-All IsNamed (namespace app) r.instances found h in
          rw (found, deregister)
            (put_apps-IsNamed (namespace app) _ r.instances
              (named.0, named.1, deregister_from-IsName (bare_app_name app) addr apps named.2) h)
    ]
after-IsNamed r (bound port app) valid h = h
after-IsNamed r (released port) valid h = h
