-- ===== src/Supervisor/Network/Ports.antt =====
-- The app that listens on a port, in crates/supervisor/src/network.rs.
use wasm_cloud_platform.Common.{
  ℕ, ◌≡◌, refl, subst, Bool, true, false, Bool-cases, inl, inr, none, some, Option-cases, List, [],
  ◌∷◌, Text, text_key, nat_key, ◌==◌, ◌&&◌, Map, All, any, contains, arith,
}
use wasm_cloud_platform.AppId.{slash}
use wasm_cloud_platform.Supervisor.Network.{
  RegisteredEndpoint, AppInstanceMap, NamespaceRegistry, app_on, app_by_port,
}
use wasm_cloud_platform.Supervisor.Network.Registry.{
  IsPlain, IsName, IsNamed, Call, after, IsAllowed, after-IsNamed,
}

unfoldable pub run : NamespaceRegistry → List Call → NamespaceRegistry
run r [] = r
run r (c ∷ cs) = run (after r c) cs

pub run-IsNamed :
    (r : NamespaceRegistry) (cs : List Call)
    → All IsAllowed cs
    → All IsNamed r.instances
    → All IsNamed (run r cs).instances
unfolding run
run-IsNamed r [] allowed h = h
run-IsNamed r (c ∷ cs) allowed h =
    run-IsNamed (after r c) cs allowed.1 (after-IsNamed r c allowed.0 h)

-- an app of the list listens on the port
abbrev pub listens : ℕ → AppInstanceMap → Bool
listens port apps =
    any
      (λ (app : Text × List RegisteredEndpoint).
        any (λ (endpoint : RegisteredEndpoint). endpoint.addr.port == port) app.1)
      apps

-- an app of the namespace listens on the port
abbrev pub serves : NamespaceRegistry → Text → ℕ → Bool
serves r ns port =
    any (λ (entry : Text × AppInstanceMap). entry.0 == ns && listens port entry.1) r.instances

-- no other namespace listens on the port
abbrev pub IsAlone : NamespaceRegistry → Text → ℕ → Type 0
IsAlone r ns port = (other : Text) → serves r other port ≡ true → other ≡ ns

app_on-none :
    (port : ℕ) (apps : AppInstanceMap) → app_on port apps ≡ none → listens port apps ≡ false
unfolding app_on
app_on-none port [] h = refl
app_on-none port ((name, addrs) ∷ apps) h = ground (arith, app_on-none port apps)

app_on-some :
    (port : ℕ) (apps : AppInstanceMap) {name : Text}
    → app_on port apps ≡ some name
    → All IsName apps
    → (listens port apps ≡ true) × IsPlain name
unfolding app_on
app_on-some port [] h named = cc
app_on-some port ((name', addrs) ∷ apps) {name} h named =
    elim (Bool-cases (any (λ (endpoint : RegisteredEndpoint). endpoint.addr.port == port) addrs)) [
      | inl here ↦
          let same : name' ≡ name = ground arith in (ground arith, subst IsPlain same named.0)
      | inr there ↦
          let later = app_on-some port apps {name = name} (ground arith) named.1 in
          (ground arith, later.1)
    ]

pub app_by_port-none :
    (port : ℕ) (m : Map Text AppInstanceMap) (ns : Text)
    → app_by_port port m ≡ none
    → any (λ (entry : Text × AppInstanceMap). entry.0 == ns && listens port entry.1) m ≡ false
unfolding app_by_port
app_by_port-none port [] ns h = refl
app_by_port-none port ((held, apps) ∷ rest) ns h = elim (Option-cases (app_on port apps)) [
  | inl quiet ↦
      ground (arith, app_on-none port apps quiet, app_by_port-none port rest ns (ground arith))
  | inr (name, found) ↦ absurd (ground arith)
]

-- what holds of the app that is found
abbrev pub IsFound : ℕ → Map Text AppInstanceMap → Text → Text → Type 0
IsFound port m ns name =
    (any (λ (entry : Text × AppInstanceMap). entry.0 == ns && listens port entry.1) m ≡ true)
    × (contains ns slash ≡ false)
    × IsPlain ns
    × IsPlain name

pub app_by_port-IsFound :
    (port : ℕ) (m : Map Text AppInstanceMap) (ns name : Text)
    → app_by_port port m ≡ some (ns, name)
    → All IsNamed m
    → IsFound port m ns name
unfolding app_by_port
app_by_port-IsFound port [] ns name h named = cc
app_by_port-IsFound port ((held, apps) ∷ rest) ns name h named =
    elim (Option-cases (app_on port apps)) [
      | inl quiet ↦
          let later = app_by_port-IsFound port rest ns name (ground arith) named.1 in
          (ground arith, later.1, later.2, later.3)
      | inr (name', found) ↦
          let here = app_on-some port apps {name = name'} found named.0.2 in
          let same : held ≡ ns = ground arith in
          let same_name : name' ≡ name = ground arith in
          (
            ground (arith, here.0, (text_key.same_iff held ns).1 same),
            subst (λ t. contains t slash ≡ false) same named.0.0,
            subst IsPlain same named.0.1,
            subst IsPlain same_name here.1,
          )
    ]
