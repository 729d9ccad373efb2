-- ===== src/Supervisor/Network/Isolation.antt =====
-- The isolation of namespaces by crates/supervisor/src/network_interceptor.rs.
use wasm_cloud_platform.Common.{
  ℕ, ◌≡◌, refl, subst, ◌≢◌, true, false, Bool-cases, inl, inr, none, some, Option-cases, List, [],
  ◌∷◌, ◌++◌, Text, text_key, nat_key, ◌==◌, All, contains, codes, if◌then◌else◌, SocketAddr, ok,
  arith,
}
use wasm_cloud_platform.AppId.{slash, colon, new_namespaced, namespace}
use wasm_cloud_platform.AppId.Parts.{contains-append, namespace-append}
use wasm_cloud_platform.Supervisor.Network.{
  NamespaceRegistry, empty, app_by_port, resolve_app_by_port, ConnectDecision, allow, deny,
  is_loopback, check_connect,
}
use wasm_cloud_platform.Supervisor.Network.Registry.{IsPlain, Call, IsAllowed, IsPlain-new_validate}
use wasm_cloud_platform.Supervisor.Network.Ports.{
  run, run-IsNamed, serves, IsAlone, IsFound, app_by_port-none, app_by_port-IsFound,
}

-- the id that is made of what is found is valid
found_id : Text → Text → Text
found_id ns name = ns ++ slash ∷ (name ++ colon ∷ codes "v1")

found_id-contains :
    (ns name : Text) (d : ℕ)
    → contains ns d ≡ false
    → contains name d ≡ false
    → contains (slash ∷ colon ∷ codes "v1") d ≡ false
    → contains (found_id ns name) d ≡ false
unfolding found_id
found_id-contains ns name d h k other = ground (
  arith,
  contains-append ns (slash ∷ (name ++ colon ∷ codes "v1")) d,
  contains-append name (colon ∷ codes "v1") d,
)

found_id-IsPlain : (ns name : Text) → IsPlain ns → IsPlain name → IsPlain (found_id ns name)
found_id-IsPlain ns name p q = record {
  no_space = found_id-contains ns name 32 p.no_space q.no_space refl;
  no_newline = found_id-contains ns name 10 p.no_newline q.no_newline refl;
  no_tab = found_id-contains ns name 9 p.no_tab q.no_tab refl;
  no_greater = found_id-contains ns name 62 p.no_greater q.no_greater refl;
  no_star = found_id-contains ns name 42 p.no_star q.no_star refl;
}

found_id-nonempty : (ns name : Text) → found_id ns name ≢ []
unfolding found_id
found_id-nonempty [] name = λ h. cc
found_id-nonempty (c ∷ cs) name = λ h. cc

-- the decision where the port was found
check_connect-found :
    (r : NamespaceRegistry) (source ns name : Text) (dest : SocketAddr)
    → is_loopback dest.ip ≡ true
    → app_by_port dest.port r.instances ≡ some (ns, name)
    → IsFound dest.port r.instances ns name
    → check_connect r source dest
      ≡ ok (if ns == namespace source then allow dest else deny (namespace source) ns)
unfolding check_connect resolve_app_by_port found_id
check_connect-found r source ns name dest loop found f =
    let made : new_namespaced ns name (codes "v1") ≡ ok (found_id ns name) =
      IsPlain-new_validate (found_id ns name) (found_id-IsPlain ns name f.2 f.3)
        (found_id-nonempty ns name) in
    let owner : namespace (found_id ns name) ≡ ns =
      namespace-append ns (name ++ colon ∷ codes "v1") f.1 in
    ground arith

check_connect-unserved :
    (r : NamespaceRegistry) (source : Text) (dest : SocketAddr)
    → app_by_port dest.port r.instances ≡ none
    → check_connect r source dest ≡ ok (allow dest)
unfolding check_connect resolve_app_by_port
check_connect-unserved r source dest absent = ground arith

-- The registry of a node on which only apps with valid ids were registered: when the apps of one
-- namespace alone listen on a loopback port, an app may connect to it exactly if it is of that
-- namespace, and is refused with the names of both namespaces if it is of another.
pub check_connect-isolates :
    (cs : List Call) (source ns : Text) (dest : SocketAddr)
    → All IsAllowed cs
    → is_loopback dest.ip ≡ true
    → serves (run empty cs) ns dest.port ≡ true
    → IsAlone (run empty cs) ns dest.port
    → check_connect (run empty cs) source dest
      ≡ ok (if ns == namespace source then allow dest else deny (namespace source) ns)
check_connect-isolates cs source ns dest allowed loop there alone =
    let r = run empty cs in
    elim (Option-cases (app_by_port dest.port r.instances)) [
      | inl absent ↦ let no_one = app_by_port-none dest.port r.instances ns absent in absurd (cc)
      | inr ((held, name), found) ↦
          let f =
            app_by_port-IsFound dest.port r.instances held name found
              (run-IsNamed empty cs allowed tt) in
          subst
            (λ n.
              check_connect r source dest
              ≡ ok (if n == namespace source then allow dest else deny (namespace source) n))
            (alone held f.0) (check_connect-found r source held name dest loop found f)
    ]

-- what a decision says
abbrev pub IsJustified : NamespaceRegistry → Text → SocketAddr → ConnectDecision → Type 0
IsJustified r source dest (allow addr) = addr ≡ dest
IsJustified r source dest (deny from to) =
    (is_loopback dest.ip ≡ true)
    × (from ≡ namespace source)
    × (to ≢ from)
    × (serves r to dest.port ≡ true)

-- The check of a connection never panics on such a registry: it allows the address that was asked
-- for, unchanged, or it refuses a loopback port on which an app of another namespace listens.
pub check_connect-IsJustified :
    (cs : List Call) (source : Text) (dest : SocketAddr)
    → All IsAllowed cs
    → (decision : ConnectDecision) × (check_connect (run empty cs) source dest ≡ ok decision)
      × IsJustified (run empty cs) source dest decision
unfolding check_connect
check_connect-IsJustified cs source dest allowed =
    let r = run empty cs in
    elim (Bool-cases (is_loopback dest.ip)) [
      | inr outside ↦ (allow dest, ground arith, refl)
      | inl loop ↦ elim (Option-cases (app_by_port dest.port r.instances)) [
        | inl absent ↦ (allow dest, check_connect-unserved r source dest absent, refl)
        | inr ((held, name), found) ↦
            let f =
              app_by_port-IsFound dest.port r.instances held name found
                (run-IsNamed empty cs allowed tt) in
            let decided = check_connect-found r source held name dest loop found f in
            elim (Bool-cases (held == namespace source)) [
              | inl own ↦ (allow dest, ground arith, refl)
              | inr foreign ↦ (
                deny (namespace source) held,
                ground arith,
                (loop, refl, ground (arith, text_key.same_iff held (namespace source)), f.0),
              )
            ]
      ]
    ]
