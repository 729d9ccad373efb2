-- ===== src/Proxy/Upstream/Addresses.antt =====
-- The registry of crates/proxy/src/upstream/mod.rs as a set of addresses for each app, and when it
-- has an answer.
use wasm_cloud_platform.Common.{
  ℕ, ◌≡◌, refl, subst, inl, inr, Bool, true, false, Bool-cases, none, some, Option-cases, List, [],
  ◌∷◌, String, string_key, lookup, lookup-insert, lookup-remove, any, any-append, fetch_add_u64,
  ◌&&◌, ◌==◌, if◌then◌else◌, SocketAddr, socket_addr_key, arith,
}
use wasm_cloud_platform.Proxy.Upstream.{
  UpstreamEndpoint, UpstreamRegistry, pushed, add, without_addr, kept, remove_addr, next,
  register_health_check, remove_health_check, next_healthy,
}
use wasm_cloud_platform.Proxy.Upstream.Calls.{
  Call, added, removed, asked, watched, unwatched, probed, after, record_health_result-effect,
}

-- the app has an endpoint with the address
unfoldable pub has : UpstreamRegistry → String → SocketAddr → Bool
has r app addr = elim (lookup app r.inner) [
  | none ↦ false
  | some (counter, es) ↦ any (λ (x : UpstreamEndpoint). x.addr == addr) es
]

any-pushed :
    (e : UpstreamEndpoint) (addr : SocketAddr) (es : List UpstreamEndpoint)
    → any (λ (x : UpstreamEndpoint). x.addr == addr) (pushed e es)
      ≡ (if e.addr == addr then true else any (λ (x : UpstreamEndpoint). x.addr == addr) es)
unfolding pushed
any-pushed e addr es =
    let same = socket_addr_key.same_iff e.addr addr in
    let appended = any-append (λ (x : UpstreamEndpoint). x.addr == addr) es (e ∷ []) in
    elim (Bool-cases (any (λ (x : UpstreamEndpoint). x.addr == e.addr) es)) [
      | inr new ↦ ground arith
      | inl there ↦ elim (Bool-cases (e.addr == addr)) [
        | inr other ↦ ground arith
        | inl equal ↦
            let found =
              subst (λ a. any (λ (x : UpstreamEndpoint). x.addr == a) es ≡ true) (same.0 equal)
                there in
            ground arith
      ]
    ]

any-without_addr :
    (gone addr : SocketAddr) (es : List UpstreamEndpoint)
    → any (λ (x : UpstreamEndpoint). x.addr == addr) (without_addr gone es)
      ≡ (if gone == addr then false else any (λ (x : UpstreamEndpoint). x.addr == addr) es)
any-without_addr gone addr [] = ground arith
any-without_addr gone addr (e ∷ es) = ground (
  arith,
  any-without_addr gone addr es,
  socket_addr_key.same_iff e.addr gone,
  socket_addr_key.same_iff e.addr addr,
  socket_addr_key.same_iff gone addr,
)

-- what a call says of an endpoint that was there or not
abbrev pub written : Call → String → SocketAddr → Bool → Bool
written (added app e) a addr before = if app == a && e.addr == addr then true else before
written (removed app gone) a addr before = if app == a && gone == addr then false else before
written (asked app) a addr before = before
written (watched app config) a addr before = before
written (unwatched app) a addr before = before
written (probed app success) a addr before = before

next-has :
    (r : UpstreamRegistry) (app a : String) (addr : SocketAddr)
    → has (next_healthy r app).0 a addr ≡ has r a addr
unfolding has next_healthy next
next-has r app a addr = elim (Option-cases (lookup app r.inner)) [
  | inl absent ↦ ground arith
  | inr ((counter, []), found) ↦ ground arith
  | inr ((counter, e ∷ es), found) ↦ ground (
    arith,
    lookup-insert app a (fetch_add_u64 counter 1, e ∷ es) r.inner,
    string_key.same_iff app a,
  )
]

kept-has :
    (app : String) (counter : ℕ) (es : List UpstreamEndpoint) (r : UpstreamRegistry) (a : String)
    (addr : SocketAddr)
    → has (record r { inner = kept app counter es r.inner }) a addr
      ≡ (if app == a then any (λ (x : UpstreamEndpoint). x.addr == addr) es else has r a addr)
unfolding has kept
kept-has app counter [] r a addr = ground (arith, lookup-remove app a r.inner)
kept-has app counter (e ∷ es) r a addr =
    ground (arith, lookup-insert app a (counter, e ∷ es) r.inner)

-- The registry is the set of each app's addresses: adding an endpoint puts in one address of one
-- app, removing takes one out, and every other call leaves each address as it was.
pub after-has :
    (r : UpstreamRegistry) (call : Call) (a : String) (addr : SocketAddr)
    → has (after r call) a addr ≡ written call a addr (has r a addr)
unfolding after has add remove_addr register_health_check remove_health_check
after-has r (added app e) a addr = elim (Option-cases (lookup app r.inner)) [
  | inl absent ↦ ground (
    arith,
    lookup-insert app a (0, pushed e []) r.inner,
    any-pushed e addr [],
    string_key.same_iff app a,
  )
  | inr ((counter, es), found) ↦ ground (
    arith,
    lookup-insert app a (counter, pushed e es) r.inner,
    any-pushed e addr es,
    string_key.same_iff app a,
  )
]
after-has r (removed app gone) a addr = elim (Option-cases (lookup app r.inner)) [
  | inl absent ↦ ground (arith, string_key.same_iff app a)
  | inr ((counter, es), found) ↦ ground (
    arith,
    kept-has app counter (without_addr gone es) r a addr,
    any-without_addr gone addr es,
    string_key.same_iff app a,
  )
]
after-has r (asked app) a addr = next-has r app a addr
after-has r (watched app config) a addr = refl
after-has r (unwatched app) a addr = refl
after-has r (probed app success) a addr =
    ground (arith, record_health_result-effect r app success app)
