-- ===== src/Proxy/Upstream/Kept.antt =====
-- What holds of the registry of crates/proxy/src/upstream/mod.rs at all times.
use wasm_cloud_platform.Common.{
  ℕ, ◌<◌, ◌≡◌, sym, subst, ◌≢◌, inl, inr, false, Bool-cases, Option-cases, List, [], ◌∷◌, ◌++◌,
  String, string_key, lookup, lookup-insert, lookup-remove, Values, insert-Values, remove-Values,
  lookup-Values, length, any, not, ◌==◌, contains_key, SocketAddr, socket_addr_key, All, All-append,
  All-filter, arith,
}
use wasm_cloud_platform.Proxy.Upstream.{
  UpstreamEndpoint, UpstreamRegistry, pushed, add, without_addr, kept, remove_addr, next, fresh,
  register_health_check, remove_health_check, next_healthy,
}
use wasm_cloud_platform.Proxy.Upstream.Calls.{
  Call, added, removed, asked, watched, unwatched, probed, after, record_health_result-effect,
}

-- no endpoint of the list has the address
abbrev pub IsAbsent : SocketAddr → List UpstreamEndpoint → Type 0
IsAbsent addr = All (λ (x : UpstreamEndpoint). x.addr ≢ addr)

-- no address stands twice
unfoldable pub IsDistinct : List UpstreamEndpoint → Type 0
IsDistinct [] = Unit
IsDistinct (e ∷ es) = IsAbsent e.addr es × IsDistinct es

-- What holds of the entry of an app at all times.
abbrev pub IsLive : ℕ × List UpstreamEndpoint → Type 0
IsLive (counter, es) = (0 < length es) × IsDistinct es

any-IsAbsent :
    (addr : SocketAddr) (es : List UpstreamEndpoint)
    → any (λ (x : UpstreamEndpoint). x.addr == addr) es ≡ false
    → IsAbsent addr es
any-IsAbsent addr [] h = tt
any-IsAbsent addr (e ∷ es) h =
    ground (arith, socket_addr_key.same_iff e.addr addr, any-IsAbsent addr es)

append-IsDistinct :
    (e : UpstreamEndpoint) (es : List UpstreamEndpoint)
    → IsAbsent e.addr es
    → IsDistinct es
    → IsDistinct (es ++ e ∷ [])
unfolding IsDistinct
append-IsDistinct e [] a d = (tt, tt)
append-IsDistinct e (x ∷ xs) a d = (
  All-append (λ (y : UpstreamEndpoint). y.addr ≢ x.addr) xs (e ∷ []) d.0 (ground arith, tt),
  append-IsDistinct e xs a.1 d.1,
)

pushed-IsDistinct :
    (e : UpstreamEndpoint) (es : List UpstreamEndpoint) → IsDistinct es → IsDistinct (pushed e es)
unfolding pushed
pushed-IsDistinct e es d = elim (Bool-cases (any (λ (x : UpstreamEndpoint). x.addr == e.addr) es)) [
  | inl there ↦ rw there d
  | inr new ↦ rw new (append-IsDistinct e es (any-IsAbsent e.addr es new) d)
]

pushed-nonempty : (e : UpstreamEndpoint) (es : List UpstreamEndpoint) → 0 < length (pushed e es)
unfolding pushed
pushed-nonempty e [] = ground arith
pushed-nonempty e (x ∷ xs) = ground arith

filter-IsDistinct :
    (addr : SocketAddr) (es : List UpstreamEndpoint)
    → IsDistinct es
    → IsDistinct (without_addr addr es)
unfolding IsDistinct
filter-IsDistinct addr [] d = tt
filter-IsDistinct addr (e ∷ es) d = ground (
  arith,
  All-filter (λ (y : UpstreamEndpoint). y.addr ≢ e.addr)
      (λ (x : UpstreamEndpoint). not (x.addr == addr)) es d.0,
  filter-IsDistinct addr es d.1,
)

-- What holds of a registry at all times.
pub record IsKept (r : UpstreamRegistry) : Type 0 where
  pub live : Values IsLive r.inner
  pub paired : (app : String) → contains_key app r.health_configs ≡ contains_key app r.health_state

kept-IsLive :
    (app : String) (counter : ℕ) (es : List UpstreamEndpoint) (r : UpstreamRegistry)
    → IsDistinct es
    → Values IsLive r.inner
    → Values IsLive (kept app counter es r.inner)
unfolding kept
kept-IsLive app counter [] r d h = remove-Values IsLive app r.inner h
kept-IsLive app counter (e ∷ es) r d h =
    insert-Values IsLive app (counter, e ∷ es) r.inner (ground arith, d) h

next-IsLive :
    (r : UpstreamRegistry) (app : String)
    → Values IsLive r.inner
    → Values IsLive (next r app).0.inner
unfolding next
next-IsLive r app h = elim (Option-cases (lookup app r.inner)) [
  | inl absent ↦ rw (absent, next) h
  | inr ((counter, []), found) ↦ rw (found, next) h
  | inr ((counter, e ∷ es), found) ↦
      rw (found, next)
        (insert-Values IsLive app _ r.inner (lookup-Values IsLive app r.inner found h) h)
]

next-health :
    (r : UpstreamRegistry) (app : String)
    → ((next r app).0.health_configs ≡ r.health_configs)
      × ((next r app).0.health_state ≡ r.health_state)
unfolding next
next-health r app = ground arith

add-IsLive :
    (r : UpstreamRegistry) (app : String) (e : UpstreamEndpoint)
    → Values IsLive r.inner
    → Values IsLive (add r app e).inner
unfolding add IsDistinct
add-IsLive r app e h = elim (Option-cases (lookup app r.inner)) [
  | inl absent ↦
      rw (absent, add)
        (insert-Values IsLive app _ r.inner (pushed-nonempty e [], pushed-IsDistinct e [] tt) h)
  | inr ((counter, es), found) ↦
      let d = lookup-Values IsLive app r.inner found h in
      rw (found, add)
        (insert-Values IsLive app _ r.inner (pushed-nonempty e es, pushed-IsDistinct e es d.1) h)
]

remove_addr-IsLive :
    (r : UpstreamRegistry) (app : String) (addr : SocketAddr)
    → Values IsLive r.inner
    → Values IsLive (remove_addr r app addr).inner
unfolding remove_addr
remove_addr-IsLive r app addr h = elim (Option-cases (lookup app r.inner)) [
  | inl absent ↦ rw (absent, remove_addr) h
  | inr ((counter, es), found) ↦
      let d = lookup-Values IsLive app r.inner found h in
      rw (found, remove_addr)
        (kept-IsLive app counter (without_addr addr es) r (filter-IsDistinct addr es d.1) h)
]

next_healthy-IsLive :
    (r : UpstreamRegistry) (app : String)
    → Values IsLive r.inner
    → Values IsLive (next_healthy r app).0.inner
unfolding next_healthy
next_healthy-IsLive r app h = ground (arith, next-IsLive r app h)

next_healthy-health :
    (r : UpstreamRegistry) (app : String)
    → ((next_healthy r app).0.health_configs ≡ r.health_configs)
      × ((next_healthy r app).0.health_state ≡ r.health_state)
unfolding next_healthy
next_healthy-health r app = ground (arith, next-health r app)

-- Every call keeps the registry in order: an app that has an entry has an endpoint, no address stands
-- twice for it, and the apps with a health check are those with a health state.
pub after-IsKept : (r : UpstreamRegistry) (call : Call) → IsKept r → IsKept (after r call)
unfolding after add remove_addr register_health_check remove_health_check
after-IsKept r (added app e) v = record {
  live = add-IsLive r app e v.live;
  paired = λ other. ground (arith, v.paired other);
}
after-IsKept r (removed app addr) v = record {
  live = remove_addr-IsLive r app addr v.live;
  paired = λ other. ground (arith, v.paired other);
}
after-IsKept r (asked app) v = record {
  live = next_healthy-IsLive r app v.live;
  paired = λ other. ground (arith, v.paired other, next_healthy-health r app);
}
after-IsKept r (watched app config) v = record {
  live = v.live;
  paired = λ other. ground (
    arith,
    v.paired other,
    lookup-insert app other config r.health_configs,
    lookup-insert app other fresh r.health_state,
  );
}
after-IsKept r (unwatched app) v = record {
  live = v.live;
  paired = λ other. ground (
    arith,
    v.paired other,
    lookup-remove app other r.health_configs,
    lookup-remove app other r.health_state,
  );
}
after-IsKept r (probed app success) v = record {
  live = subst (Values IsLive) (sym (record_health_result-effect r app success app).0) v.live;
  paired = λ other. ground (arith, v.paired other, record_health_result-effect r app success other);
}
