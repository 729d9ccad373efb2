-- ===== src/Proxy/Router/Order.antt =====
-- The order of the entries of a host: crates/proxy/src/router/mod.rs.
use wasm_cloud_platform.Common.{
  ◌≤◌, Bool, Bool-cases, inl, inr, Option-cases, List, [], ◌∷◌, String, Text, text_key, ◌==◌,
  Values, insert-Values, remove-Values, lookup-Values, map_values-Values, lookup, length, not, All,
  All-filter, leb, Result, ok, err, arith,
}
use wasm_cloud_platform.Proxy.Router.{
  RouteEntry, HostRouter, StoredRoute, insert_sorted, sort, without, upsert, add_route, put_back,
  remove_route, remove_host, load_routes_from_store,
}

abbrev pub IsLonger : RouteEntry → RouteEntry → Type 0
IsLonger e x = length x.path_prefix ≤ length e.path_prefix

-- the longest prefix first
unfoldable pub IsSorted : List RouteEntry → Type 0
IsSorted [] = Unit
IsSorted (e ∷ es) = All (IsLonger e) es × IsSorted es

module _ {κ} (P : RouteEntry → Type κ) where
  All-insert_sorted :
      (e : RouteEntry) (es : List RouteEntry) → P e → All P es → All P (insert_sorted e es)
  unfolding insert_sorted
  All-insert_sorted e [] p h = (p, tt)
  All-insert_sorted e (x ∷ xs) p h = ground (arith, All-insert_sorted e xs p h.1)

All-trans :
    (e x : RouteEntry) (xs : List RouteEntry)
    → IsLonger e x
    → All (IsLonger x) xs
    → All (IsLonger e) xs
All-trans e x [] le h = tt
All-trans e x (y ∷ ys) le h = (omega (arith, le, h.0), All-trans e x ys le h.1)

insert_sorted-IsSorted :
    (e : RouteEntry) (es : List RouteEntry) → IsSorted es → IsSorted (insert_sorted e es)
unfolding insert_sorted IsSorted
insert_sorted-IsSorted e [] h = (tt, tt)
insert_sorted-IsSorted e (x ∷ xs) h =
    elim (Bool-cases (leb (length x.path_prefix) (length e.path_prefix))) [
      | inl shorter ↦ ground (arith, All-trans e x xs (ground arith) h.0)
      | inr longer ↦ ground (
        arith,
        insert_sorted-IsSorted e xs h.1,
        All-insert_sorted (IsLonger x) e xs (ground arith) h.0,
      )
    ]

pub sort-IsSorted : (es : List RouteEntry) → IsSorted (sort es)
unfolding sort IsSorted
sort-IsSorted [] = tt
sort-IsSorted (e ∷ es) = insert_sorted-IsSorted e (sort es) (sort-IsSorted es)

filter-IsSorted : (gone : Text) (es : List RouteEntry) → IsSorted es → IsSorted (without gone es)
unfolding IsSorted
filter-IsSorted gone [] h = tt
filter-IsSorted gone (e ∷ es) h = ground (
  arith,
  All-filter (IsLonger e) (λ (x : RouteEntry). not (x.path_prefix == gone)) es h.0,
  filter-IsSorted gone es h.1,
)

-- What the program does to a router.
pub data Change : Type 0 where
  added : Text → Text → String → Bool → Change
  removed : Text → Text → Change
  host_removed : Text → Change
  loaded : Result String (List StoredRoute) → Change

unfoldable pub changed : HostRouter → Change → HostRouter
changed r (added host prefix app strip) = add_route r host prefix app strip
changed r (removed host prefix) = remove_route r host prefix
changed r (host_removed host) = remove_host r host
changed r (loaded result) = load_routes_from_store r result

put_back-IsSorted :
    (r : HostRouter) (host : Text) (es : List RouteEntry)
    → IsSorted es
    → Values IsSorted r.routes
    → Values IsSorted (put_back host es r.routes).routes
unfolding put_back
put_back-IsSorted r host [] s h = remove-Values IsSorted host r.routes h
put_back-IsSorted r host (e ∷ es) s h = insert-Values IsSorted host (e ∷ es) r.routes s h

-- Every change of a router, loading included, keeps the entries of each of its hosts in the order
-- of their prefixes, the longest first.
pub changed-IsSorted :
    (r : HostRouter) (change : Change)
    → Values IsSorted r.routes
    → Values IsSorted (changed r change).routes
unfolding changed add_route remove_route remove_host load_routes_from_store upsert
changed-IsSorted r (added host prefix app strip) h =
    insert-Values IsSorted host _ r.routes (sort-IsSorted _) h
changed-IsSorted r (removed host prefix) h = elim (Option-cases (lookup host r.routes)) [
  | inl absent ↦ rw (absent, remove_route) h
  | inr (es, found) ↦
      rw (found, remove_route)
        (put_back-IsSorted r host (without prefix es)
          (filter-IsSorted prefix es (lookup-Values IsSorted host r.routes found h)) h)
]
changed-IsSorted r (host_removed host) h = remove-Values IsSorted host r.routes h
changed-IsSorted r (loaded (ok ss)) h = map_values-Values IsSorted sort sort-IsSorted _
changed-IsSorted r (loaded (err e)) h = h
