-- ===== src/Proxy/Router/Table.antt =====
-- The routes of crates/proxy/src/router/mod.rs as a table, host and prefix to app, which forgets
-- how the entries are ordered.
use wasm_cloud_platform.Common.{
  ◌≡◌, refl, sym, ap, ◌∙◌, Bool, Bool-cases, ◌&&◌, inl, inr, Option, none, some, Option-cases, List,
  [], ◌∷◌, ◌++◌, String, Text, text_key, ◌==◌, Map, lookup, insert, lookup-insert, lookup-remove,
  or_insert, or_insert-map_values, length, if◌then◌else◌, leb, ok, err, arith,
}
use wasm_cloud_platform.Proxy.Router.{
  RouteEntry, HostRouter, StoredRoute, prefix_of, insert_sorted, sort, without, upsert, add_route,
  put_back, remove_route, remove_host, entry_of, push_all, load_routes_from_store,
}

-- an app, and whether the prefix is stripped before it
abbrev pub Route : Type 0
Route = String × Bool

-- the first entry of a prefix
unfoldable pub find : Text → List RouteEntry → Option Route
find prefix [] = none
find prefix (e ∷ es) =
    if e.path_prefix == prefix then some (e.app_id, e.strip_prefix) else find prefix es

abbrev pub entries : HostRouter → Text → List RouteEntry
entries r host = or_insert host [] r.routes

-- the table that a router stands for
unfoldable pub table : HostRouter → Text → Text → Option Route
table r host prefix = find prefix (entries r host)

find-insert_sorted :
    (prefix : Text) (e : RouteEntry) (es : List RouteEntry)
    → find prefix (insert_sorted e es) ≡ find prefix (e ∷ es)
unfolding find insert_sorted
find-insert_sorted prefix e [] = refl
find-insert_sorted prefix e (x ∷ xs) =
    let same_as = text_key.same_iff e.path_prefix prefix in
    let same_as' = text_key.same_iff x.path_prefix prefix in
    elim (Bool-cases (leb (length x.path_prefix) (length e.path_prefix))) [
      | inl shorter ↦ ground arith
      | inr longer ↦ elim (Bool-cases (e.path_prefix == prefix)) [
        | inl same ↦ elim (Bool-cases (x.path_prefix == prefix)) [
          | inl both ↦
              let e : length e.path_prefix ≡ length x.path_prefix =
                ap length (same_as.0 same ∙ sym (same_as'.0 both)) in
              absurd (ground arith)
          | inr other ↦ ground (arith, find-insert_sorted prefix e xs)
        ]
        | inr other ↦ ground (arith, find-insert_sorted prefix e xs)
      ]
    ]

pub find-sort : (prefix : Text) (es : List RouteEntry) → find prefix (sort es) ≡ find prefix es
unfolding find sort
find-sort prefix [] = refl
find-sort prefix (e ∷ es) =
    let first = find-insert_sorted prefix e (sort es) in ground (arith, first, find-sort prefix es)

find-without :
    (gone prefix : Text) (es : List RouteEntry)
    → find prefix (without gone es) ≡ (if gone == prefix then none else find prefix es)
unfolding find
find-without gone prefix [] = ground arith
find-without gone prefix (e ∷ es) = ground (
  arith,
  find-without gone prefix es,
  text_key.same_iff e.path_prefix gone,
  text_key.same_iff e.path_prefix prefix,
  text_key.same_iff gone prefix,
)

find-append :
    (prefix : Text) (es fs : List RouteEntry)
    → find prefix (es ++ fs) ≡ elim (find prefix es) [ none ↦ find prefix fs | some a ↦ some a ]
unfolding find
find-append prefix [] fs = refl
find-append prefix (e ∷ es) fs = ground (arith, find-append prefix es fs)

find-upsert :
    (key prefix : Text) (app : String) (strip : Bool) (es : List RouteEntry)
    → find prefix (upsert key app strip es)
      ≡ (if key == prefix then some (app, strip) else find prefix es)
unfolding upsert find
find-upsert key prefix app strip es =
    let e : RouteEntry = record { app_id = app; path_prefix = key; strip_prefix = strip } in
    ground (
      arith,
      find-sort prefix (without key es ++ e ∷ []),
      find-append prefix (without key es) (e ∷ []),
      find-without key prefix es,
    )

-- Adding a route writes one place of the table, the host and the prefix that it was given, with
-- `/` for an empty prefix, whatever was there before; every other place is as it was.
pub table-add_route :
    (r : HostRouter) (host path_prefix : Text) (app : String) (strip : Bool) (h p : Text)
    → table (add_route r host path_prefix app strip) h p
      ≡ (if host == h && prefix_of path_prefix == p then some (app, strip) else table r h p)
unfolding table add_route
table-add_route r host path_prefix app strip h p =
    let es = upsert (prefix_of path_prefix) app strip (entries r host) in
    ground (
      arith,
      lookup-insert host h es r.routes,
      find-upsert (prefix_of path_prefix) p app strip (entries r host),
      text_key.same_iff host h,
    )

table-put_back :
    (r : HostRouter) (host h p : Text) (es : List RouteEntry)
    → table (put_back host es r.routes) h p ≡ (if host == h then find p es else table r h p)
unfolding table put_back find
table-put_back r host h p [] = ground (arith, lookup-remove host h r.routes)
table-put_back r host h p (e ∷ es) = ground (arith, lookup-insert host h (e ∷ es) r.routes)

-- Removing a route clears one place of the table, exactly as it was named: an empty prefix is not
-- read as `/`.
pub table-remove_route :
    (r : HostRouter) (host path_prefix h p : Text)
    → table (remove_route r host path_prefix) h p
      ≡ (if host == h && path_prefix == p then none else table r h p)
unfolding table remove_route find
table-remove_route r host path_prefix h p = elim (Option-cases (lookup host r.routes)) [
  | inl absent ↦ ground (arith, text_key.same_iff host h)
  | inr (es, found) ↦ ground (
    arith,
    table-put_back r host h p (without path_prefix es),
    find-without path_prefix p es,
    text_key.same_iff host h,
  )
]

-- Removing a host clears its row of the table and no other.
pub table-remove_host :
    (r : HostRouter) (host h p : Text)
    → table (remove_host r host) h p ≡ (if host == h then none else table r h p)
unfolding table remove_host find
table-remove_host r host h p = ground (arith, lookup-remove host h r.routes)

-- the first stored route of a host and prefix
abbrev pub first_stored : List StoredRoute → Text → Text → Option Route
first_stored [] h p = none
first_stored (s ∷ ss) h p =
    if s.host == h && prefix_of s.path_prefix == p
    then some (s.app_id, s.strip_prefix)
    else first_stored ss h p

find-push_all :
    (ss : List StoredRoute) (m : Map Text (List RouteEntry)) (h p : Text)
    → find p (or_insert h [] (push_all ss m))
      ≡ elim (find p (or_insert h [] m)) [ none ↦ first_stored ss h p | some a ↦ some a ]
unfolding push_all find
find-push_all [] m h p = ground arith
find-push_all (s ∷ ss) m h p =
    let now = or_insert s.host [] m ++ entry_of s ∷ [] in
    ground (
      arith,
      find-push_all ss (insert s.host now m) h p,
      lookup-insert s.host h now m,
      find-append p (or_insert s.host [] m) (entry_of s ∷ []),
      text_key.same_iff s.host h,
    )

-- Loading replaces the whole table by that of the storage layer, the first route stored for a host
-- and a prefix standing there.
pub table-load_routes {ℓ} :
    (E : Type ℓ) (r : HostRouter) (ss : List StoredRoute) (h p : Text)
    → table (load_routes_from_store {E = E} r (ok ss)) h p ≡ first_stored ss h p
unfolding table load_routes_from_store find sort lookup
table-load_routes E r ss h p = ground (
  arith,
  or_insert-map_values sort h [] (push_all ss []),
  find-sort p (or_insert h [] (push_all ss [])),
  find-push_all ss [] h p,
)

pub table-failed_load {ℓ} :
    {E : Type ℓ} (r : HostRouter) (e : E) (h p : Text)
    → table (load_routes_from_store r (err e)) h p ≡ table r h p
unfolding load_routes_from_store
table-failed_load r e h p = refl
