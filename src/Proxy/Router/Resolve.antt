-- ===== src/Proxy/Router/Resolve.antt =====
-- Resolution in crates/proxy/src/router/mod.rs against a search for the longest prefix.
use wasm_cloud_platform.Common.{
  nat_key, ◌&&◌, ◌++◌, zero, suc, false, ℕ, zero, suc, ◌≤◌, ◌<◌, ◌≡◌, refl, sym, ap, ◌∙◌, subst,
  true, Bool-cases, inl, inr, Option, none, some, List, [], ◌∷◌, Text, text_key, ◌==◌, Values,
  or_insert-Values, length, take, length-take, All, leb, arith,
}
use wasm_cloud_platform.Proxy.Router.{
  RouteEntry, ResolvedRoute, HostRouter, starts_with, first_match, try_hosts, trim_www, resolve,
}
use wasm_cloud_platform.Proxy.Router.Order.{IsLonger, IsSorted}
use wasm_cloud_platform.Proxy.Router.Table.{Route, find, entries, table}

-- The search by length: of the prefixes of the path of at most `n` bytes, the longest one that
-- stands in the table.
unfoldable pub longest : (Text → Option Route) → ℕ → Text → Option ResolvedRoute
longest routes zero path = elim (routes []) [
  | none ↦ none
  | some (app, strip) ↦ some (record { app_id = app; strip_prefix = strip; matched_prefix = [] })
]
longest routes (suc n) path = elim (routes (take (suc n) path)) [
  | none ↦ longest routes n path
  | some (app, strip) ↦
      some (record { app_id = app; strip_prefix = strip; matched_prefix = take (suc n) path })
]

starts_with-take :
    (path prefix : Text)
    → starts_with path prefix ≡ true
    → (take (length prefix) path ≡ prefix) × (length prefix ≤ length path)
unfolding starts_with
starts_with-take path [] h = (refl, omega arith)
starts_with-take [] (c ∷ cs) h = cc
starts_with-take (p ∷ path) (c ∷ cs) h =
    let ih = starts_with-take path cs (ground arith) in ground arith

take-starts_with : (n : ℕ) (path : Text) → starts_with path (take n path) ≡ true
unfolding starts_with
take-starts_with zero path = refl
take-starts_with (suc n) [] = refl
take-starts_with (suc n) (p ∷ path) = ground (arith, take-starts_with n path)

pub longest-ext :
    (f g : Text → Option Route) (n : ℕ) (path : Text)
    → ((k : ℕ) → f (take k path) ≡ g (take k path))
    → longest f n path ≡ longest g n path
unfolding longest
longest-ext f g zero path h = ground (arith, h 0)
longest-ext f g (suc n) path h =
    let now = h (suc n) in ground (arith, now, longest-ext f g n path h)

longest-none : (n : ℕ) (path : Text) → longest (λ p. none) n path ≡ none
unfolding longest
longest-none zero path = refl
longest-none (suc n) path = longest-none n path

find-long :
    (p : Text) (k : ℕ) (es : List RouteEntry)
    → k < length p
    → All (λ x. length x.path_prefix ≤ k) es
    → find p es ≡ none
unfolding find
find-long p k [] h a = refl
find-long p k (e ∷ es) h a = elim (Bool-cases (e.path_prefix == p)) [
  | inl same ↦
      let q = ap length ((text_key.same_iff e.path_prefix p).0 same) in
      absurd (omega (arith, q, h, a.0))
  | inr other ↦ rw (other, find) (find-long p k es h a.1)
]

All-bound :
    (e : RouteEntry) (es : List RouteEntry) (k : ℕ)
    → length e.path_prefix ≤ k
    → All (IsLonger e) es
    → All (λ (x : RouteEntry). length x.path_prefix ≤ k) es
All-bound e [] k le h = tt
All-bound e (x ∷ xs) k le h = (omega (arith, le, h.0), All-bound e xs k le h.1)

-- a prefix that matches is the part of the path of its length
at :
    (e : RouteEntry) (path : Text) (k : ℕ)
    → starts_with path e.path_prefix ≡ true
    → length e.path_prefix ≡ k
    → take k path ≡ e.path_prefix
at e path k m len =
    subst (λ j. take j path ≡ e.path_prefix) len (starts_with-take path e.path_prefix m).0

-- an entry that matches is found before the shorter ones
longest-match :
    (e : RouteEntry) (es : List RouteEntry) (n : ℕ) (path : Text)
    → starts_with path e.path_prefix ≡ true
    → All (IsLonger e) es
    → length e.path_prefix ≤ n
    → n ≤ length path
    → longest (λ p. find p (e ∷ es)) n path
      ≡ some (record {
        app_id = e.app_id;
        strip_prefix = e.strip_prefix;
        matched_prefix = e.path_prefix;
      })
unfolding longest find
longest-match e es zero path m a low high =
    let empty = at e path zero m (omega arith) in
    ground (arith, empty, text_key.same_iff e.path_prefix [])
longest-match e es (suc n) path m a low high = elim (Bool-cases (leb (length e.path_prefix) n)) [
  | inl shorter ↦
      let long = length-take (suc n) path high in
      let e_le : IsLonger e e = omega arith in
      let skip =
        find-long (take (suc n) path) n (e ∷ es) (omega (arith, long))
          (All-bound e (e ∷ es) n (ground arith) (e_le, a)) in
      rw (skip, longest) (longest-match e es n path m a (ground arith) (omega arith))
  | inr equal ↦
      let here = at e path (suc n) m (ground arith) in
      ground (arith, here, text_key.same_iff e.path_prefix (take (suc n) path))
]

first_match-eq-longest :
    (es : List RouteEntry) (path : Text)
    → IsSorted es
    → first_match path es ≡ longest (λ p. find p es) (length path) path
unfolding first_match IsSorted find
first_match-eq-longest [] path h = sym (longest-none (length path) path)
first_match-eq-longest (e ∷ es) path h = elim (Bool-cases (starts_with path e.path_prefix)) [
  | inl hit ↦
      rw (hit, first_match)
        (sym (
          longest-match e es (length path) path hit h.0 (starts_with-take path e.path_prefix hit).1
            (omega arith)))
  | inr miss ↦
      rw (miss, first_match)
        (first_match-eq-longest es path h.1
          ∙ longest-ext (λ p. find p es) (λ p. find p (e ∷ es)) (length path) path
              (λ k. ground (
                arith,
                miss,
                take-starts_with k path,
                text_key.same_iff e.path_prefix (take k path),
              )))
]

-- What a request is answered from a table: the longest prefix of its path that stands there for
-- its host, or else for the host without the `www.` before it.
unfoldable pub route_of : (Text → Text → Option Route) → Text → Text → Option ResolvedRoute
route_of routes host path = elim (longest (routes host) (length path) path) [
  | some route ↦ some route
  | none ↦ longest (routes (trim_www host)) (length path) path
]

-- On a router whose entries are in order, resolution reads nothing but the table that the router
-- stands for, and finds the longest prefix of the path in it, for the host as it is and then
-- without `www.`.
pub resolve-eq-route_of :
    (r : HostRouter) (host path : Text)
    → Values IsSorted r.routes
    → resolve r host path ≡ route_of (table r) host path
unfolding resolve try_hosts route_of table IsSorted
resolve-eq-route_of r host path h =
    let exact : first_match path (entries r host) ≡ longest (table r host) (length path) path =
      first_match-eq-longest (entries r host) path
        (or_insert-Values IsSorted host [] r.routes tt h) in
    let bare : first_match path (entries r (trim_www host))
        ≡ longest (table r (trim_www host)) (length path) path =
      first_match-eq-longest (entries r (trim_www host)) path
        (or_insert-Values IsSorted (trim_www host) [] r.routes tt h) in
    ground (arith, exact, bare)

abbrev pub www : Text
www = 119 ∷ 119 ∷ 119 ∷ 46 ∷ []

abbrev pub www_before : ℕ → Text → Text
www_before zero host = host
www_before (suc n) host = www ++ www_before n host

-- The host that is tried second is the one asked for less every `www.` in front of it, not one
-- alone.
pub trim_www-all :
    (host : Text)
    → (starts_with (trim_www host) www ≡ false) × ((n : ℕ) × (host ≡ www_before n (trim_www host)))
unfolding trim_www starts_with
trim_www-all [] = (refl, (zero, refl))
trim_www-all (a ∷ []) = (ground arith, (zero, refl))
trim_www-all (a ∷ b ∷ []) = (ground arith, (zero, refl))
trim_www-all (a ∷ b ∷ c ∷ []) = (ground arith, (zero, refl))
trim_www-all (a ∷ b ∷ c ∷ d ∷ rest) =
    elim (Bool-cases (a == 119 && b == 119 && c == 119 && d == 46)) [
      | inl more ↦
          let (bare, (n, rest_eq)) = trim_www-all rest in (rw more bare, (suc n, ground arith))
      | inr done ↦ (ground arith, (zero, ground arith))
    ]
