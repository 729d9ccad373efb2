-- ===== src/Proxy/Upstream/RoundRobin.antt =====
-- The round robin of crates/proxy/src/upstream/mod.rs.
use wasm_cloud_platform.Common.{
  ℕ, zero, suc, ◌+◌, ◌-◌, ◌%◌, ◌^◌, ◌≤◌, ◌<◌, ◌≡◌, refl, sym, ap, ◌∙◌, subst, Option, some, List,
  [], ◌∷◌, ◌++◌, map, String, string_key, lookup, lookup-insert, beq_refl, length, get_elem?,
  get_elem?-lt, take, take_all, drop, length-drop, fetch_add_u64, arith,
}
use mathlib.Core.List.{map-append}
use native.Mathlib.Nat.{suc-mod, mod-eq_of_lt, mod_self, mod-lt, mod-add-mod}
use wasm_cloud_platform.Proxy.Upstream.{UpstreamEndpoint, UpstreamRegistry, next}

-- the answers of that many calls of `next`, the first one first, and the registry after them
pub turns : ℕ → String → UpstreamRegistry → UpstreamRegistry
turns zero app r = r
turns (suc n) app r = turns n app (next r app).0

pub answers : ℕ → String → UpstreamRegistry → List (Option UpstreamEndpoint)
answers zero app r = []
answers (suc n) app r = (next r app).1 ∷ answers n app (next r app).0

-- the app has these endpoints, and its counter stands there
abbrev pub Stands : UpstreamRegistry → String → ℕ → List UpstreamEndpoint → Type 0
Stands r app counter es = lookup app r.inner ≡ some (counter, es)

next-Stands :
    (r : UpstreamRegistry) (app : String) (counter : ℕ) (es : List UpstreamEndpoint)
    → Stands r app counter es
    → 0 < length es
    → suc counter < 2 ^ 64
    → Stands (next r app).0 app (suc counter) es
      × ((next r app).1 ≡ get_elem? es (counter % length es))
unfolding next
next-Stands r app counter [] s pos small = absurd (omega arith)
next-Stands r app counter (e ∷ es) s pos small =
    ground (arith, s, lookup-insert app app (fetch_add_u64 counter 1, e ∷ es) r.inner, beq_refl app)

drop-get_elem? :
    (es : List UpstreamEndpoint) (k : ℕ) (e : UpstreamEndpoint)
    → get_elem? es k ≡ some e
    → drop k es ≡ e ∷ drop (suc k) es
drop-get_elem? [] k e h = cc
drop-get_elem? (x ∷ xs) zero e h = ground arith
drop-get_elem? (x ∷ xs) (suc k) e h = drop-get_elem? xs k e h

-- what the counters from a given one on answer
abbrev cycle : ℕ → ℕ → List UpstreamEndpoint → List (Option UpstreamEndpoint)
cycle c zero es = []
cycle c (suc j) es = get_elem? es (c % length es) ∷ cycle (suc c) j es

cycle-append :
    (c i j : ℕ) (es : List UpstreamEndpoint)
    → cycle c (i + j) es ≡ cycle c i es ++ cycle (c + i) j es
cycle-append c zero j es =
    let same : c + 0 ≡ c = omega arith in
    let whole : 0 + j ≡ j = omega arith in rw (same, whole) refl
cycle-append c (suc i) j es =
    let whole : suc i + j ≡ suc (i + j) = omega arith in
    let later : suc c + i ≡ c + suc i = omega arith in
    rw (whole, sym later) (ap (get_elem? es (c % length es) ∷◌) (cycle-append (suc c) i j es))

answers-eq-cycle :
    (j : ℕ) (r : UpstreamRegistry) (app : String) (counter : ℕ) (es : List UpstreamEndpoint)
    → Stands r app counter es
    → 0 < length es
    → counter + j < 2 ^ 64
    → answers j app r ≡ cycle counter j es
unfolding answers
answers-eq-cycle zero r app counter es s pos small = refl
answers-eq-cycle (suc j) r app counter es s pos small =
    let (s', here) = next-Stands r app counter es s pos (omega arith) in
    let later = answers-eq-cycle j (next r app).0 app (suc counter) es s' pos (omega arith) in
    rw (here, later) refl

-- counters that do not reach the end of the list answer with a part of it
cycle-part :
    (j c : ℕ) (es : List UpstreamEndpoint)
    → 0 < length es
    → c % length es + j ≤ length es
    → cycle c j es ≡ map (λ e. some e) (take j (drop (c % length es) es))
cycle-part zero c es pos fits = refl
cycle-part (suc zero) c es pos fits =
    let (e, here) = get_elem?-lt es (c % length es) (omega arith) in
    rw (here, drop-get_elem? es (c % length es) e here) refl
cycle-part (suc (suc j)) c es pos fits =
    let (e, here) = get_elem?-lt es (c % length es) (omega arith) in
    let more : suc c % length es ≡ suc (c % length es) =
      suc-mod c (length es) ∙ mod-eq_of_lt (omega arith) in
    let later = cycle-part (suc j) (suc c) es pos (omega (arith, more)) in
    rw (later, more, here, drop-get_elem? es (c % length es) e here) refl

cycle-around :
    (c : ℕ) (es : List UpstreamEndpoint)
    → 0 < length es
    → cycle c (length es) es
      ≡ map (λ e. some e) (drop (c % length es) es ++ take (c % length es) es)
cycle-around c es pos =
    let n = length es in
    let from = c % n in
    let below : from < n = mod-lt c pos in
    let whole : from + (n - from) ≡ n = omega (arith, below) in
    let split : (n - from) + from ≡ n = omega (arith, below) in
    let restart : (c + (n - from)) % n ≡ 0 =
      sym (mod-add-mod c n (n - from)) ∙ subst (λ k. k % n ≡ 0) (sym whole) (mod_self n) in
    let tail : take (n - from) (drop from es) ≡ drop from es =
      take_all (n - from) (drop from es) (omega (arith, length-drop from es)) in
    let first : cycle c (n - from) es ≡ map (λ e. some e) (drop from es) =
      subst (λ xs. cycle c (n - from) es ≡ map (λ e. some e) xs) tail
        (cycle-part (n - from) c es pos (omega (arith, whole))) in
    let second : cycle (c + (n - from)) from es ≡ map (λ e. some e) (take from es) =
      subst (λ k. cycle (c + (n - from)) from es ≡ map (λ e. some e) (take from (drop k es)))
        restart (cycle-part from (c + (n - from)) es pos (omega (arith, restart, below))) in
    subst (λ k. cycle c k es ≡ map (λ e. some e) (drop from es ++ take from es)) split
      (cycle-append c (n - from) from es
        ∙ rw (first, second) (sym (map-append (λ e. some e) (drop from es) (take from es))))

-- As many calls of `next` as an app has endpoints answer with each of its endpoints once, in the
-- order in which they were added, starting where the counter stands, as long as the counter does
-- not wrap around.
pub next-visits_all :
    (r : UpstreamRegistry) (app : String) (counter : ℕ) (es : List UpstreamEndpoint)
    → lookup app r.inner ≡ some (counter, es)
    → 0 < length es
    → counter + length es < 2 ^ 64
    → answers (length es) app r
      ≡ map (λ e. some e) (drop (counter % length es) es ++ take (counter % length es) es)
next-visits_all r app counter es s pos small =
    answers-eq-cycle (length es) r app counter es s pos small ∙ cycle-around counter es pos
