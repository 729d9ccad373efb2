-- ===== src/Proxy/AdminLimiter.antt =====
-- crates/proxy/src/auth_middleware: the rate limiter of the admin API (rate_limit.rs) and the
-- address that it counts a request for (client_ip.rs). `f64` is the interface of the app limiter;
-- `parse_ip` is the parser of addresses, `contains` the membership test of the `ipnet` crate.
pub mod Apart
mod Tests
use wasm_cloud_platform.Common.{
  ℕ, Bool, true, false, Option, none, some, List, [], ◌∷◌, Text, Map, insert, or_insert, filter,
  any, Instant, IpAddr, SocketAddr, ip_addr_key, nat_key, duration_since, ltb, if◌then◌else◌, trim,
  ◌==◌,
}
use wasm_cloud_platform.Proxy.RateLimiter.{Float}

pub record TokenBucket (W : Type 0) : Type 0 where
  pub tokens : W
  pub last_refill : Instant

pub record AdminRateLimiter (W : Type 0) : Type 0 where
  pub buckets : Map IpAddr (TokenBucket W)
  pub refill_rate : W
  pub max_tokens : W

module _ {W : Type 0} ⦃f : Float W⦄ where
  unfoldable pub new : ℕ → ℕ → AdminRateLimiter W
  new rate_per_second burst = record {
    buckets = [];
    refill_rate = f.of_u32 rate_per_second;
    max_tokens = f.of_u32 burst;
  }

  unfoldable pub disabled : AdminRateLimiter W
  disabled = record { buckets = []; refill_rate = f.of_u32 1000000; max_tokens = f.of_u32 1000000 }

  -- the bucket with the tokens that the time since its last use brings
  unfoldable pub refill : Instant → AdminRateLimiter W → TokenBucket W → TokenBucket W
  refill now l b = record {
    tokens =
        f.min
          (f.add b.tokens (f.mul (f.as_secs_f64 (duration_since now b.last_refill)) l.refill_rate))
          l.max_tokens;
    last_refill = now;
  }

  unfoldable pub take : TokenBucket W → TokenBucket W × Bool
  take b =
      if f.ge b.tokens (f.of_u32 1)
      then (record b { tokens = f.sub b.tokens (f.of_u32 1) }, true)
      else (b, false)

  -- `allow` of a limiter that is not disabled
  unfoldable pub take_from : IpAddr → Instant → AdminRateLimiter W → AdminRateLimiter W × Bool
  take_from ip now l =
      let fresh : TokenBucket W = record { tokens = l.max_tokens; last_refill = now } in
      let taken = take (refill now l (or_insert ip fresh l.buckets)) in
      (record l { buckets = insert ip taken.0 l.buckets }, taken.1)

  unfoldable pub allow : Option IpAddr → Instant → AdminRateLimiter W → AdminRateLimiter W × Bool
  allow none now l = (l, true)
  allow (some ip) now l =
      if f.ge l.max_tokens (f.of_u32 1000000) then (l, true) else take_from ip now l

  unfoldable pub prune_stale : ℕ → Instant → AdminRateLimiter W → AdminRateLimiter W
  prune_stale max_age now l = record l {
    buckets = filter (λ e. ltb (duration_since now e.1.last_refill) max_age) l.buckets;
  }

-- The two headers that are read, where they are there; `some none` is one that is no visible text.
pub record HeaderMap : Type 0 where
  pub x_forwarded_for : Option (Option Text)
  pub x_real_ip : Option (Option Text)

-- `val.split(',').next()`
unfoldable pub first_part : Text → Text
first_part [] = []
first_part (c ∷ cs) = let rest = first_part cs in if c == 44 then [] else c ∷ rest

unfoldable pub peer_is_trusted : {Net : Type 0} → (Net → IpAddr → Bool) → IpAddr → List Net → Bool
peer_is_trusted contains peer_ip trusted_proxies = any (λ net. contains net peer_ip) trusted_proxies

module _ (parse_ip : Text → Option IpAddr) where
  unfoldable pub real_ip : Option (Option Text) → Option IpAddr
  real_ip none = none
  real_ip (some none) = none
  real_ip (some (some val)) = parse_ip val

  unfoldable pub forwarded_for : Option (Option Text) → Option IpAddr
  forwarded_for none = none
  forwarded_for (some none) = none
  forwarded_for (some (some val)) = parse_ip (trim (first_part val))

  unfoldable pub extract_forwarded_client_ip : HeaderMap → Option IpAddr
  extract_forwarded_client_ip h = elim (forwarded_for h.x_forwarded_for) [
    | some ip ↦ some ip
    | none ↦ real_ip h.x_real_ip
  ]

  module _ {Net : Type 0} (contains : Net → IpAddr → Bool) where
    unfoldable pub extract_client_ip : HeaderMap → Option SocketAddr → List Net → Option IpAddr
    extract_client_ip h none trusted_proxies = none
    extract_client_ip h (some peer) trusted_proxies =
        if peer_is_trusted contains peer.ip trusted_proxies
        then elim (extract_forwarded_client_ip h) [ some ip ↦ some ip | none ↦ some peer.ip ]
        else some peer.ip
