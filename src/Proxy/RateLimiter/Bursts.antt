-- ===== src/Proxy/RateLimiter/Bursts.antt =====
-- crates/proxy/src/rate_limiter.rs: how many requests of one instant the limits of an app let
-- through, and what they leave for another address.
use wasm_cloud_platform.Common.{
  ℕ, zero, suc, ◌-◌, ◌≤◌, ◌<◌, ◌^◌, min, ◌≡◌, ◌∙◌, refl, ap, String, lookup, or_insert,
  lookup-insert, lookup-remove, lookup-retain_keys, Instant, IpAddr, string_key, ip_addr_key, ◌==◌,
  beq_refl, not, arith, none, some, err,
}
use wasm_cloud_platform.Proxy.RateLimiter.{
  Float, RateLimitConfig, RateLimiter, app_limit_exceeded, ip_key, ip_key_key, get_app_config,
  set_app_config, check_request, try_acquire, new_bucket,
}
use wasm_cloud_platform.Proxy.RateLimiter.Answers.{
  ip_bucket, answer, check_request-answer, check_request_config,
}
use wasm_cloud_platform.Proxy.RateLimiter.Stock.{
  acquire-empty, IsExact, requests, held, Stocked, requests-Stocked,
}

-- the sizes of a configuration are `u32`
pub record IsU32 (c : RateLimitConfig) : Type 0 where
  pub rate : c.requests_per_second < 2 ^ 32
  pub burst : c.burst_capacity < 2 ^ 32
  pub per_ip : c.per_ip_limit < 2 ^ 32

module _ {W : Type 0} ⦃f : Float W⦄ (exact : IsExact f) (now : Instant) (app : String)
    (c : RateLimitConfig) (words : IsU32 c) where
  abbrev IsStocked : IpAddr → ℕ → ℕ → RateLimiter W → Type 0
  IsStocked =
      Stocked exact now app c.requests_per_second c.burst_capacity c.per_ip_limit words.burst
        words.rate words.per_ip

  -- an app whose configuration is `c` and that has no buckets
  record IsFresh (l : RateLimiter W) : Type 0 where
    config : get_app_config app l ≡ c
    no_app : lookup app l.app_buckets ≡ none
    no_ip : (ip : IpAddr) → lookup (ip_key app ip) l.ip_buckets ≡ none

  fresh-Stocked :
      (ip : IpAddr) (l : RateLimiter W) → IsFresh l → IsStocked ip c.burst_capacity c.per_ip_limit l
  unfolding new_bucket
  fresh-Stocked ip l h = record {
    fits_app = omega arith;
    fits_ip = omega arith;
    of_app = λ k. elim (h.no_app k) [
      | none ↦ new_bucket (h.config k).requests_per_second (h.config k).burst_capacity now
      | some b ↦ b
    ];
    of_ip = λ k. elim (h.no_ip ip k) [
      | none ↦ new_bucket (h.config k).per_ip_limit (h.config k).per_ip_limit now
      | some b ↦ b
    ];
  }

  set_app_config-IsFresh : (l : RateLimiter W) → IsFresh (set_app_config app c l)
  unfolding set_app_config get_app_config
  set_app_config-IsFresh l = record {
    config = rw (or_insert, lookup-insert app app c l.configs, beq_refl app) refl;
    no_app = lookup-remove app app l.app_buckets ∙ rw (beq_refl app) refl;
    no_ip = λ ip.
        lookup-retain_keys (λ k. not (k.app_id == app)) (ip_key app ip) l.ip_buckets
        ∙ rw (beq_refl app) refl;
  }

  -- Of `n` requests of one address at one instant, right after the app's configuration was set,
  -- the burst capacity and the limit for an address let exactly the smaller of them through.
  pub requests-set_app_config :
      (ip : IpAddr) (n : ℕ) (l : RateLimiter W)
      → (requests app ip now n (set_app_config app c l)).1
        ≡ min n (min c.burst_capacity c.per_ip_limit)
  requests-set_app_config ip n l =
      (requests-Stocked exact now app c.requests_per_second c.burst_capacity c.per_ip_limit
        words.burst words.rate words.per_ip ip n c.burst_capacity c.per_ip_limit
        (set_app_config app c l)
        (fresh-Stocked ip (set_app_config app c l) (set_app_config-IsFresh l))).1

  requests_config :
      (ip : IpAddr) (n : ℕ) (l : RateLimiter W)
      → get_app_config app (requests app ip now n l).0 ≡ get_app_config app l
  unfolding requests
  requests_config ip zero l = refl
  requests_config ip (suc n) l =
      requests_config ip n (check_request app ip now l).0 ∙ check_request_config app ip now l app

  -- As many requests of one address as the burst capacity, sent at one instant right after the
  -- app's configuration was set, leave no token of the app: the request of any address that comes
  -- next at that instant is refused by the app's limit, however few of the first ones passed the
  -- limit for an address.
  pub requests-drain :
      (ip other : IpAddr) (n : ℕ) (l : RateLimiter W)
      → c.burst_capacity ≤ n
      → (check_request app other now (requests app ip now n (set_app_config app c l)).0).1
        ≡ err (app_limit_exceeded app c.requests_per_second)
  requests-drain ip other n l enough =
      let set = set_app_config app c l in
      let fresh = set_app_config-IsFresh l in
      let after = (requests app ip now n set).0 in
      let stocked =
        (requests-Stocked exact now app c.requests_per_second c.burst_capacity c.per_ip_limit
          words.burst words.rate words.per_ip ip n c.burst_capacity c.per_ip_limit set
          (fresh-Stocked ip set fresh)).0 in
      let none_left : c.burst_capacity - n ≡ 0 = omega (arith, enough) in
      let by_app =
        ap (try_acquire now)
          (stocked.of_app ∙ ap (held c.requests_per_second c.burst_capacity now) none_left)
        ∙ acquire-empty exact now c.requests_per_second c.burst_capacity words.burst words.rate in
      let config = requests_config ip n set ∙ fresh.config in
      check_request-answer app other now after ∙ (λ k.
        answer app other (config k) (by_app k).1
          (try_acquire now (ip_bucket app other now after)).1)
