-- ===== src/Proxy/RateLimiter/Answers.antt =====
-- crates/proxy/src/rate_limiter.rs: a request by the two buckets that it reads, and what it leaves
-- of every bucket.
use wasm_cloud_platform.Common.{
  ◌≡◌, refl, Bool, String, Map, Key, insert, or_insert, lookup-insert, Instant, IpAddr, string_key,
  ip_addr_key, ◌==◌, ◌&&◌, Bool-cases, inl, inr, Result, ok, err, if◌then◌else◌,
}
use wasm_cloud_platform.Proxy.RateLimiter.{
  Float, RateLimitConfig, RateLimiter, RateLimitDenied, app_limit_exceeded, ip_limit_exceeded,
  TokenBucket, ip_key, ip_key_key, get_app_config, check_request, check_ip, acquire, new_bucket,
  try_acquire,
}

-- the answer to a request, by its configuration and its two buckets
abbrev pub answer :
    String → IpAddr → RateLimitConfig → Bool → Bool → Result RateLimitDenied (Unit {0})
answer app ip config app_passes ip_passes =
    if app_passes
    then if ip_passes then ok tt else err (ip_limit_exceeded ip config.per_ip_limit)
    else err (app_limit_exceeded app config.requests_per_second)

pub or_insert-insert {ℓ} :
    {K V : Type ℓ} ⦃e : Key K⦄ (k j : K) (v d : V) (m : Map K V)
    → or_insert j d (insert k v m) ≡ (if k == j then v else or_insert j d m)
or_insert-insert ⦃e⦄ k j v d m = elim (Bool-cases (k == j)) [
  | inl same ↦ rw (same, or_insert, lookup-insert k j v m, same) refl
  | inr apart ↦ rw (apart, or_insert, lookup-insert k j v m, apart) refl
]

module _ {W : Type 0} ⦃f : Float W⦄ where
  -- the app's bucket that a request at `now` finds or makes
  abbrev pub app_bucket : String → Instant → RateLimiter W → TokenBucket W
  app_bucket app now l =
      let config = get_app_config app l in
      or_insert app (new_bucket config.requests_per_second config.burst_capacity now) l.app_buckets

  -- the address's bucket that a request at `now` finds or makes
  abbrev pub ip_bucket : String → IpAddr → Instant → RateLimiter W → TokenBucket W
  ip_bucket app ip now l =
      let limit = (get_app_config app l).per_ip_limit in
      or_insert (ip_key app ip) (new_bucket limit limit now) l.ip_buckets

  module _ (app : String) (ip : IpAddr) (now : Instant) (l : RateLimiter W) where
    abbrev app_passes : Bool
    app_passes = (try_acquire now (app_bucket app now l)).1

    abbrev after : RateLimiter W
    after = (check_request app ip now l).0

    pub check_request-answer :
        (check_request app ip now l).1
        ≡ answer app ip
            (get_app_config app l)
            app_passes
            (try_acquire now (ip_bucket app ip now l)).1
    unfolding check_request check_ip acquire
    check_request-answer = elim (Bool-cases app_passes) [
      | inl passes ↦ rw (passes, after) refl
      | inr refused ↦ rw (refused, after) refl
    ]

    pub check_request_config :
        (other : String) → get_app_config other after ≡ get_app_config other l
    unfolding check_request check_ip acquire get_app_config
    check_request_config other = elim (Bool-cases app_passes) [
      | inl passes ↦ rw (passes, after) refl
      | inr refused ↦ rw (refused, after) refl
    ]

    app_buckets-check_request :
        after.app_buckets ≡ insert app (try_acquire now (app_bucket app now l)).0 l.app_buckets
    unfolding check_request check_ip acquire
    app_buckets-check_request = elim (Bool-cases app_passes) [
      | inl passes ↦ rw (passes, after) refl
      | inr refused ↦ rw (refused, after) refl
    ]

    ip_buckets-check_request : after.ip_buckets ≡ (
        if app_passes
        then insert (ip_key app ip) (try_acquire now (ip_bucket app ip now l)).0 l.ip_buckets
        else l.ip_buckets)
    unfolding check_request check_ip acquire
    ip_buckets-check_request = elim (Bool-cases app_passes) [
      | inl passes ↦ rw (passes, after) refl
      | inr refused ↦ rw (refused, after) refl
    ]

    -- what a request leaves of the bucket of any app
    pub app_bucket-check_request :
        (other : String) (t : Instant)
        → app_bucket other t after ≡ (
            if app == other
            then (try_acquire now (app_bucket app now l)).0
            else app_bucket other t l)
    app_bucket-check_request other t = elim (Bool-cases (app == other)) [
      | inl same ↦
          rw (app_buckets-check_request, or_insert-insert app other _ _ l.app_buckets, same) refl
      | inr apart ↦
          rw
            (
              check_request_config other,
              app_buckets-check_request,
              or_insert-insert app other _ _ l.app_buckets,
              apart,
            )
            refl
    ]

    -- what a request leaves of the bucket of any app and address
    pub ip_bucket-check_request :
        (other : String) (j : IpAddr) (t : Instant)
        → ip_bucket other j t after ≡ (
            if app_passes && (ip_key app ip == ip_key other j)
            then (try_acquire now (ip_bucket app ip now l)).0
            else ip_bucket other j t l)
    ip_bucket-check_request other j t = elim (Bool-cases app_passes) [
      | inl passes ↦ elim (Bool-cases (ip_key app ip == ip_key other j)) [
        | inl same ↦
            rw
              (
                ip_buckets-check_request,
                passes,
                or_insert-insert (ip_key app ip) (ip_key other j) _ _ l.ip_buckets,
                same,
              )
              refl
        | inr apart ↦
            rw
              (
                check_request_config other,
                ip_buckets-check_request,
                passes,
                or_insert-insert (ip_key app ip) (ip_key other j) _ _ l.ip_buckets,
                apart,
              )
              refl
      ]
      | inr refused ↦ rw (check_request_config other, ip_buckets-check_request, refused) refl
    ]
