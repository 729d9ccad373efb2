-- ===== src/Proxy/RateLimiter.antt =====
-- crates/proxy/src/rate_limiter.rs: token buckets for each app and for each app and client address.
-- A call takes the instant at which it runs, `now`, for every `Instant::now()` in it. `f64` is an
-- interface: what the code does with it, and no more.
pub mod Answers
pub mod Stock
pub mod Bursts
pub mod Apart
mod Tests
use wasm_cloud_platform.Common.{
  ℕ, ◌+◌, ◌*◌, ◌-◌, ◌≡◌, ◌↔◌, refl, Bool, true, false, not, ◌&&◌, Option, none, some, List, [], ◌∷◌,
  String, Map, lookup, insert, remove, or_insert, retain_keys, length, Key, Instant, IpAddr,
  duration_since, nanos_per_sec, u64, ltb, leb, Result, ok, err, string_key, ip_addr_key, ◌==◌,
  if◌then◌else◌, arith, filter,
}

-- the operations on `f64`; `as_secs_f64` takes nanoseconds
pub record Float (W : Type 0) : Type 0 where
  pub of_u32 : ℕ → W
  pub as_secs_f64 : ℕ → W
  pub add : W → W → W
  pub sub : W → W → W
  pub mul : W → W → W
  pub min : W → W → W
  pub ge : W → W → Bool

abbrev one : {W : Type 0} ⦃f : Float W⦄ → W
one ⦃f⦄ = f.of_u32 1

pub record RateLimitConfig : Type 0 where
  pub requests_per_second : ℕ
  pub burst_capacity : ℕ
  pub per_ip_limit : ℕ

abbrev pub default : RateLimitConfig
default = record { requests_per_second = 1000; burst_capacity = 50; per_ip_limit = 100 }

pub data RateLimitDenied : Type 0 where
  app_limit_exceeded : String → ℕ → RateLimitDenied
  ip_limit_exceeded : IpAddr → ℕ → RateLimitDenied

pub record SuccessCounter : Type 0 where
  pub total : ℕ
  pub last_minute : ℕ
  pub last_reset : Instant

-- `SuccessCounter::new`
unfoldable pub new_counter : Instant → SuccessCounter
new_counter now = record { total = 0; last_minute = 0; last_reset = now }

-- `SuccessCounter::record`
unfoldable pub count_success : SuccessCounter → Instant → SuccessCounter
count_success c now =
    if leb (60 * nanos_per_sec) (duration_since now c.last_reset)
    then record { total = u64 (c.total + 1); last_minute = 1; last_reset = now }
    else record c { total = u64 (c.total + 1); last_minute = u64 (c.last_minute + 1) }

-- the key `(app_id, ip)`
pub record IpKey : Type 0 where
  pub app_id : String
  pub ip : IpAddr

abbrev pub ip_key : String → IpAddr → IpKey
ip_key a i = record { app_id = a; ip = i }

abbrev ip_key_beq : IpKey → IpKey → Bool
ip_key_beq a b = a.app_id == b.app_id && a.ip == b.ip

pub ip_key_beq_iff : (a b : IpKey) → (ip_key_beq a b ≡ true) ↔ (a ≡ b)
ip_key_beq_iff a b =
    ground (arith, string_key.same_iff a.app_id b.app_id, ip_addr_key.same_iff a.ip b.ip)

instance abbrev pub ip_key_key : Key IpKey
ip_key_key = record { same = ip_key_beq; same_iff = ip_key_beq_iff }

pub record TokenBucket (W : Type 0) : Type 0 where
  pub tokens : W
  pub max_tokens : W
  pub refill_rate : W
  pub last_refill : Instant

pub record RateLimiter (W : Type 0) : Type 0 where
  pub app_buckets : Map String (TokenBucket W)
  pub ip_buckets : Map IpKey (TokenBucket W)
  pub configs : Map String RateLimitConfig
  pub default_config : RateLimitConfig
  pub success_counters : Map String SuccessCounter

module _ {W : Type 0} where
  unfoldable pub new : RateLimitConfig → RateLimiter W
  new c = record {
    app_buckets = [];
    ip_buckets = [];
    configs = [];
    default_config = c;
    success_counters = [];
  }

  unfoldable pub update_default_config : RateLimitConfig → RateLimiter W → RateLimiter W
  update_default_config c l = record l { default_config = c }

  pub read_default_config : RateLimiter W → RateLimitConfig
  read_default_config l = l.default_config

  abbrev drop_buckets : String → RateLimiter W → RateLimiter W
  drop_buckets app_id l = record l {
    app_buckets = remove app_id l.app_buckets;
    ip_buckets = retain_keys (λ k. not (k.app_id == app_id)) l.ip_buckets;
  }

  unfoldable pub set_app_config : String → RateLimitConfig → RateLimiter W → RateLimiter W
  set_app_config app_id config l =
      drop_buckets app_id (record l { configs = insert app_id config l.configs })

  unfoldable pub remove_app_config : String → RateLimiter W → RateLimiter W
  remove_app_config app_id l = drop_buckets app_id (record l { configs = remove app_id l.configs })

  unfoldable pub get_app_config : String → RateLimiter W → RateLimitConfig
  get_app_config app_id l = or_insert app_id l.default_config l.configs

  unfoldable pub record_success : String → Instant → RateLimiter W → RateLimiter W
  record_success app_id now l = record l {
    success_counters =
        insert app_id (count_success (or_insert app_id (new_counter now) l.success_counters) now)
          l.success_counters;
  }

  unfoldable pub get_success_stats : String → RateLimiter W → Option (ℕ × ℕ)
  get_success_stats app_id l = elim (lookup app_id l.success_counters) [
    | none ↦ none
    | some c ↦ some (c.total, c.last_minute)
  ]

  unfoldable pub prune_stale_ip_buckets : ℕ → Instant → RateLimiter W → RateLimiter W
  prune_stale_ip_buckets max_age now l = record l {
    ip_buckets = filter (λ e. ltb (duration_since now e.1.last_refill) max_age) l.ip_buckets;
  }

  module _ ⦃f : Float W⦄ where
    unfoldable pub new_bucket : ℕ → ℕ → Instant → TokenBucket W
    new_bucket rate_per_second burst now = record {
      tokens = f.of_u32 burst;
      max_tokens = f.of_u32 burst;
      refill_rate = f.of_u32 rate_per_second;
      last_refill = now;
    }

    -- the bucket with the tokens that the time since its last use brings
    unfoldable pub refilled : Instant → TokenBucket W → TokenBucket W
    refilled now b = record b {
      tokens =
          f.min
            (f.add b.tokens
              (f.mul (f.as_secs_f64 (duration_since now b.last_refill)) b.refill_rate))
            b.max_tokens;
      last_refill = now;
    }

    -- the bucket afterwards, and whether the request is allowed
    unfoldable pub try_acquire : Instant → TokenBucket W → TokenBucket W × Bool
    try_acquire now old =
        let b = refilled now old in
        if f.ge b.tokens one then (record b { tokens = f.sub b.tokens one }, true) else (b, false)

    -- `buckets.entry(key).or_insert_with(..).try_acquire()`
    unfoldable pub acquire :
        {K : Type 0} ⦃e : Key K⦄
        → K
        → TokenBucket W
        → Instant
        → Map K (TokenBucket W)
        → Map K (TokenBucket W) × Bool
    acquire key fresh now buckets =
        let taken = try_acquire now (or_insert key fresh buckets) in
        (insert key taken.0 buckets, taken.1)

    -- 2. Check per-IP limit
    unfoldable pub check_ip :
        String
        → IpAddr
        → RateLimitConfig
        → Instant
        → RateLimiter W
        → RateLimiter W × Result RateLimitDenied (Unit {0})
    check_ip app_id source_ip config now l =
        let taken =
          acquire (ip_key app_id source_ip) (new_bucket config.per_ip_limit config.per_ip_limit now)
            now l.ip_buckets in
        (
          record l { ip_buckets = taken.0 },
          if taken.1 then ok tt else err (ip_limit_exceeded source_ip config.per_ip_limit),
        )

    unfoldable pub check_request :
        String
        → IpAddr
        → Instant
        → RateLimiter W
        → RateLimiter W × Result RateLimitDenied (Unit {0})
    check_request app_id source_ip now l =
        let config = get_app_config app_id l in
        let taken =
          acquire app_id (new_bucket config.requests_per_second config.burst_capacity now) now
            l.app_buckets in
        let after = record l { app_buckets = taken.0 } in
        if taken.1
        then check_ip app_id source_ip config now after
        else (after, err (app_limit_exceeded app_id config.requests_per_second))
