-- ===== src/Proxy/RateLimiter/Stock.antt =====
-- crates/proxy/src/rate_limiter.rs: the two buckets of an address by the tokens that they hold.
use wasm_cloud_platform.Common.{
  ℕ, zero, suc, ◌+◌, ◌-◌, ◌≤◌, ◌<◌, ◌^◌, min, ◌≡◌, ◌∙◌, refl, ap, subst, Bool, true, false, String,
  Instant, IpAddr, string_key, ip_addr_key, ◌==◌, ◌&&◌, if◌then◌else◌, beq_refl, arith, Result, ok,
  err, duration_since,
}
use wasm_cloud_platform.Proxy.RateLimiter.{
  Float, RateLimiter, RateLimitDenied, app_limit_exceeded, TokenBucket, ip_key, ip_key_key,
  get_app_config, check_request, try_acquire, refilled, one,
}
use wasm_cloud_platform.Proxy.RateLimiter.Answers.{
  app_bucket, ip_bucket, answer, check_request-answer, app_bucket-check_request,
  ip_bucket-check_request,
}

-- `f64` is exact on the whole numbers below 2^32, as IEEE 754 has it for those up to 2^53
pub record IsExact {W : Type 0} (f : Float W) : Type 0 where
  pub no_time : f.as_secs_f64 0 ≡ f.of_u32 0
  pub mul_zero : (n : ℕ) → n < 2 ^ 32 → f.mul (f.of_u32 0) (f.of_u32 n) ≡ f.of_u32 0
  pub add_zero : (n : ℕ) → n < 2 ^ 32 → f.add (f.of_u32 n) (f.of_u32 0) ≡ f.of_u32 n
  pub min_left : (n m : ℕ) → n ≤ m → m < 2 ^ 32 → f.min (f.of_u32 n) (f.of_u32 m) ≡ f.of_u32 n
  pub zero_below : f.ge (f.of_u32 0) (f.of_u32 1) ≡ false
  pub ge_one : (n : ℕ) → suc n < 2 ^ 32 → f.ge (f.of_u32 (suc n)) (f.of_u32 1) ≡ true
  pub sub_one : (n : ℕ) → suc n < 2 ^ 32 → f.sub (f.of_u32 (suc n)) (f.of_u32 1) ≡ f.of_u32 n

abbrev pub is_ok : Result RateLimitDenied (Unit {0}) → ℕ
is_ok (ok _) = 1
is_ok (err _) = 0

and_true : (b : Bool) → (b && true) ≡ b
and_true b = ground arith

module _ {W : Type 0} ⦃f : Float W⦄ where
  -- `n` requests of one address at the instant `now`: the limiter afterwards, and how many passed
  unfoldable pub requests : String → IpAddr → Instant → ℕ → RateLimiter W → RateLimiter W × ℕ
  requests app ip now zero l = (l, 0)
  requests app ip now (suc n) l =
      let sent = check_request app ip now l in
      let rest = requests app ip now n sent.0 in (rest.0, is_ok sent.1 + rest.1)

  -- a bucket of the rate and the size that holds `n` tokens at `now`
  abbrev pub held : ℕ → ℕ → Instant → ℕ → TokenBucket W
  held rate size now n = record {
    tokens = f.of_u32 n;
    max_tokens = f.of_u32 size;
    refill_rate = f.of_u32 rate;
    last_refill = now;
  }

  module _ (exact : IsExact f) (now : Instant) where
    now-now : now - now ≡ 0
    now-now = omega arith

    refilled-held :
        (rate size n : ℕ)
        → n ≤ size
        → size < 2 ^ 32
        → rate < 2 ^ 32
        → refilled now (held rate size now n) ≡ held rate size now n
    unfolding refilled
    refilled-held rate size n fits small slow =
        rw
          (
            duration_since,
            now-now,
            exact.no_time,
            exact.mul_zero rate slow,
            exact.add_zero n (omega arith),
            exact.min_left n size fits small,
          )
          refl

    pub acquire-empty :
        (rate size : ℕ)
        → size < 2 ^ 32
        → rate < 2 ^ 32
        → try_acquire now (held rate size now 0) ≡ (held rate size now 0, false)
    unfolding try_acquire
    acquire-empty rate size small slow =
        rw (refilled-held rate size 0 (omega arith) small slow, one, exact.zero_below) refl

    acquire-full :
        (rate size n : ℕ)
        → suc n ≤ size
        → size < 2 ^ 32
        → rate < 2 ^ 32
        → try_acquire now (held rate size now (suc n)) ≡ (held rate size now n, true)
    unfolding try_acquire
    acquire-full rate size n fits small slow =
        rw
          (
            refilled-held rate size (suc n) fits small slow,
            one,
            exact.ge_one n (omega arith),
            exact.sub_one n (omega arith),
          )
          refl

    module _ (app : String) (rate size limit : ℕ) (small : size < 2 ^ 32) (slow : rate < 2 ^ 32)
        (few : limit < 2 ^ 32) where
      -- the app's bucket holds `a` tokens and that of the address `i`
      pub record Stocked (ip : IpAddr) (a i : ℕ) (l : RateLimiter W) : Type 0 where
        pub fits_app : a ≤ size
        pub fits_ip : i ≤ limit
        pub of_app : app_bucket app now l ≡ held rate size now a
        pub of_ip : ip_bucket app ip now l ≡ held limit limit now i

      same_key : (ip : IpAddr) → (ip_key app ip == ip_key app ip) ≡ true
      same_key ip = beq_refl (ip_key app ip)

      module _ (ip : IpAddr) (l : RateLimiter W) where
        abbrev sent : RateLimiter W × Result RateLimitDenied (Unit {0})
        sent = check_request app ip now l

        -- the request by what the two buckets answer
        sent_lem :
            (a : ℕ) (passes : Bool) (taken : TokenBucket W × Bool)
            → try_acquire now (app_bucket app now l) ≡ (held rate size now a, passes)
            → try_acquire now (ip_bucket app ip now l) ≡ taken
            → (app_bucket app now sent.0 ≡ held rate size now a)
              × (ip_bucket app ip now sent.0 ≡ (if passes then taken.0 else ip_bucket app ip now l))
              × (sent.1 ≡ answer app ip (get_app_config app l) passes taken.1)
        sent_lem a passes taken by_app by_ip = (
          app_bucket-check_request app ip now l app now
              ∙ (λ k. if beq_refl app k then (by_app k).0 else app_bucket app now l),
          ip_bucket-check_request app ip now l app ip now
              ∙ (λ k. if (by_app k).1 && same_key ip k then (by_ip k).0 else ip_bucket app ip now l)
              ∙ ap (λ b. if b then taken.0 else ip_bucket app ip now l) (and_true passes),
          check_request-answer app ip now l
              ∙ (λ k. answer app ip (get_app_config app l) (by_app k).1 (by_ip k).1),
        )

        pub refused_by_app :
            (i : ℕ)
            → Stocked ip 0 i l
            → Stocked ip 0 i sent.0
              × (sent.1 ≡ err (app_limit_exceeded app (get_app_config app l).requests_per_second))
        refused_by_app i h =
            let sending =
              sent_lem 0 false _
                (ap (try_acquire now) h.of_app ∙ acquire-empty rate size small slow) refl in
            (
              record {
                fits_app = h.fits_app;
                fits_ip = h.fits_ip;
                of_app = sending.0;
                of_ip = sending.1 ∙ h.of_ip;
              },
              sending.2,
            )

        refused_by_ip :
            (a : ℕ) → Stocked ip (suc a) 0 l → Stocked ip a 0 sent.0 × (is_ok sent.1 ≡ 0)
        refused_by_ip a h =
            let sending =
              sent_lem a true (held limit limit now 0, false)
                (ap (try_acquire now) h.of_app ∙ acquire-full rate size a h.fits_app small slow)
                (ap (try_acquire now) h.of_ip ∙ acquire-empty limit limit few few) in
            (
              record {
                fits_app = omega (arith, h.fits_app);
                fits_ip = h.fits_ip;
                of_app = sending.0;
                of_ip = sending.1;
              },
              ap is_ok sending.2,
            )

        passed :
            (a i : ℕ) → Stocked ip (suc a) (suc i) l → Stocked ip a i sent.0 × (is_ok sent.1 ≡ 1)
        passed a i h =
            let sending =
              sent_lem a true (held limit limit now i, true)
                (ap (try_acquire now) h.of_app ∙ acquire-full rate size a h.fits_app small slow)
                (ap (try_acquire now) h.of_ip ∙ acquire-full limit limit i h.fits_ip few few) in
            (
              record {
                fits_app = omega (arith, h.fits_app);
                fits_ip = omega (arith, h.fits_ip);
                of_app = sending.0;
                of_ip = sending.1;
              },
              ap is_ok sending.2,
            )

      at_counts :
          {ip : IpAddr} {a a' i i' : ℕ} {l : RateLimiter W}
          → a ≡ a'
          → i ≡ i'
          → Stocked ip a i l
          → Stocked ip a' i' l
      at_counts {ip} {l = l} p q h =
          subst {A = ℕ × ℕ} (λ c. Stocked ip c.0 c.1 l) (λ k. (p k, q k)) h

      pub requests-Stocked :
          (ip : IpAddr) (n a i : ℕ) (l : RateLimiter W)
          → Stocked ip a i l
          → Stocked ip (a - n) (i - min n a) (requests app ip now n l).0
            × ((requests app ip now n l).1 ≡ min n (min a i))
      unfolding requests
      requests-Stocked ip zero a i l h = (at_counts (omega arith) (omega arith) h, omega arith)
      requests-Stocked ip (suc n) zero i l h =
          let sending = refused_by_app ip l i h in
          let rest = requests-Stocked ip n 0 i (check_request app ip now l).0 sending.0 in
          (at_counts (omega arith) (omega arith) rest.0, omega (arith, ap is_ok sending.1, rest.1))
      requests-Stocked ip (suc n) (suc a) zero l h =
          let sending = refused_by_ip ip l a h in
          let rest = requests-Stocked ip n a 0 (check_request app ip now l).0 sending.0 in
          (at_counts (omega arith) (omega arith) rest.0, omega (arith, sending.1, rest.1))
      requests-Stocked ip (suc n) (suc a) (suc i) l h =
          let sending = passed ip l a i h in
          let rest = requests-Stocked ip n a i (check_request app ip now l).0 sending.0 in
          (at_counts (omega arith) (omega arith) rest.0, omega (arith, sending.1, rest.1))
