-- ===== src/Proxy/RateLimiter/Tests.antt =====
-- crates/proxy/src/rate_limiter.rs: concrete limiters, with `f64` by whole numbers.
use wasm_cloud_platform.Common.{
  ℕ, ◌+◌, ◌*◌, ◌-◌, ◌/◌, min, ◌≡◌, refl, some, [], ◌∷◌, leb, ok, err, IpAddr, v4, nanos_per_sec,
  length, arith, lookup, insert, remove, retain_keys,
}
use wasm_cloud_platform.Proxy.RateLimiter.{
  Float, RateLimitConfig, RateLimiter, app_limit_exceeded, default, new, get_app_config,
  set_app_config, remove_app_config, update_default_config, check_request, acquire, try_acquire,
  refilled, new_bucket, check_ip, count_success, new_counter, record_success, get_success_stats,
  prune_stale_ip_buckets,
}
use wasm_cloud_platform.Proxy.RateLimiter.Stock.{IsExact, requests}
use wasm_cloud_platform.Proxy.RateLimiter.Apart.{request, remove_config, calls, check_request-calls}
use wasm_cloud_platform.Proxy.RateLimiter.Bursts.{IsU32, requests-set_app_config, requests-drain}

-- whole tokens and seconds
instance abbrev whole : Float ℕ
whole = record {
  of_u32 = λ n. n;
  as_secs_f64 = λ d. d / nanos_per_sec;
  add = λ a b. a + b;
  sub = λ a b. a - b;
  mul = λ a b. a * b;
  min = min;
  ge = λ a b. leb b a;
}

whole-IsExact : IsExact whole
whole-IsExact = record {
  no_time = refl;
  mul_zero = λ n small. omega arith;
  add_zero = λ n small. omega arith;
  min_left = λ n m le small. omega (arith, le);
  zero_below = refl;
  ge_one = λ n small. ground arith;
  sub_one = λ n small. omega arith;
}

abbrev tight : RateLimitConfig
tight = record { requests_per_second = 10; burst_capacity = 3; per_ip_limit = 1 }

tight-IsU32 : IsU32 tight
tight-IsU32 = record { rate = omega arith; burst = omega arith; per_ip = omega arith }

abbrev fresh : RateLimiter ℕ
fresh = new default

abbrev shop : RateLimiter ℕ
shop = set_app_config "shop" tight fresh

abbrev alice : IpAddr
alice = v4 1

abbrev bob : IpAddr
bob = v4 2

second_refused : (requests "shop" alice 0 2 shop).1 ≡ 1
unfolding requests check_request set_app_config acquire try_acquire refilled lookup remove new
    new_bucket get_app_config insert check_ip retain_keys
second_refused = refl

refilled_later :
    (check_request "shop" alice nanos_per_sec (requests "shop" alice 0 3 shop).0).1 ≡ ok tt
unfolding requests check_request set_app_config acquire try_acquire refilled lookup remove new
    new_bucket get_app_config insert check_ip retain_keys
refilled_later = refl

config_removed : get_app_config "shop" (remove_app_config "shop" shop) ≡ default
unfolding get_app_config remove_app_config set_app_config update_default_config lookup remove insert
    new
config_removed = refl

new_default : get_app_config "blog" (update_default_config tight fresh) ≡ tight
unfolding get_app_config remove_app_config set_app_config update_default_config lookup remove insert
    new
new_default = refl

two_successes :
    get_success_stats "shop" (record_success "shop" 5 (record_success "shop" 0 fresh)) ≡ some (2, 2)
unfolding record_success get_success_stats lookup insert new count_success new_counter
two_successes = refl

next_minute :
    get_success_stats "shop"
      (record_success "shop" (60 * nanos_per_sec) (record_success "shop" 0 fresh))
    ≡ some (2, 1)
unfolding record_success get_success_stats lookup insert new count_success new_counter
next_minute = refl

pruned :
    length (prune_stale_ip_buckets 300 300 (check_request "shop" alice 0 shop).0).ip_buckets ≡ 0
unfolding prune_stale_ip_buckets check_request set_app_config acquire try_acquire refilled lookup
    remove new new_bucket get_app_config insert check_ip retain_keys
pruned = refl

requests-set_app_config_example : (requests "shop" alice 7 5 shop).1 ≡ min 5 (min 3 1)
requests-set_app_config_example =
    requests-set_app_config whole-IsExact 7 "shop" tight tight-IsU32 alice 5 fresh

requests-drain_example :
    (check_request "shop" bob 7 (requests "shop" alice 7 3 shop).0).1
    ≡ err (app_limit_exceeded "shop" 10)
requests-drain_example =
    requests-drain whole-IsExact 7 "shop" tight tight-IsU32 alice bob 3 fresh (omega arith)

check_request-calls_example :
    (check_request "blog" bob 9
      (calls "shop" (request alice 0 ∷ request alice 1 ∷ remove_config ∷ []) shop)).1
    ≡ (check_request "blog" bob 9 shop).1
check_request-calls_example =
    check_request-calls "shop" "blog" bob 9 (request alice 0 ∷ request alice 1 ∷ remove_config ∷ [])
      shop refl
