-- ===== src/Proxy/RateLimiter/Apart.antt =====
-- crates/proxy/src/rate_limiter.rs: apps do not share their buckets.
use wasm_cloud_platform.Common.{
  ◌≡◌, ◌∙◌, refl, sym, Bool, false, String, lookup, remove, retain_keys, or_insert, lookup-insert,
  lookup-remove, lookup-retain_keys, Instant, IpAddr, string_key, ip_addr_key, ◌==◌, ◌&&◌, not,
  arith, none, some, List, [], ◌∷◌,
}
use wasm_cloud_platform.Proxy.RateLimiter.{
  Float, RateLimitConfig, RateLimiter, ip_key, ip_key_key, get_app_config, set_app_config,
  remove_app_config, new_bucket, check_request, try_acquire,
}
use wasm_cloud_platform.Proxy.RateLimiter.Answers.{
  app_bucket, ip_bucket, answer, check_request-answer, check_request_config,
  app_bucket-check_request, ip_bucket-check_request,
}

-- what a node does with the limiter on behalf of one app
pub data Call : Type 0 where
  request : IpAddr → Instant → Call
  set_config : RateLimitConfig → Call
  remove_config : Call

and_false : (b : Bool) → (b && false) ≡ false
and_false b = ground arith

beq_sym : (s t : String) → (s == t) ≡ (t == s)
beq_sym s t = ground (arith, string_key.same_iff s t, string_key.same_iff t s)

module _ {W : Type 0} ⦃f : Float W⦄ where
  pub call : String → Call → RateLimiter W → RateLimiter W
  call app (request ip now) l = (check_request app ip now l).0
  call app (set_config c) l = set_app_config app c l
  call app remove_config l = remove_app_config app l

  unfoldable pub calls : String → List Call → RateLimiter W → RateLimiter W
  calls app [] l = l
  calls app (c ∷ rest) l = calls app rest (call app c l)

  -- the two limiters agree on all that a request of the app reads
  record Agrees (app : String) (l l' : RateLimiter W) : Type 0 where
    config : get_app_config app l ≡ get_app_config app l'
    of_app : (t : Instant) → app_bucket app t l ≡ app_bucket app t l'
    of_ip : (ip : IpAddr) (t : Instant) → ip_bucket app ip t l ≡ ip_bucket app ip t l'

  check_request-Agrees :
      (app : String) (ip : IpAddr) (t : Instant) (l l' : RateLimiter W)
      → Agrees app l l'
      → (check_request app ip t l).1 ≡ (check_request app ip t l').1
  check_request-Agrees app ip t l l' same =
      check_request-answer app ip t l
      ∙ (λ i.
          answer app ip (same.config i) (try_acquire t (same.of_app t i)).1
            (try_acquire t (same.of_ip ip t i)).1)
      ∙ sym (check_request-answer app ip t l')

  request-Agrees :
      (app other : String) (ip : IpAddr) (now : Instant) (l : RateLimiter W)
      → (app == other) ≡ false
      → Agrees other (check_request app ip now l).0 l
  request-Agrees app other ip now l apart = record {
    config = check_request_config app ip now l other;
    of_app = λ t. app_bucket-check_request app ip now l other t ∙ rw (apart) refl;
    of_ip = λ j t.
        ip_bucket-check_request app ip now l other j t
        ∙ rw (apart, and_false (try_acquire now (app_bucket app now l)).1) refl;
  }

  lookups-Agrees :
      (app : String) (l l' : RateLimiter W)
      → get_app_config app l ≡ get_app_config app l'
      → lookup app l.app_buckets ≡ lookup app l'.app_buckets
      → ((ip : IpAddr) → lookup (ip_key app ip) l.ip_buckets ≡ lookup (ip_key app ip) l'.ip_buckets)
      → Agrees app l l'
  lookups-Agrees app l l' config at_app at_ip = record {
    config = config;
    of_app = λ t. λ i. elim (at_app i) [
      | none ↦ new_bucket (config i).requests_per_second (config i).burst_capacity t
      | some b ↦ b
    ];
    of_ip = λ ip t. λ i. elim (at_ip ip i) [
      | none ↦ new_bucket (config i).per_ip_limit (config i).per_ip_limit t
      | some b ↦ b
    ];
  }

  drop_buckets-app :
      (app other : String) (l : RateLimiter W)
      → (app == other) ≡ false
      → lookup other (remove app l.app_buckets) ≡ lookup other l.app_buckets
  drop_buckets-app app other l apart = lookup-remove app other l.app_buckets ∙ rw (apart) refl

  drop_buckets-ip :
      (app other : String) (l : RateLimiter W)
      → (app == other) ≡ false
      → (ip : IpAddr)
      → lookup (ip_key other ip) (retain_keys (λ k. not (k.app_id == app)) l.ip_buckets)
        ≡ lookup (ip_key other ip) l.ip_buckets
  drop_buckets-ip app other l apart ip =
      lookup-retain_keys (λ k. not (k.app_id == app)) (ip_key other ip) l.ip_buckets
      ∙ rw (beq_sym other app, apart) refl

  call-Agrees :
      (app other : String) (c : Call) (l : RateLimiter W)
      → (app == other) ≡ false
      → Agrees other (call app c l) l
  unfolding set_app_config remove_app_config get_app_config call check_request
  call-Agrees app other (request ip now) l apart = request-Agrees app other ip now l apart
  call-Agrees app other (set_config c) l apart =
      lookups-Agrees other (set_app_config app c l) l
        (rw (or_insert, lookup-insert app other c l.configs, apart) refl)
        (drop_buckets-app app other l apart) (drop_buckets-ip app other l apart)
  call-Agrees app other remove_config l apart =
      lookups-Agrees other (remove_app_config app l) l
        (rw (or_insert, lookup-remove app other l.configs, apart) refl)
        (drop_buckets-app app other l apart) (drop_buckets-ip app other l apart)

  -- Whatever is done on behalf of one app, with any number of requests and with its configuration
  -- set or removed, a request of another app gets the answer that it would have got without it.
  pub check_request-calls :
      (app other : String) (ip : IpAddr) (t : Instant) (done : List Call) (l : RateLimiter W)
      → (app == other) ≡ false
      → (check_request other ip t (calls app done l)).1 ≡ (check_request other ip t l).1
  unfolding calls
  check_request-calls app other ip t [] l apart = refl
  check_request-calls app other ip t (c ∷ rest) l apart =
      check_request-calls app other ip t rest (call app c l) apart
      ∙ check_request-Agrees other ip t (call app c l) l (call-Agrees app other c l apart)
