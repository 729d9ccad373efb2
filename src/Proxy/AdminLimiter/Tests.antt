-- ===== src/Proxy/AdminLimiter/Tests.antt =====
-- crates/proxy/src/auth_middleware: concrete requests, with `f64` by whole numbers.
use wasm_cloud_platform.Common.{
  ℕ, ◌+◌, ◌*◌, ◌-◌, ◌/◌, min, ◌≡◌, refl, true, false, Option, none, some, [], ◌∷◌, Text, leb,
  IpAddr, v4, SocketAddr, nanos_per_sec, lookup, insert, codes, length, trim, trim_start, ◌==◌,
  ip_addr_key,
}
use wasm_cloud_platform.Proxy.RateLimiter.{Float}
use wasm_cloud_platform.Proxy.AdminLimiter.{
  AdminRateLimiter, HeaderMap, new, disabled, refill, take, take_from, allow, prune_stale,
  first_part, forwarded_for, extract_forwarded_client_ip, peer_is_trusted, extract_client_ip,
}
use wasm_cloud_platform.Proxy.AdminLimiter.Apart.{allow-extract_client_ip}

instance abbrev whole : Float ℕ
whole = record {
  of_u32 = λ n. n;
  as_secs_f64 = λ d. d / nanos_per_sec;
  add = λ a b. a + b;
  sub = λ a b. a - b;
  mul = λ a b. a * b;
  min = min;
  ge = λ a b. leb b a;
}

abbrev limiter : AdminRateLimiter ℕ
limiter = new 1 1

abbrev once : AdminRateLimiter ℕ
once = (allow (some (v4 1)) 0 limiter).0

second_refused : (allow (some (v4 1)) 0 once).1 ≡ false
unfolding allow take_from new refill take lookup insert
second_refused = refl

other_allowed : (allow (some (v4 2)) 0 once).1 ≡ true
unfolding allow take_from new refill take lookup insert
other_allowed = refl

next_second : (allow (some (v4 1)) nanos_per_sec once).1 ≡ true
unfolding allow take_from new refill take lookup insert
next_second = refl

never_refused : (allow ⦃f = whole⦄ (some (v4 1)) 0 disabled).1 ≡ true
unfolding allow disabled
never_refused = refl

pruned : length (prune_stale 300 300 once).buckets ≡ 0
unfolding prune_stale allow take_from new refill take lookup insert
pruned = refl

-- an address is one character
abbrev parse : Text → Option IpAddr
parse [] = none
parse (c ∷ []) = some (v4 c)
parse (_ ∷ _ ∷ _) = none

abbrev spoofed : HeaderMap
spoofed = record { x_forwarded_for = some (some (codes "9,7")); x_real_ip = none }

abbrev client : SocketAddr
client = record { ip = v4 1; port = 80 }

abbrev peer : Option SocketAddr
peer = some client

from_proxy : extract_client_ip parse (λ net ip. net == ip) spoofed peer (v4 1 ∷ []) ≡ some (v4 57)
unfolding extract_client_ip peer_is_trusted extract_forwarded_client_ip forwarded_for first_part
    trim trim_start
from_proxy = refl

not_from_proxy :
    extract_client_ip parse (λ net ip. net == ip) spoofed peer (v4 2 ∷ []) ≡ some (v4 1)
unfolding extract_client_ip peer_is_trusted extract_forwarded_client_ip forwarded_for first_part
    trim trim_start
not_from_proxy = refl

not_trusted : peer_is_trusted (λ net ip. net == ip) client.ip (v4 2 ∷ []) ≡ false
unfolding peer_is_trusted
not_trusted = refl

allow-extract_client_ip_example :
    (allow
      (some (v4 57))
      0
      (allow
        (extract_client_ip parse (λ net ip. net == ip) spoofed peer (v4 2 ∷ []))
        0
        limiter).0).1
    ≡ (allow (some (v4 57)) 0 limiter).1
allow-extract_client_ip_example =
    allow-extract_client_ip parse (λ net ip. net == ip) spoofed client (v4 2 ∷ []) (v4 57) 0 0
      limiter not_trusted refl
