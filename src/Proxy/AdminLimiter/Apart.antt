-- ===== src/Proxy/AdminLimiter/Apart.antt =====
-- crates/proxy/src/auth_middleware: whose tokens a request of the admin API takes.
use wasm_cloud_platform.Common.{
  ◌≡◌, ◌∙◌, refl, sym, ap, Bool, true, false, Option, some, List, Text, Instant, IpAddr, SocketAddr,
  ip_addr_key, ◌==◌, Bool-cases, inl, inr,
}
use wasm_cloud_platform.Proxy.RateLimiter.{Float}
use wasm_cloud_platform.Proxy.RateLimiter.Answers.{or_insert-insert}
use wasm_cloud_platform.Proxy.AdminLimiter.{
  AdminRateLimiter, HeaderMap, refill, take, take_from, allow, peer_is_trusted, extract_client_ip,
}

module _ {W : Type 0} ⦃f : Float W⦄ where
  take_from-take_from :
      (ip other : IpAddr) (now t : Instant) (l : AdminRateLimiter W)
      → (ip == other) ≡ false
      → (take_from other t (take_from ip now l).0).1 ≡ (take_from other t l).1
  unfolding take_from refill
  take_from-take_from ip other now t l apart =
      ap (λ b. (take (refill t l b)).1)
        (or_insert-insert ip other _ (record { tokens = l.max_tokens; last_refill = t }) l.buckets
          ∙ rw (apart) refl)

  allow-off :
      (ip : IpAddr) (now : Instant) (l : AdminRateLimiter W)
      → f.ge l.max_tokens (f.of_u32 1000000) ≡ true
      → allow (some ip) now l ≡ (l, true)
  unfolding allow
  allow-off ip now l off = rw (off) refl

  allow-on :
      (ip : IpAddr) (now : Instant) (l : AdminRateLimiter W)
      → f.ge l.max_tokens (f.of_u32 1000000) ≡ false
      → allow (some ip) now l ≡ take_from ip now l
  unfolding allow
  allow-on ip now l on = rw (on) refl

  allow-allow :
      (ip other : IpAddr) (now t : Instant) (l : AdminRateLimiter W)
      → (ip == other) ≡ false
      → (allow (some other) t (allow (some ip) now l).0).1 ≡ (allow (some other) t l).1
  unfolding take_from
  allow-allow ip other now t l apart = elim (Bool-cases (f.ge l.max_tokens (f.of_u32 1000000))) [
    | inl off ↦ ap (λ r. (allow (some other) t r.0).1) (allow-off ip now l off)
    | inr on ↦
        ap (λ r. (allow (some other) t r.0).1) (allow-on ip now l on)
        ∙ ap (λ r. r.1) (allow-on other t (take_from ip now l).0 on)
        ∙ take_from-take_from ip other now t l apart
        ∙ sym (ap (λ r. r.1) (allow-on other t l on))
  ]

  -- Whatever forwarding headers a client sends that is no trusted proxy: the requests of every
  -- other address get the answers that they would have got without its request.
  pub allow-extract_client_ip :
      {Net : Type 0} (parse_ip : Text → Option IpAddr) (contains : Net → IpAddr → Bool)
      (headers : HeaderMap) (peer : SocketAddr) (nets : List Net) (other : IpAddr) (now t : Instant)
      (l : AdminRateLimiter W)
      → peer_is_trusted contains peer.ip nets ≡ false
      → (peer.ip == other) ≡ false
      → (allow
          (some other)
          t
          (allow (extract_client_ip parse_ip contains headers (some peer) nets) now l).0).1
        ≡ (allow (some other) t l).1
  unfolding extract_client_ip
  allow-extract_client_ip parse_ip contains headers peer nets other now t l untrusted apart =
      rw (untrusted) (allow-allow peer.ip other now t l apart)
