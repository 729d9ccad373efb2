-- ===== src/Common/Words.antt =====
-- Machine words as natural numbers with the wrap-around written out, and instants of time.
use mathlib.Core.Path.{◌≡◌}
use mathlib.Core.Logic.{◌↔◌}
use mathlib.Core.Bool.{Bool, true, false, ◌&&◌}
use native.Mathlib.Omega.{arith}
use wasm_cloud_platform.Common.Tests.{nat_beq, Key}
use Prim.Native.Nat.{ℕ, ◌+◌, ◌-◌, ◌/◌, ◌%◌, ◌^◌}

abbrev pub u32 : ℕ → ℕ
u32 n = n % 2 ^ 32

abbrev pub u64 : ℕ → ℕ
u64 n = n % 2 ^ 64

-- An `Instant` is a count of nanoseconds of a clock that never runs back.
abbrev pub Instant : Type 0
Instant = ℕ

abbrev pub nanos_per_sec : ℕ
nanos_per_sec = 1000000000

-- `now.duration_since(then)` and `then.elapsed()`: a duration that saturates at zero.
abbrev pub duration_since : Instant → Instant → ℕ
duration_since now then_at = now - then_at

-- `Duration::as_secs`
abbrev pub as_secs : ℕ → ℕ
as_secs d = d / nanos_per_sec

-- `std::net::IpAddr` by its bits, and `SocketAddr`.
pub data IpAddr : Type 0 where
  v4 v6 : ℕ → IpAddr

pub record SocketAddr : Type 0 where
  pub ip : IpAddr
  pub port : ℕ

abbrev pub ip_beq : IpAddr → IpAddr → Bool
ip_beq (v4 a) (v4 b) = nat_beq a b
ip_beq (v6 a) (v6 b) = nat_beq a b
ip_beq _ _ = false

pub ip_beq_iff : (a b : IpAddr) → (ip_beq a b ≡ true) ↔ (a ≡ b)
ip_beq_iff a b = ground arith

instance abbrev pub ip_addr_key : Key IpAddr
ip_addr_key = record { same = ip_beq; same_iff = ip_beq_iff }

abbrev pub socket_addr_beq : SocketAddr → SocketAddr → Bool
socket_addr_beq a b = ip_beq a.ip b.ip && nat_beq a.port b.port

pub socket_addr_beq_iff : (a b : SocketAddr) → (socket_addr_beq a b ≡ true) ↔ (a ≡ b)
socket_addr_beq_iff a b = ground (arith, ip_beq_iff a.ip b.ip)

instance abbrev pub socket_addr_key : Key SocketAddr
socket_addr_key = record { same = socket_addr_beq; same_iff = socket_addr_beq_iff }

-- `fetch_add` and `fetch_sub` on atomics wrap around.
abbrev pub fetch_add_u32 : ℕ → ℕ → ℕ
fetch_add_u32 n k = u32 (n + k)

abbrev pub fetch_add_u64 : ℕ → ℕ → ℕ
fetch_add_u64 n k = u64 (n + k)

abbrev pub fetch_sub_u32 : ℕ → ℕ → ℕ
fetch_sub_u32 n k = u32 (n + 2 ^ 32 - k)
