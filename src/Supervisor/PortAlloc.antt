-- ===== src/Supervisor/PortAlloc.antt =====
-- crates/supervisor/src/port_alloc.rs: the ports that instances are given. The `BTreeSet` of free
-- ports is the list of its members in ascending order.
pub mod Partition
pub mod Runs
mod Tests
use wasm_cloud_platform.Common.{
  ℕ, zero, suc, ◌+◌, ◌-◌, Bool, not, List, [], ◌∷◌, if◌then◌else◌, leb, ltb, nat_key, ◌==◌, filter,
  Result, ok, err, String, IpAddr, SocketAddr,
}

pub record PortAllocator : Type 0 where
  pub free : List ℕ
  pub bind_addr : IpAddr

-- `(start..start + n).collect()`
unfoldable pub range : ℕ → ℕ → List ℕ
range start zero = []
range start (suc n) = start ∷ range (suc start) n

-- the ports from `start` to `end`, both included
unfoldable pub new : IpAddr → ℕ → ℕ → PortAllocator
new bind_addr start end = record { free = range start (suc end - start); bind_addr = bind_addr }

-- `BTreeSet::insert`
unfoldable pub insert_port : ℕ → List ℕ → List ℕ
insert_port p [] = p ∷ []
insert_port p (q ∷ qs) =
    let rest = insert_port p qs in
    if ltb p q then p ∷ q ∷ qs else (if p == q then q ∷ qs else q ∷ rest)

-- `BTreeSet::remove`
abbrev pub remove_port : ℕ → List ℕ → List ℕ
remove_port p = filter (λ q. not (q == p))

unfoldable pub allocate : PortAllocator → PortAllocator × Result String ℕ
allocate a = elim a.free [
  | [] ↦ (a, err "port pool exhausted")
  | port ∷ rest ↦ (record a { free = remove_port port (port ∷ rest) }, ok port)
]

unfoldable pub release : PortAllocator → ℕ → PortAllocator
release a port = record a { free = insert_port port a.free }

abbrev pub socket_addr : PortAllocator → ℕ → SocketAddr
socket_addr a port = record { ip = a.bind_addr; port = port }
