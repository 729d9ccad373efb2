-- ===== src/Supervisor/PortAlloc/Partition.antt =====
-- No port of crates/supervisor/src/port_alloc.rs is given out twice.
use wasm_cloud_platform.Common.{
  ℕ, ◌+◌, ◌<◌, ◌≡◌, refl, Bool, Bool-cases, inl, inr, not, List, [], ◌∷◌, if◌then◌else◌, leb, ltb,
  nat_key, ◌==◌, filter, count, All, All-filter, ok, err, IpAddr, arith, ◌&&◌,
}
use wasm_cloud_platform.Supervisor.PortAlloc.{
  PortAllocator, insert_port, remove_port, allocate, release,
}

-- how often a port stands in a list
abbrev pub times : ℕ → List ℕ → ℕ
times p = count (λ q. q == p)

-- the smallest first, and none twice
unfoldable pub IsAscending : List ℕ → Type 0
IsAscending [] = Unit
IsAscending (p ∷ ps) = All (λ q. p < q) ps × IsAscending ps

-- once for a port of the range, and else not at all
abbrev pub within : ℕ → ℕ → ℕ → ℕ
within start end p = if leb start p && leb p end then 1 else 0

-- Every port of the range is either free or held by an instance, once, and no other port is.
pub record IsPartition (start end : ℕ) (a : PortAllocator) (held : List ℕ) : Type 0 where
  pub each : (p : ℕ) → times p a.free + times p held ≡ within start end p
  pub ascending : IsAscending a.free

pub All-trans : (p q : ℕ) (qs : List ℕ) → p < q → All (λ r. q < r) qs → All (λ r. p < r) qs
All-trans p q [] lt h = tt
All-trans p q (r ∷ rs) lt h = (omega (arith, lt, h.0), All-trans p q rs lt h.1)

All-insert_port :
    (p q : ℕ) (qs : List ℕ) → p < q → All (λ r. p < r) qs → All (λ r. p < r) (insert_port q qs)
unfolding insert_port
All-insert_port p q [] lt h = (lt, tt)
All-insert_port p q (r ∷ rs) lt h = ground (arith, All-insert_port p q rs lt h.1)

insert_port-IsAscending : (p : ℕ) (qs : List ℕ) → IsAscending qs → IsAscending (insert_port p qs)
unfolding insert_port IsAscending
insert_port-IsAscending p [] h = (tt, tt)
insert_port-IsAscending p (q ∷ qs) h = elim (Bool-cases (ltb p q)) [
  | inl below ↦ ground (arith, All-trans p q qs (ground arith) h.0)
  | inr above ↦ elim (Bool-cases (p == q)) [
    | inl same ↦ ground arith
    | inr other ↦
        ground (arith, All-insert_port q p qs (ground arith) h.0, insert_port-IsAscending p qs h.1)
  ]
]

times-insert_port :
    (p q : ℕ) (qs : List ℕ) → times p qs ≡ 0 → times q (insert_port p qs) ≡ times q (p ∷ qs)
unfolding insert_port
times-insert_port p q [] h = refl
times-insert_port p q (r ∷ rs) h = ground (arith, times-insert_port p q rs (ground arith))

filter-IsAscending : (f : ℕ → Bool) (qs : List ℕ) → IsAscending qs → IsAscending (filter f qs)
unfolding IsAscending
filter-IsAscending f [] h = tt
filter-IsAscending f (q ∷ qs) h =
    ground (arith, All-filter (λ r. q < r) f qs h.0, filter-IsAscending f qs h.1)

times-remove_port :
    (p q : ℕ) (qs : List ℕ) → times q (remove_port p qs) ≡ (if p == q then 0 else times q qs)
times-remove_port p q [] = ground arith
times-remove_port p q (r ∷ rs) = ground (arith, times-remove_port p q rs)

-- the held ports without one of them
abbrev pub given_back : ℕ → List ℕ → List ℕ
given_back p [] = []
given_back p (q ∷ qs) = if q == p then qs else q ∷ given_back p qs

times-given_back :
    (p q : ℕ) (qs : List ℕ)
    → 0 < times p qs
    → times q (given_back p qs) + (if p == q then 1 else 0) ≡ times q qs
times-given_back p q [] h = absurd (omega arith)
times-given_back p q (r ∷ rs) h = elim (Bool-cases (r == p)) [
  | inl same ↦ ground arith
  | inr other ↦ ground (arith, times-given_back p q rs (ground arith))
]

pub times_above : (p : ℕ) (ps : List ℕ) → All (λ q. p < q) ps → times p ps ≡ 0
times_above p [] h = refl
times_above p (q ∷ qs) h = ground (arith, times_above p qs h.1)

-- Taking a port for an instance that starts, and giving a port back. Beside the allocator stand the
-- ports that are in use.
pub data Use : Type 0 where
  take_port : Use
  give_back : ℕ → Use

unfoldable pub step : PortAllocator × List ℕ → Use → PortAllocator × List ℕ
step (a, held) take_port = elim (allocate a).1 [
  | err reason ↦ ((allocate a).0, held)
  | ok port ↦ ((allocate a).0, port ∷ held)
]
step (a, held) (give_back p) = (release a p, given_back p held)

-- a port that is given back is one that is in use
abbrev pub IsOwned : List ℕ → Use → Type 0
IsOwned held take_port = Unit
IsOwned held (give_back p) = 0 < times p held

take-IsPartition :
    (start end : ℕ) (addr : IpAddr) (free held : List ℕ)
    → IsPartition start end (record { free = free; bind_addr = addr }) held
    → let (a', held') = step (record { free = free; bind_addr = addr }, held) take_port in
      IsPartition start end a' held'
unfolding step allocate IsAscending
take-IsPartition start end addr [] held h = h
take-IsPartition start end addr (p ∷ ps) held h = record {
  each =
      λ q. ground (arith, h.each q, times-remove_port p q (p ∷ ps), times_above p ps h.ascending.0);
  ascending = filter-IsAscending (λ q. not (q == p)) (p ∷ ps) h.ascending;
}

pub step-IsPartition :
    (start end : ℕ) (a : PortAllocator) (held : List ℕ) (u : Use)
    → IsOwned held u
    → IsPartition start end a held
    → let (a', held') = step (a, held) u in IsPartition start end a' held'
unfolding step release
step-IsPartition start end a held take_port owned h =
    take-IsPartition start end a.bind_addr a.free held h
step-IsPartition start end a held (give_back p) owned h =
    let free : times p a.free ≡ 0 = ground (arith, h.each p) in
    record {
      each = λ q.
          ground
            (arith, h.each q, times-insert_port p q a.free free, times-given_back p q held owned);
      ascending = insert_port-IsAscending p a.free h.ascending;
    }
