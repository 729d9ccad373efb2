-- ===== src/Supervisor/PortAlloc/Runs.antt =====
-- Runs of the allocator of crates/supervisor/src/port_alloc.rs.
use wasm_cloud_platform.Common.{
  ℕ, zero, suc, ◌+◌, ◌-◌, ◌≤◌, ◌<◌, ◌≡◌, List, [], ◌∷◌, if◌then◌else◌, leb, ltb, nat_key, All,
  Result, ok, err, String, IpAddr, arith, ◌&&◌,
}
use wasm_cloud_platform.Supervisor.PortAlloc.{PortAllocator, range, new, allocate}
use wasm_cloud_platform.Supervisor.PortAlloc.Partition.{
  times, IsAscending, within, IsPartition, All-trans, times_above, Use, IsOwned, step,
  step-IsPartition,
}

pub run : PortAllocator × List ℕ → List Use → PortAllocator × List ℕ
run s [] = s
run s (u ∷ us) = run (step s u) us

-- every port that is given back is in use at that time
unfoldable pub AreOwned : PortAllocator × List ℕ → List Use → Type 0
AreOwned s [] = Unit
AreOwned s (u ∷ us) = IsOwned s.1 u × AreOwned (step s u) us

run_keeps :
    (start end : ℕ) (s : PortAllocator × List ℕ) (us : List Use)
    → AreOwned s us
    → IsPartition start end s.0 s.1
    → IsPartition start end (run s us).0 (run s us).1
unfolding run AreOwned
run_keeps start end s [] owned h = h
run_keeps start end s (u ∷ us) owned h =
    run_keeps start end (step s u) us owned.1 (step-IsPartition start end s.0 s.1 u owned.0 h)

All-range : (p start n : ℕ) → p < start → All (λ q. p < q) (range start n)
unfolding range
All-range p start zero lt = tt
All-range p start (suc n) lt = (lt, All-range p (suc start) n (omega arith))

range-IsAscending : (start n : ℕ) → IsAscending (range start n)
unfolding range IsAscending
range-IsAscending start zero = tt
range-IsAscending start (suc n) =
    (All-range start (suc start) n (omega arith), range-IsAscending (suc start) n)

times-range :
    (p start n : ℕ) → times p (range start n) ≡ (if leb start p && ltb p (start + n) then 1 else 0)
unfolding range
times-range p start zero = ground arith
times-range p start (suc n) = ground (arith, times-range p (suc start) n)

new-IsPartition : (addr : IpAddr) (start end : ℕ) → IsPartition start end (new addr start end) []
unfolding new
new-IsPartition addr start end = record {
  each = λ p. ground (arith, times-range p start (suc end - start));
  ascending = range-IsAscending start (suc end - start);
}

-- As long as only ports that are in use are given back, in whatever order, every port of the range
-- that the allocator was made for is at all times either free or in use, once, and never both or
-- twice; no other port is ever in use or free.
pub run-IsPartition :
    (addr : IpAddr) (start end : ℕ) (us : List Use)
    → AreOwned (new addr start end, []) us
    → let (a, held) = run (new addr start end, []) us in IsPartition start end a held
run-IsPartition addr start end us owned =
    run_keeps start end (new addr start end, []) us owned (new-IsPartition addr start end)

-- what an allocation promises, by its result
abbrev pub Allocated : ℕ → ℕ → List ℕ → Result String ℕ → Type 0
Allocated start end held (err reason) = (p : ℕ) → times p held ≡ within start end p
Allocated start end held (ok port) =
    (start ≤ port)
    × (port ≤ end)
    × (times port held ≡ 0)
    × ((p : ℕ) → start ≤ p → p < port → times p held ≡ 1)

allocate_promise :
    (start end : ℕ) (addr : IpAddr) (free held : List ℕ)
    → IsPartition start end (record { free = free; bind_addr = addr }) held
    → Allocated start end held (allocate (record { free = free; bind_addr = addr })).1
unfolding allocate IsAscending
allocate_promise start end addr [] held h = λ p. ground (arith, h.each p)
allocate_promise start end addr (port ∷ rest) held h = (
  ground (arith, h.each port),
  ground (arith, h.each port),
  ground (arith, h.each port),
  λ p low below. ground (
    arith,
    h.each p,
    h.each port,
    times_above p (port ∷ rest) (below, All-trans p port rest below h.ascending.0),
  ),
)

-- Between the calls of any run, an allocation fails only when every port of the range is held, and
-- otherwise gives out the lowest port of the range that is free, which no instance holds.
pub allocate-Allocated :
    (addr : IpAddr) (start end : ℕ) (us : List Use)
    → AreOwned (new addr start end, []) us
    → let (a, held) = run (new addr start end, []) us in Allocated start end held (allocate a).1
allocate-Allocated addr start end us owned =
    let s = run (new addr start end, []) us in
    allocate_promise start end s.0.bind_addr s.0.free s.1 (run-IsPartition addr start end us owned)
