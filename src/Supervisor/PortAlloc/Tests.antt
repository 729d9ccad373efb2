-- ===== src/Supervisor/PortAlloc/Tests.antt =====
-- Runs of the port allocator, and its theorems at a concrete one.
use wasm_cloud_platform.Common.{arith, ◌≡◌, refl, List, [], ◌∷◌, ok, v4, IpAddr}
use wasm_cloud_platform.Supervisor.PortAlloc.{
  PortAllocator, range, new, insert_port, allocate, release,
}
use wasm_cloud_platform.Supervisor.PortAlloc.Partition.{
  IsPartition, Use, step, take_port, give_back,
}
use wasm_cloud_platform.Supervisor.PortAlloc.Runs.{AreOwned, run, run-IsPartition}

abbrev local : IpAddr
local = v4 0x7f000001

abbrev pool : PortAllocator
pool = new local 10000 10002

lowest_first : (allocate pool).1 ≡ ok 10000
unfolding new range allocate
lowest_first = refl

given_back_in_order : (release (allocate (allocate pool).0).0 10000).free ≡ 10000 ∷ 10002 ∷ []
unfolding new range allocate release insert_port
given_back_in_order = refl

abbrev uses : List Use
uses = take_port ∷ take_port ∷ give_back 10000 ∷ take_port ∷ give_back 10001 ∷ []

uses-AreOwned : AreOwned (new local 10000 10002, []) uses
unfolding new range AreOwned step allocate release insert_port
uses-AreOwned = (tt, (tt, (omega arith, (tt, (omega arith, tt)))))

run-IsPartition_example :
    let (a, held) = run (new local 10000 10002, []) uses in IsPartition 10000 10002 a held
run-IsPartition_example = run-IsPartition local 10000 10002 uses uses-AreOwned
