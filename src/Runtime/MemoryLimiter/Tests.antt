-- ===== src/Runtime/MemoryLimiter/Tests.antt =====
-- Runs of the memory limiter, and its theorems at a concrete limiter.
use wasm_cloud_platform.Common.{◌≡◌, refl, true, false, some, List, [], ◌∷◌, All, arith}
use wasm_cloud_platform.Runtime.PolicyTracker.{new_counters}
use wasm_cloud_platform.Runtime.MemoryLimiter.{
  MemoryLimiter, new, record_memory_growth, record_memory_growth_denied, memory_growing, to_bytes,
}
use wasm_cloud_platform.Runtime.MemoryLimiter.Growth.{
  Growth, memory, table, Fits, IsBounded, granted, run, run-IsBounded,
}

-- one page, ten table elements
abbrev small : MemoryLimiter
small = new 1 10 (some new_counters)

one_page : ((memory_growing small 65536).1 ≡ true) × ((memory_growing small 65537).1 ≡ false)
unfolding new memory_growing record_memory_growth record_memory_growth_denied
one_page = (refl, refl)

abbrev requests : List Growth
requests = memory 65536 ∷ table 11 ∷ table 4 ∷ memory 131072 ∷ []

run-IsBounded_example :
    All (Fits (to_bytes 1) 10) (granted small requests)
    × IsBounded (run small requests)
    × ((run small requests).max_memory ≡ to_bytes 1)
    × ((run small requests).max_table_elements ≡ 10)
run-IsBounded_example = run-IsBounded 1 10 requests (tt, (omega arith, (omega arith, (tt, tt))))
