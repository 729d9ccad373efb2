-- ===== src/Runtime/MemoryLimiter/Growth.antt =====
-- Bounds on what crates/runtime/src/limits.rs lets an instance grow to.
use wasm_cloud_platform.Common.{
  ℕ, ◌≤◌, ◌<◌, ◌^◌, ◌≡◌, refl, ◌∙◌, ◌+◌, if◌then◌else◌, ◌↔◌, Bool, true, Option, none, some, List,
  [], ◌∷◌, arith, All, subst, Bool-cases, inl, inr,
}
use wasm_cloud_platform.Runtime.PolicyTracker.{PolicyCounters, new_counters}
use wasm_cloud_platform.Runtime.MemoryLimiter.{
  MemoryLimiter, new, record_memory_growth, record_memory_growth_denied, record_table_growth,
  record_table_growth_denied, memory_growing, table_growing, to_bytes,
}

pub data Growth : Type 0 where
  memory table : ℕ → Growth

pub grow : MemoryLimiter → Growth → MemoryLimiter × Bool
grow m (memory desired) = memory_growing m desired
grow m (table desired) = table_growing m desired

-- The counters agree with the limiter, and their peaks lie between what is used and what may be.
abbrev pub Agrees : MemoryLimiter → Option PolicyCounters → Type 0
Agrees m none = Unit
Agrees m (some c) =
    (c.current_memory_bytes ≡ m.memory_used)
    × (m.memory_used ≤ c.memory_bytes_peak)
    × (c.memory_bytes_peak ≤ m.max_memory)
    × (c.current_table_elements ≡ m.table_elements)
    × (m.table_elements ≤ c.table_elements_peak)
    × (c.table_elements_peak ≤ m.max_table_elements)

pub record IsBounded (m : MemoryLimiter) : Type 0 where
  pub memory : m.memory_used ≤ m.max_memory
  pub table : m.table_elements ≤ m.max_table_elements
  pub agrees : Agrees m m.policy_counters

grow-IsBounded : (m : MemoryLimiter) (g : Growth) → IsBounded m → IsBounded (grow m g).0
unfolding grow memory_growing table_growing record_memory_growth record_memory_growth_denied
    record_table_growth record_table_growth_denied
grow-IsBounded m (memory desired) b = ground arith
grow-IsBounded m (table desired) b = ground arith

grow_limits :
    (m : MemoryLimiter) (g : Growth)
    → ((grow m g).0.max_memory ≡ m.max_memory)
      × ((grow m g).0.max_table_elements ≡ m.max_table_elements)
unfolding grow memory_growing table_growing record_memory_growth record_memory_growth_denied
    record_table_growth record_table_growth_denied
grow_limits m (memory desired) = ground arith
grow_limits m (table desired) = ground arith

pub run : MemoryLimiter → List Growth → MemoryLimiter
run m [] = m
run m (g ∷ gs) = run (grow m g).0 gs

run_keeps :
    (m : MemoryLimiter) (gs : List Growth)
    → IsBounded m
    → IsBounded (run m gs)
      × ((run m gs).max_memory ≡ m.max_memory)
      × ((run m gs).max_table_elements ≡ m.max_table_elements)
unfolding run
run_keeps m [] b = (b, refl, refl)
run_keeps m (g ∷ gs) b =
    let (b', memory_same, table_same) = run_keeps (grow m g).0 gs (grow-IsBounded m g b) in
    let (memory_kept, table_kept) = grow_limits m g in
    (b', memory_same ∙ memory_kept, table_same ∙ table_kept)

-- a request whose size the code does not cut: one for memory, or for less than 2^32 table elements
abbrev pub IsWord : Growth → Type 0
IsWord (memory desired) = Unit
IsWord (table desired) = desired < 2 ^ 32

-- the requests that are granted, in order
unfoldable pub granted : MemoryLimiter → List Growth → List Growth
granted m [] = []
granted m (g ∷ gs) = let rest = granted (grow m g).0 gs in if (grow m g).1 then g ∷ rest else rest

-- a request within the limits of a number of bytes and one of table elements
abbrev pub Fits : ℕ → ℕ → Growth → Type 0
Fits bytes elements (memory desired) = desired ≤ bytes
Fits bytes elements (table desired) = desired ≤ elements

grow-Fits :
    (m : MemoryLimiter) (g : Growth)
    → IsWord g
    → (grow m g).1 ≡ true
    → Fits m.max_memory m.max_table_elements g
unfolding grow memory_growing table_growing record_memory_growth record_memory_growth_denied
    record_table_growth record_table_growth_denied
grow-Fits m (memory desired) w fits = ground arith
grow-Fits m (table desired) w fits = ground arith

granted-Fits :
    (bytes elements : ℕ) (m : MemoryLimiter) (gs : List Growth)
    → m.max_memory ≡ bytes
    → m.max_table_elements ≡ elements
    → All IsWord gs
    → All (Fits bytes elements) (granted m gs)
unfolding granted
granted-Fits bytes elements m [] same same' words = tt
granted-Fits bytes elements m (g ∷ gs) same same' words =
    let (memory_kept, table_kept) = grow_limits m g in
    let rest =
      granted-Fits bytes elements (grow m g).0 gs (memory_kept ∙ same) (table_kept ∙ same')
        words.1 in
    elim (Bool-cases (grow m g).1) [
      | inl fits ↦
          let here : Fits bytes elements g =
            subst {A = ℕ × ℕ} (λ limits. Fits limits.0 limits.1 g) (λ k. (same k, same' k))
              (grow-Fits m g words.0 fits) in
          rw fits (here, rest)
      | inr refused ↦ rw refused rest
    ]

-- Whatever an instance asks for, one request after the other, each size of memory that it is granted
-- is within the limit that it was created with, and so is each size of a table, as long as no request
-- is for 2^32 table elements or more. What the limiter counts as used and the peaks that the shared
-- counters report are within the limits too.
pub run-IsBounded :
    (pages max_table_elements : ℕ) (gs : List Growth)
    → All IsWord gs
    → let start = new pages max_table_elements (some new_counters) in
      let m = run start gs in
      All (Fits (to_bytes pages) max_table_elements) (granted start gs)
      × IsBounded m
      × (m.max_memory ≡ to_bytes pages)
      × (m.max_table_elements ≡ max_table_elements)
unfolding new
run-IsBounded pages max_table_elements gs words =
    let start = new pages max_table_elements (some new_counters) in
    let kept = run_keeps start gs (ground arith) in
    (
      granted-Fits (to_bytes pages) max_table_elements start gs refl refl words,
      kept.0,
      kept.1,
      kept.2,
    )

-- what is in use after a request that is granted
abbrev pub used : MemoryLimiter → Growth → ℕ × ℕ
used m (memory desired) = (desired, m.table_elements)
used m (table desired) = (m.memory_used, desired)

-- A request is granted exactly if it is within its limit, a table's as long as its size fits in 32
-- bits; one that is granted sets what is in use to what was asked for, and one that is refused
-- leaves it as it was.
pub grow-true_iff :
    (m : MemoryLimiter) (g : Growth)
    → IsWord g
    → (((grow m g).1 ≡ true) ↔ Fits m.max_memory m.max_table_elements g)
      × (((grow m g).0.memory_used, (grow m g).0.table_elements)
          ≡ (if (grow m g).1 then used m g else (m.memory_used, m.table_elements)))
unfolding grow memory_growing table_growing record_memory_growth record_memory_growth_denied
    record_table_growth record_table_growth_denied
grow-true_iff m (memory desired) w = ground arith
grow-true_iff m (table desired) w = ground arith

-- A table request of 2^32 elements or more is judged by its size modulo 2^32: such a request is
-- granted under every limit that the remainder meets, and the remainder is what is counted.
pub table_growing-truncates :
    (m : MemoryLimiter) (n : ℕ)
    → n < 2 ^ 32
    → n ≤ m.max_table_elements
    → ((table_growing m (2 ^ 32 + n)).1 ≡ true)
      × ((table_growing m (2 ^ 32 + n)).0.table_elements ≡ n)
unfolding table_growing record_table_growth record_table_growth_denied
table_growing-truncates m n w fits = ground arith
