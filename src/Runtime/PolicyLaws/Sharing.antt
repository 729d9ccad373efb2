-- ===== src/Runtime/PolicyLaws/Sharing.antt =====
-- Several stores over one set of counters: core.rs says that store teardown must release only the
-- reservations owned by that store. Each call is one step; Interleaving.antt splits the calls.
use wasm_cloud_platform.Common.{
  ℕ, zero, suc, ◌+◌, ◌^◌, ◌≤◌, ◌<◌, ◌≡◌, refl, ◌∙◌, ◌≢◌, inl, inr, Bool, List, [], ◌∷◌, none, some,
  get_elem?, length, IpAddr, sum, set, sum-set, le_sum, set-IsClear, sum-eq-zero, length-set,
  get_elem?-set_ne, IsClear, absent-IsClear, arith, Option-cases,
}
use wasm_cloud_platform.Runtime.PolicyTracker.{
  PolicyEnforcer, PolicyCounters, Tracked, check_outbound_tcp_connect, record_outbound_disconnect,
  release_tracked_outbound_connections,
}

-- The shared counters, and each store's own count of outbound connections.
pub record World : Type 0 where
  pub counters : PolicyCounters
  pub locals : List ℕ

pub data Call : Type 0 where
  connect : IpAddr → ℕ → Call
  disconnect drop_store : Call

-- the stores from the `i`-th on, `n` of them, are dropped in turn
abbrev pub drops : ℕ → ℕ → List (ℕ × Call)
drops i zero = []
drops i (suc n) = (i, drop_store) ∷ drops (suc i) n

module _ {IpNet : Type 0} (net_contains : IpNet → IpAddr → Bool) (e : PolicyEnforcer IpNet) where
  pub call : Tracked → Call → Tracked
  call s (connect ip port) = (check_outbound_tcp_connect net_contains e ip port s).0
  call s disconnect = record_outbound_disconnect s
  call s drop_store = release_tracked_outbound_connections s

  -- a call of store `i`; there is none where no store has that number
  pub step : World → ℕ × Call → World
  step w (i, c) = elim (get_elem? w.locals i) [
    | none ↦ w
    | some own ↦
        let s = call (record { counters = w.counters; local = own }) c in
        record { counters = s.counters; locals = set w.locals i s.local }
  ]

  pub run : World → List (ℕ × Call) → World
  run w [] = w
  run w (c ∷ cs) = run (step w c) cs

  -- The shared count is the sum of what the stores hold, and within the limit.
  pub record IsBalanced (w : World) : Type 0 where
    pub balance : w.counters.outbound_connections_active ≡ sum w.locals
    pub within : sum w.locals ≤ e.policy.network.max_outbound_connections

  -- what a call does to the shared and the own count, where the own is part of the shared
  call_moves :
      (s : Tracked) (c : Call)
      → e.policy.network.max_outbound_connections < 2 ^ 32
      → s.local ≤ s.counters.outbound_connections_active
      → s.counters.outbound_connections_active ≤ e.policy.network.max_outbound_connections
      → let t = call s c in
        (t.counters.outbound_connections_active + s.local
          ≡ s.counters.outbound_connections_active + t.local)
        × (t.counters.outbound_connections_active ≤ e.policy.network.max_outbound_connections)
  unfolding call check_outbound_tcp_connect record_outbound_disconnect
      release_tracked_outbound_connections
  call_moves s (connect ip port) word own w = ground arith
  call_moves s disconnect word own w = ground arith
  call_moves s drop_store word own w = ground arith

  step-IsBalanced :
      (w : World) (i : ℕ) (c : Call)
      → e.policy.network.max_outbound_connections < 2 ^ 32
      → IsBalanced w
      → IsBalanced (step w (i, c))
  unfolding step
  step-IsBalanced w i c word b = elim (Option-cases (get_elem? w.locals i)) [
    | inl absent ↦ rw (absent, step) b
    | inr (own, here) ↦
        let s : Tracked = record { counters = w.counters; local = own } in
        let part = le_sum w.locals i own here in
        let (moved, within) = call_moves s c word (omega (arith, part)) (omega arith) in
        let total = sum-set w.locals i (call s c).local own here in
        rw (here, step)
          (record {
            balance = omega (arith, moved, total);
            within = omega (arith, moved, total, within);
          })
  ]

  -- However the calls of the stores follow one another, the shared count of outbound connections
  -- is the sum of what the stores hold, and stays within the limit.
  pub run-IsBalanced :
      (w : World) (cs : List (ℕ × Call))
      → e.policy.network.max_outbound_connections < 2 ^ 32
      → IsBalanced w
      → IsBalanced (run w cs)
  unfolding run
  run-IsBalanced w [] word b = b
  run-IsBalanced w ((i, c) ∷ cs) word b =
      run-IsBalanced (step w (i, c)) cs word (step-IsBalanced w i c word b)

  -- Dropping a store gives back what it holds, no more and no less, and leaves the others' counts.
  pub drop_store-releases :
      (w : World) (i own : ℕ)
      → IsBalanced w
      → get_elem? w.locals i ≡ some own
      → let w' = step w (i, drop_store) in
        (w'.counters.outbound_connections_active + own ≡ w.counters.outbound_connections_active)
        × (w'.locals ≡ set w.locals i 0)
        × ((j : ℕ) → i ≢ j → get_elem? w'.locals j ≡ get_elem? w.locals j)
  unfolding step call release_tracked_outbound_connections
  drop_store-releases w i own b here =
      let part = le_sum w.locals i own here in
      (
        ground (arith, part, b.balance),
        ground arith,
        λ j other. ground (arith, get_elem?-set_ne w.locals i j 0 other),
      )

  drop-IsClear :
      (w : World) (i : ℕ)
      → IsClear i w.locals
      → IsClear (suc i) (step w (i, drop_store)).locals
        × (length (step w (i, drop_store)).locals ≡ length w.locals)
  unfolding step call release_tracked_outbound_connections
  drop-IsClear w i c = elim (Option-cases (get_elem? w.locals i)) [
    | inl absent ↦ rw (absent, step) (absent-IsClear i w.locals absent c, refl)
    | inr (own, here) ↦ ground (arith, set-IsClear i w.locals c, length-set w.locals i 0)
  ]

  run-drops-IsClear :
      (w : World) (i n : ℕ)
      → IsClear i w.locals
      → length w.locals ≡ i + n
      → sum (run w (drops i n)).locals ≡ 0
  unfolding run
  run-drops-IsClear w i zero c h = sum-eq-zero i w.locals (omega arith) c
  run-drops-IsClear w i (suc n) c h =
      let (c', same) = drop-IsClear w i c in
      run-drops-IsClear (step w (i, drop_store)) (suc i) n c' (omega (arith, same))

  -- Once every store is dropped, no connection is counted.
  pub drop_all-releases :
      (w : World)
      → e.policy.network.max_outbound_connections < 2 ^ 32
      → IsBalanced w
      → (run w (drops 0 (length w.locals))).counters.outbound_connections_active ≡ 0
  drop_all-releases w word b =
      (run-IsBalanced w (drops 0 (length w.locals)) word b).balance
      ∙ run-drops-IsClear w 0 (length w.locals) tt (omega arith)
