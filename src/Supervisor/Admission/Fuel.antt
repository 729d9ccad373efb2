-- ===== src/Supervisor/Admission/Fuel.antt =====
-- crates/supervisor/src/scaling.rs: the fuel that admission lets through in a second.
use wasm_cloud_platform.Common.{
  ℕ, ◌+◌, ◌-◌, ◌^◌, ◌≤◌, ◌<◌, ◌≡◌, refl, ◌∙◌, ◌↔◌, ◌⊎◌, Bool, true, false, Bool-cases, inl, inr,
  map, List, [], ◌∷◌, ◌++◌, sum, filter, ltb, leb, leb→le, nat_key, ◌==◌, All, arith, if◌then◌else◌,
}
use wasm_cloud_platform.Supervisor.Admission.{
  FuelAdmissionController, new, can_run, record_execution,
}

-- the fuel of the samples of a window
abbrev pub fuel : List (ℕ × ℕ) → ℕ
fuel window = sum (map (λ (s : ℕ × ℕ). s.1) window)

fuel-append : (xs ys : List (ℕ × ℕ)) → fuel (xs ++ ys) ≡ fuel xs + fuel ys
fuel-append [] ys = omega arith
fuel-append (x ∷ xs) ys = omega (arith, fuel-append xs ys)

fuel-filter : (p : ℕ × ℕ → Bool) (xs : List (ℕ × ℕ)) → fuel (filter p xs) ≤ fuel xs
fuel-filter p [] = omega arith
fuel-filter p (x ∷ xs) = ground (arith, fuel-filter p xs)

-- An execution: when it asks, with which limit, when it is recorded and with which fuel.
pub record Execution : Type 0 where
  pub asked_at : ℕ
  pub fuel_limit : ℕ
  pub recorded_at : ℕ
  pub fuel_consumed : ℕ

-- one execution after the other: it asks, runs if it may, and is recorded
unfoldable pub execute : FuelAdmissionController → Execution → FuelAdmissionController
execute c e =
    let (c', granted) = can_run c e.asked_at e.fuel_limit in
    if granted then record_execution c' e.recorded_at e.fuel_consumed else c'

-- an execution that keeps to its limit, which the node's budget can be added to
abbrev pub IsMetered : ℕ → Execution → Type 0
IsMetered budget e = (e.fuel_consumed ≤ e.fuel_limit) × (budget + e.fuel_limit < 2 ^ 64)

-- the samples that the controller keeps are within its budget
abbrev pub IsWithin : ℕ → FuelAdmissionController → Type 0
IsWithin budget c = (c.node_budget ≡ budget) × (fuel c.fuel_per_sec ≤ budget)

execute-IsWithin :
    (budget : ℕ) (c : FuelAdmissionController) (e : Execution)
    → IsMetered budget e
    → IsWithin budget c
    → IsWithin budget (execute c e)
unfolding execute can_run record_execution
execute-IsWithin budget c e metered within =
    let kept = filter (λ (s : ℕ × ℕ). ltb (e.asked_at - s.0) 1) c.fuel_per_sec in
    ground (
      arith,
      fuel-filter (λ (s : ℕ × ℕ). ltb (e.asked_at - s.0) 1) c.fuel_per_sec,
      fuel-append kept ((e.recorded_at, e.fuel_consumed) ∷ []),
    )

-- what is recorded of the executions that were granted, in order
unfoldable pub recorded : FuelAdmissionController → List Execution → List (ℕ × ℕ)
recorded c [] = []
recorded c (e ∷ es) =
    let rest = recorded (execute c e) es in
    if (can_run c e.asked_at e.fuel_limit).1 then (e.recorded_at, e.fuel_consumed) ∷ rest else rest

-- the fuel of the samples of one second
abbrev pub fuel_in : ℕ → List (ℕ × ℕ) → ℕ
fuel_in second [] = 0
fuel_in second (s ∷ ss) = (if s.0 == second then s.1 else 0) + fuel_in second ss

-- Each execution asks no earlier than the one before it asked, and is recorded no earlier than it
-- asked.
abbrev pub IsOrdered : ℕ → List Execution → Type 0
IsOrdered clock [] = Unit
IsOrdered clock (e ∷ es) =
    (clock ≤ e.asked_at) × (e.asked_at ≤ e.recorded_at) × IsOrdered e.asked_at es

fuel_in-append :
    (second : ℕ) (xs ys : List (ℕ × ℕ))
    → fuel_in second (xs ++ ys) ≡ fuel_in second xs + fuel_in second ys
fuel_in-append second [] ys = omega arith
fuel_in-append second (x ∷ xs) ys = omega (arith, fuel_in-append second xs ys)

fuel_in-le : (second : ℕ) (xs : List (ℕ × ℕ)) → fuel_in second xs ≤ fuel xs
fuel_in-le second [] = omega arith
fuel_in-le second (x ∷ xs) = ground (arith, fuel_in-le second xs)

fuel_in-filter :
    (second now : ℕ) (xs : List (ℕ × ℕ))
    → now ≤ second
    → fuel_in second (filter (λ (s : ℕ × ℕ). ltb (now - s.0) 1) xs) ≡ fuel_in second xs
fuel_in-filter second now [] h = refl
fuel_in-filter second now (x ∷ xs) h = ground (arith, fuel_in-filter second now xs h)

-- what a granted execution asks for fits beside the samples that are kept
room :
    (budget : ℕ) (c : FuelAdmissionController) (e : Execution)
    → IsMetered budget e
    → IsWithin budget c
    → (can_run c e.asked_at e.fuel_limit).1 ≡ true
    → fuel (can_run c e.asked_at e.fuel_limit).0.fuel_per_sec + e.fuel_limit ≤ budget
unfolding can_run
room budget c e metered within granted =
    ground (arith, granted, fuel-filter (λ (s : ℕ × ℕ). ltb (e.asked_at - s.0) 1) c.fuel_per_sec)

-- the window of a check keeps the samples of its second and of later ones
kept_window :
    (c : FuelAdmissionController) (now limit second : ℕ)
    → now ≤ second
    → fuel_in second (can_run c now limit).0.fuel_per_sec ≡ fuel_in second c.fuel_per_sec
unfolding can_run
kept_window c now limit second later = fuel_in-filter second now c.fuel_per_sec later

-- `past` is what was recorded so far, and `clock` when the last execution asked.
record Tracks (budget clock : ℕ) (past : List (ℕ × ℕ)) (c : FuelAdmissionController) : Type 0 where
  within : IsWithin budget c
  kept : (second : ℕ) → clock ≤ second → fuel_in second c.fuel_per_sec ≡ fuel_in second past
  spent : (second : ℕ) → fuel_in second past ≤ budget

abbrev sample : Execution → ℕ × ℕ
sample e = (e.recorded_at, e.fuel_consumed)

fuel_in-sample-late :
    (e : Execution) (second : ℕ) → second < e.recorded_at → fuel_in second (sample e ∷ []) ≡ 0
fuel_in-sample-late e second early = ground arith

fuel_in-sample-le : (e : Execution) (second : ℕ) → fuel_in second (sample e ∷ []) ≤ e.fuel_consumed
fuel_in-sample-le e second = ground arith

le-or-lt : (a b : ℕ) → (a ≤ b) ⊎ (b < a)
le-or-lt a b = elim (Bool-cases (leb a b)) [
  | inl le ↦ inl (leb→le a b le)
  | inr gt ↦ inr (ground arith)
]

execute-Tracks-granted :
    (budget clock : ℕ) (past : List (ℕ × ℕ)) (c : FuelAdmissionController) (e : Execution)
    → IsMetered budget e
    → clock ≤ e.asked_at
    → e.asked_at ≤ e.recorded_at
    → Tracks budget clock past c
    → (can_run c e.asked_at e.fuel_limit).1 ≡ true
    → Tracks budget e.asked_at (past ++ sample e ∷ []) (execute c e)
unfolding execute record_execution
execute-Tracks-granted budget clock past c e metered asked ordered t granted = record {
  within = execute-IsWithin budget c e metered t.within;
  kept = λ second later.
      let window = (can_run c e.asked_at e.fuel_limit).0.fuel_per_sec in
      rw (granted) (
        omega (
          arith,
          fuel_in-append second window (sample e ∷ []),
          fuel_in-append second past (sample e ∷ []),
          kept_window c e.asked_at e.fuel_limit second later,
          t.kept second (omega arith),
        ));
  spent = λ second.
      let window = (can_run c e.asked_at e.fuel_limit).0.fuel_per_sec in
      elim (le-or-lt e.asked_at second) [
        | inl later ↦ omega (
          arith,
          fuel_in-append second past (sample e ∷ []),
          kept_window c e.asked_at e.fuel_limit second later,
          t.kept second (omega arith),
          fuel_in-le second window,
          fuel_in-sample-le e second,
          room budget c e metered t.within granted,
        )
        | inr earlier ↦ omega (
          arith,
          fuel_in-append second past (sample e ∷ []),
          fuel_in-sample-late e second (omega arith),
          t.spent second,
        )
      ];
}

execute-Tracks-refused :
    (budget clock : ℕ) (past : List (ℕ × ℕ)) (c : FuelAdmissionController) (e : Execution)
    → IsMetered budget e
    → clock ≤ e.asked_at
    → Tracks budget clock past c
    → (can_run c e.asked_at e.fuel_limit).1 ≡ false
    → Tracks budget e.asked_at past (execute c e)
unfolding execute
execute-Tracks-refused budget clock past c e metered asked t refused = record {
  within = execute-IsWithin budget c e metered t.within;
  kept = λ second later.
      rw (refused)
        (kept_window c e.asked_at e.fuel_limit second later ∙ t.kept second (omega arith));
  spent = t.spent;
}

recorded-Tracks :
    (budget clock : ℕ) (past : List (ℕ × ℕ)) (c : FuelAdmissionController) (es : List Execution)
    → All (IsMetered budget) es
    → IsOrdered clock es
    → Tracks budget clock past c
    → (second : ℕ) → fuel_in second past + fuel_in second (recorded c es) ≤ budget
unfolding recorded
recorded-Tracks budget clock past c [] metered ordered t second = omega (arith, t.spent second)
recorded-Tracks budget clock past c (e ∷ es) metered ordered t second =
    elim (Bool-cases (can_run c e.asked_at e.fuel_limit).1) [
      | inl granted ↦
          let next =
            recorded-Tracks budget e.asked_at (past ++ sample e ∷ []) (execute c e) es metered.1
              ordered.2
              (execute-Tracks-granted budget clock past c e metered.0 ordered.0 ordered.1 t granted)
              second in
          rw (granted) (omega (arith, next, fuel_in-append second past (sample e ∷ [])))
      | inr refused ↦ rw (refused) (
          recorded-Tracks budget e.asked_at past (execute c e) es metered.1 ordered.2
            (execute-Tracks-refused budget clock past c e metered.0 ordered.0 t refused) second)
    ]

-- Executions run one after the other, each asking, running if it may and being recorded before the
-- next asks, on a clock that does not run back: whatever second is looked at, the fuel of all the
-- executions that were ever recorded in it is within the node's budget, as long as each keeps to the
-- limit that it asked for and no limit overflows when the budget is added to it.
pub fuel_in-recorded-le :
    (budget : ℕ) (es : List Execution)
    → All (IsMetered budget) es
    → IsOrdered 0 es
    → (second : ℕ) → fuel_in second (recorded (new budget) es) ≤ budget
fuel_in-recorded-le budget es metered ordered second =
    let start : Tracks budget 0 [] (new budget) = record {
      within = (refl, omega arith);
      kept = λ second later. refl;
      spent = λ second. omega arith;
    } in
    omega (arith, recorded-Tracks budget 0 [] (new budget) es metered ordered start second)

-- the executions of the second of a check, or of a later one
abbrev pub recent : ℕ → List (ℕ × ℕ) → ℕ
recent now [] = 0
recent now (s ∷ ss) = (if leb now s.0 then s.1 else 0) + recent now ss

fuel-recent :
    (now : ℕ) (window : List (ℕ × ℕ))
    → fuel (filter (λ (s : ℕ × ℕ). ltb (now - s.0) 1) window) ≡ recent now window
fuel-recent now [] = refl
fuel-recent now (s ∷ ss) = ground (arith, fuel-recent now ss)

-- A check is granted exactly if the fuel recorded for this second, or for a later one, and the limit
-- asked for are together within the node's budget, as long as their sum fits in 64 bits.
pub can_run-true_iff :
    (c : FuelAdmissionController) (now fuel_limit : ℕ)
    → recent now c.fuel_per_sec + fuel_limit < 2 ^ 64
    → ((can_run c now fuel_limit).1 ≡ true)
      ↔ (recent now c.fuel_per_sec + fuel_limit ≤ c.node_budget)
unfolding can_run
can_run-true_iff c now fuel_limit small = ground (arith, fuel-recent now c.fuel_per_sec)
