-- ===== src/Runtime/PolicyLaws/Interleaving.antt =====
-- The atomic operations of `check_outbound_tcp_connect` and `record_outbound_disconnect`
-- (network.rs) one by one, with the stores' threads interleaved at will. Each store has one
-- thread; the stores share `outbound_connections_active`.
use mathlib.Core.List.{◌++◌}
use wasm_cloud_platform.Common.{
  ℕ, ◌+◌, ◌^◌, ◌≤◌, ◌<◌, ◌≡◌, refl, ap, sym, subst, ◌∙◌, ◌≢◌, ◌↔◌, List, [], ◌∷◌, u32,
  fetch_add_u32, fetch_sub_u32, arith,
}

-- Where a thread stands between two atomic operations.
pub data Pc : Type 0 where
  -- between calls
  idle : Pc
  -- the load of the loop gave this value
  loaded : ℕ → Pc
  -- the exchange succeeded; the store's own count is still to be raised
  reserved : Pc
  -- the own count was 0 and has wrapped around
  wrapped : Pc
  -- the own count is lowered; the shared one is still to be
  releasing : Pc
  -- the shared count was 0 and has wrapped around
  shared_wrapped : Pc

pub record Thread : Type 0 where
  pub pc : Pc
  pub local : ℕ

-- One atomic operation of a thread: the shared count and the thread before, and after.
pub data Act (limit : ℕ) (active : ℕ) (t : Thread) (active' : ℕ) (t' : Thread) : Type 0 where
  load :
      t.pc ≡ idle
      → active' ≡ active
      → t' ≡ record t { pc = loaded active }
      → Act limit active t active' t'
  -- `current >= limit`: refused
  refuse :
      (current : ℕ)
      → t.pc ≡ loaded current
      → limit ≤ current
      → active' ≡ active
      → t' ≡ record t { pc = idle }
      → Act limit active t active' t'
  -- the exchange finds what was loaded
  exchange :
      (current : ℕ)
      → t.pc ≡ loaded current
      → current < limit
      → active ≡ current
      → active' ≡ u32 (current + 1)
      → t' ≡ record t { pc = reserved }
      → Act limit active t active' t'
  -- it finds another value, and the loop loads again
  retry :
      (current : ℕ)
      → t.pc ≡ loaded current
      → current < limit
      → active ≢ current
      → active' ≡ active
      → t' ≡ record t { pc = loaded active }
      → Act limit active t active' t'
  raise_local :
      t.pc ≡ reserved
      → active' ≡ active
      → t' ≡ record { pc = idle; local = fetch_add_u32 t.local 1 }
      → Act limit active t active' t'
  -- `local_prev == 0`, then the store of 0
  lower_local_zero :
      t.pc ≡ idle
      → t.local ≡ 0
      → active' ≡ active
      → t' ≡ record { pc = wrapped; local = fetch_sub_u32 t.local 1 }
      → Act limit active t active' t'
  store_local_zero :
      t.pc ≡ wrapped
      → active' ≡ active
      → t' ≡ record { pc = idle; local = 0 }
      → Act limit active t active' t'
  lower_local :
      t.pc ≡ idle
      → t.local ≢ 0
      → active' ≡ active
      → t' ≡ record { pc = releasing; local = fetch_sub_u32 t.local 1 }
      → Act limit active t active' t'
  lower_shared :
      t.pc ≡ releasing
      → active ≢ 0
      → active' ≡ fetch_sub_u32 active 1
      → t' ≡ record t { pc = idle }
      → Act limit active t active' t'
  -- `prev == 0`, then the store of 0
  lower_shared_zero :
      t.pc ≡ releasing
      → active ≡ 0
      → active' ≡ fetch_sub_u32 active 1
      → t' ≡ record t { pc = shared_wrapped }
      → Act limit active t active' t'
  store_shared_zero :
      t.pc ≡ shared_wrapped
      → active' ≡ 0
      → t' ≡ record t { pc = idle }
      → Act limit active t active' t'

pub record Machine : Type 0 where
  pub active : ℕ
  pub threads : List Thread

-- One of the threads, wherever it stands in the list, makes one operation.
pub data Step (limit : ℕ) (m m' : Machine) : Type 0 where
  acts :
      (before after : List Thread) (t t' : Thread)
      → m.threads ≡ before ++ t ∷ after
      → m'.threads ≡ before ++ t' ∷ after
      → Act limit m.active t m'.active t'
      → Step limit m m'

pub data Reach (limit : ℕ) (m : Machine) : Machine → Type 0 where
  here : Reach limit m m
  next : {m' m'' : Machine} → Reach limit m m' → Step limit m' m'' → Reach limit m m''

-- the connections that a thread answers for, those included whose slot is on the way in or out
abbrev pub owed : Thread → ℕ
owed t = elim t.pc [
  | idle ↦ t.local
  | loaded _ ↦ t.local
  | reserved ↦ t.local + 1
  | wrapped ↦ 0
  | releasing ↦ t.local + 1
  | shared_wrapped ↦ t.local
]

abbrev pub total : List Thread → ℕ
total [] = 0
total (t ∷ ts) = owed t + total ts

total-middle :
    (before after : List Thread) (t : Thread)
    → total (before ++ t ∷ after) ≡ owed t + total (before ++ after)
total-middle [] after t = refl
total-middle (b ∷ before) after t = omega (arith, total-middle before after t)

-- no thread has seen the shared count wrap around
abbrev pub NoneWrapped : List Thread → Type 0
NoneWrapped [] = Unit
NoneWrapped (t ∷ ts) = (t.pc ≢ shared_wrapped) × NoneWrapped ts

pub record IsConsistent (limit : ℕ) (m : Machine) : Type 0 where
  pub balance : m.active ≡ total m.threads
  pub within : m.active ≤ limit
  pub none_wrapped : NoneWrapped m.threads

Act-owed :
    {limit active active' : ℕ} {t t' : Thread}
    → Act limit active t active' t'
    → limit < 2 ^ 32
    → active ≤ limit
    → owed t ≤ active
    → t.pc ≢ shared_wrapped
    → (active' + owed t ≡ active + owed t') × (active' ≤ limit) × (t'.pc ≢ shared_wrapped)
Act-owed (load p a e) word w part fine = ground arith
Act-owed (refuse current p over a e) word w part fine = ground arith
Act-owed (exchange current p below same a e) word w part fine = ground arith
Act-owed (retry current p below other a e) word w part fine = ground arith
Act-owed (raise_local p a e) word w part fine = ground arith
Act-owed (lower_local_zero p z a e) word w part fine = ground arith
Act-owed (store_local_zero p a e) word w part fine = ground arith
Act-owed (lower_local p z a e) word w part fine = ground arith
Act-owed (lower_shared p z a e) word w part fine = ground arith
Act-owed (lower_shared_zero p z a e) word w part fine = ground arith
Act-owed (store_shared_zero p a e) word w part fine = ground arith

NoneWrapped-middle :
    (before after : List Thread) (t : Thread)
    → NoneWrapped (before ++ t ∷ after) ↔ ((t.pc ≢ shared_wrapped) × NoneWrapped (before ++ after))
NoneWrapped-middle [] after t = (λ h. h, λ h. h)
NoneWrapped-middle (b ∷ before) after t =
    let ih = NoneWrapped-middle before after t in
    (λ h. ((ih.0 h.1).0, (h.0, (ih.0 h.1).1)), λ h. (h.1.0, ih.1 (h.0, h.1.1)))

Step-IsConsistent :
    {limit : ℕ} {m m' : Machine}
    → limit < 2 ^ 32
    → IsConsistent limit m
    → Step limit m m'
    → IsConsistent limit m'
Step-IsConsistent {limit} {m} {m'} word c (acts before after t t' was is act) =
    let old : m.active ≡ owed t + total (before ++ after) =
      c.balance ∙ ap total was ∙ total-middle before after t in
    let new : total m'.threads ≡ owed t' + total (before ++ after) =
      ap total is ∙ total-middle before after t' in
    let (fine, others) =
      (NoneWrapped-middle before after t).0 (subst NoneWrapped was c.none_wrapped) in
    let (moved, within, fine') = Act-owed act word c.within (omega (arith, old)) fine in
    record {
      balance = omega (arith, old, new, moved);
      within = within;
      none_wrapped =
          subst NoneWrapped (sym is) ((NoneWrapped-middle before after t').1 (fine', others));
    }

-- In whatever order the threads' atomic operations interleave, the shared count is what the
-- threads answer for and never above the limit, and it never wraps around.
pub Reach-IsConsistent :
    {limit : ℕ} {m m' : Machine}
    → limit < 2 ^ 32
    → IsConsistent limit m
    → Reach limit m m'
    → IsConsistent limit m'
Reach-IsConsistent word c here = c
Reach-IsConsistent word c (next r s) = Step-IsConsistent word (Reach-IsConsistent word c r) s

-- A thread whose operations no other thread's come between gets its slot in three of them, if one
-- is free: this is what `check_outbound_tcp_connect` of network.rs computes.
pub Reach-connect :
    (limit : ℕ) (before after : List Thread) (active local : ℕ)
    → active < limit
    → let at = λ (n : ℕ) (t : Thread).
      (let m : Machine = record { active = n; threads = before ++ t ∷ after } in m) in
      Reach limit
        (at active (record { pc = idle; local = local }))
        (at (u32 (active + 1)) (record { pc = idle; local = u32 (local + 1) }))
Reach-connect limit before after active local free =
    next
      (next
        (next here (
          acts before after _ (record { pc = loaded active; local = local }) refl refl
            (load refl refl refl)))
        (acts before after _ (record { pc = reserved; local = local }) refl refl
          (exchange active refl free refl refl refl)))
      (acts before after _ _ refl refl (raise_local refl refl refl))
