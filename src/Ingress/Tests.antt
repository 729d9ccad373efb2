-- ===== src/Ingress/Tests.antt =====
-- crates/deploy-ingress/src/ha.rs: a bucket in one process, and one that cannot be reached.
use wasm_cloud_platform.Common.{
  ℕ, suc, ◌+◌, ◌≤◌, ◌<◌, ◌≡◌, ◌⊎◌, ◌↔◌, refl, ap, inl, inr, Bool, true, false, Option, none, some,
  String, ◌==◌, nat_key, [], ◌∷◌, arith,
}
use wasm_cloud_platform.Ingress.{
  LeaderLeaseRecord, Entry, LeaderKv, leads, renew, renew_at, renewed, lease, create_lease, created,
  renew_or_observe_leader, observed, then_create, then_observe, set_leader_state,
}
use wasm_cloud_platform.Ingress.Elections.{KvLaws, Names, some-injective}
use wasm_cloud_platform.Ingress.Interleaving.{
  World, creating, observing, started, start, answered, renews, creates, Run, here, and_then,
  Run-renews_own,
}
use wasm_cloud_platform.Ingress.Turns.{IsDown, turns, renew_or_observe_leader-leads_iff, turns-down}

-- the entry and how far the stream is ahead of it
abbrev Bucket : Type 0
Bucket = Option Entry × ℕ

abbrev last : Bucket → ℕ
last (none, n) = n
last (some e, n) = e.revision + n

abbrev write : LeaderLeaseRecord → Bucket → Bucket × Option ℕ
write p b = ((some (record { value = p; revision = suc (last b) }), 0), some (suc (last b)))

abbrev swap : LeaderLeaseRecord → Entry → ℕ → Bool → Bucket × Option ℕ
swap p e n true = write p (some e, n)
swap p e n false = ((some e, n), none)

abbrev update : LeaderLeaseRecord → ℕ → Bucket → Bucket × Option ℕ
update p r (none, n) = ((none, n), none)
update p r (some e, n) = swap p e n (e.revision == r)

abbrev create : LeaderLeaseRecord → Bucket → Bucket × Option ℕ
create p (none, n) = write p (none, n)
create p (some e, n) = ((some e, n), none)

instance abbrev bucket : LeaderKv Bucket
bucket = record { update = update; create = create; entry = λ b. some b.0 }

-- what a write that went through has done
abbrev Written : LeaderLeaseRecord → ℕ → Bucket → Bucket → Type 0
Written p r' s s' = (s'.0 ≡ some (record { value = p; revision = r' })) × (last s < r')

write-Written :
    (p : LeaderLeaseRecord) (r' : ℕ) (s : Bucket)
    → (write p s).1 ≡ some r'
    → Written p r' s (write p s).0
write-Written p r' s ok =
    let same : suc (last s) ≡ r' = cc in
    (ap (λ r. some (record { value = p; revision = r })) same, omega (arith, same))

swap-ok :
    (p : LeaderLeaseRecord) (e : Entry) (n r r' : ℕ) (b : Bool)
    → (b ≡ true → e.revision ≡ r)
    → (swap p e n b).1 ≡ some r'
    → ((swap p e n b).0.0 ≡ some (record { value = p; revision = r' }))
      × (last (some e, n) < r')
      × (e' : Entry) × (◌≡◌ {A = Option Entry} (some e) (some e'))
      × (e'.revision ≡ r)
swap-ok p e n r r' true same ok =
    let done = write-Written p r' (some e, n) ok in (done.0, done.1, e, refl, same refl)
swap-ok p e n r r' false same ok = cc

update-ok :
    (p : LeaderLeaseRecord) (r r' : ℕ) (s : Bucket)
    → (update p r s).1 ≡ some r'
    → ((update p r s).0.0 ≡ some (record { value = p; revision = r' }))
      × (last s < r')
      × (e : Entry) × (s.0 ≡ some e)
      × (e.revision ≡ r)
update-ok p r r' (none, n) ok = cc
update-ok p r r' (some e, n) ok =
    swap-ok p e n r r' (e.revision == r) (λ same. (nat_key.same_iff e.revision r).0 same) ok

abbrev Moves : LeaderLeaseRecord → Bucket → Bucket → Type 0
Moves p s s' =
    (last s ≤ last s')
    × ((s'.0 ≡ s.0)
        ⊎ ((r' : ℕ) × (s'.0 ≡ some (record { value = p; revision = r' })) × (last s < r')))

write-Moves : (p : LeaderLeaseRecord) (s : Bucket) → Moves p s (write p s).0
write-Moves p s = (omega arith, inr (suc (last s), refl, omega arith))

swap-Moves :
    (p : LeaderLeaseRecord) (e : Entry) (n : ℕ) (b : Bool) → Moves p (some e, n) (swap p e n b).0
swap-Moves p e n true = write-Moves p (some e, n)
swap-Moves p e n false = (omega arith, inl refl)

update-Moves : (p : LeaderLeaseRecord) (r : ℕ) (s : Bucket) → Moves p s (update p r s).0
update-Moves p r (none, n) = (omega arith, inl refl)
update-Moves p r (some e, n) = swap-Moves p e n (e.revision == r)

create-ok :
    (p : LeaderLeaseRecord) (r' : ℕ) (s : Bucket)
    → (create p s).1 ≡ some r'
    → ((create p s).0.0 ≡ some (record { value = p; revision = r' })) × (last s < r') × (s.0 ≡ none)
create-ok p r' (none, n) ok = let done = write-Written p r' (none, n) ok in (done.0, done.1, refl)
create-ok p r' (some e, n) ok = cc

create-Moves : (p : LeaderLeaseRecord) (s : Bucket) → Moves p s (create p s).0
create-Moves p (none, n) = write-Moves p (none, n)
create-Moves p (some e, n) = (omega arith, inl refl)

held_last : (s : Bucket) (e : Entry) → s.0 ≡ some e → e.revision ≤ last s
held_last (none, n) e held = cc
held_last (some e', n) e held =
    let same : e'.revision ≡ e.revision = ap (λ (x : Entry). x.revision) (some-injective held) in
    omega (arith, same)

bucket-laws : KvLaws bucket
bucket-laws = record {
  held = λ s. s.0;
  last = last;
  held_last = held_last;
  update_ok = update-ok;
  update_moves = update-Moves;
  create_ok = create-ok;
  create_moves = create-Moves;
  entry_held = λ s answer read. some-injective read;
}

abbrev empty : Bucket
empty = (none, 0)

abbrev url : String → String
url id = id

-- the ingress `a` has found no lease to renew, and then has created one
abbrev looked : World Bucket
looked = let w = start empty url in answered "a" creating (renew 10 w.store (w.ingress "a")) w

abbrev leased : World Bucket
leased = answered "a" observing (create_lease 10 looked.store (looked.ingress "a")) looked

leased-Run : Run bucket-laws (start empty url) leased
unfolding start started renew renew_at
leased-Run = and_then (and_then here (renews "a" 10 refl)) (creates "a" 10 refl)

-- the lease of `a` has grown too old, and `b` has created its own
abbrev taken : World Bucket
taken =
    answered "b" observing (create_lease 40 (none, 1) (leased.ingress "b"))
      (record leased { store = (none, 1) })

two_leaders :
    ((taken.ingress "a").leader_state.is_leader ≡ true)
    × ((taken.ingress "b").leader_state.is_leader ≡ true)
unfolding start started renew renew_at create_lease created leads set_leader_state
two_leaders = (refl, refl)

a_gives_way :
    (renew_or_observe_leader 50 taken.store (taken.ingress "a")).1.leader_state.is_leader ≡ false
unfolding renew_or_observe_leader start started renew renew_at renewed create_lease created leads
    set_leader_state then_create then_observe observed lease
a_gives_way = refl

Run-renews_own_example : Names bucket-laws "a" leased.store
unfolding start started renew renew_at renewed create_lease created leads lease set_leader_state
Run-renews_own_example =
    Run-renews_own bucket-laws empty url leased "a" 20 (leads 20 2 (leased.ingress "a")) leased-Run
      refl

renew_or_observe_leader-leads_iff_example :
    ((renew_or_observe_leader 20 leased.store (leased.ingress "b")).1.leader_state.is_leader ≡ true)
    ↔ Names bucket-laws "b" (renew_or_observe_leader 20 leased.store (leased.ingress "b")).0
unfolding renew_or_observe_leader start started renew renew_at renewed create_lease created leads
    set_leader_state then_create then_observe observed lease
renew_or_observe_leader-leads_iff_example =
    renew_or_observe_leader-leads_iff bucket-laws 20 leased.store (leased.ingress "b") refl

-- a bucket none of whose calls is answered
abbrev unreachable : LeaderKv Bucket
unreachable = record { update = λ p r s. (s, none); create = λ p s. (s, none); entry = λ s. none }

unreachable-IsDown : IsDown unreachable
unreachable-IsDown = record {
  no_update = λ p r s. refl;
  no_create = λ p s. refl;
  no_entry = λ s. refl;
}

turns-down_example :
    (turns ⦃kv = unreachable⦄ (100 ∷ 200 ∷ []) leased.store (leased.ingress "a")).1.leader_state
    ≡ (leased.ingress "a").leader_state
turns-down_example =
    turns-down ⦃kv = unreachable⦄ unreachable-IsDown (100 ∷ 200 ∷ []) leased.store
      (leased.ingress "a")
