-- ===== src/Ingress/Turns.antt =====
-- crates/deploy-ingress/src/ha.rs: what a turn of the lease task leaves.
use wasm_cloud_platform.Common.{
  ℕ, ◌≡◌, ◌↔◌, ◌∙◌, refl, sym, ap, inl, inr, Bool, true, Option, none, some, String, ◌==◌,
  string_key, Bool-cases, List, [], ◌∷◌,
}
use wasm_cloud_platform.Ingress.{
  LeaderLeaseRecord, Entry, LeaderKv, Ingress, lease, leads, set_leader_state,
  set_unknown_leader_state, observed, renewed, created, renew, renew_at, create_lease, then_observe,
  then_create, renew_or_observe_leader,
}
use wasm_cloud_platform.Ingress.Elections.{KvLaws, Names, some-injective}

module _ {S : Type 0} ⦃kv : LeaderKv S⦄ (laws : KvLaws kv) where
  -- after a turn without an error the ingress is leader exactly if the lease names it
  abbrev IsRight : String → S × Ingress × Bool → Type 0
  IsRight id turn = turn.2 ≡ true → (turn.1.leader_state.is_leader ≡ true) ↔ Names laws id turn.0

  leads-IsRight :
      (now r : ℕ) (s : S) (i : Ingress)
      → laws.held s ≡ some (record { value = lease now i; revision = r })
      → IsRight i.ingress_id (s, leads now r i, true)
  unfolding leads set_leader_state lease
  leads-IsRight now r s i held ends = (
    (λ leader. record {
      entry = record { value = lease now i; revision = r };
      holds = held;
      of_id = refl;
    }),
    λ named. refl,
  )

  observed-IsRight :
      (s : S) (i : Ingress) (answer : Option (Option Entry))
      → kv.entry s ≡ answer
      → IsRight i.ingress_id (s, (observed i answer).0, (observed i answer).1)
  unfolding observed set_leader_state set_unknown_leader_state
  observed-IsRight s i none read ends = cc
  observed-IsRight s i (some none) read ends =
      let held = laws.entry_held s none read in
      ((λ leader. cc), λ named. let absurd = sym named.holds ∙ held in cc)
  observed-IsRight s i (some (some e)) read ends =
      let held = laws.entry_held s (some e) read in
      let iff = string_key.same_iff e.value.ingress_id i.ingress_id in
      elim (Bool-cases (e.value.ingress_id == i.ingress_id)) [
        | inl own ↦
            rw (own)
              ((λ leader. record { entry = e; holds = held; of_id = iff.0 own }), λ named. refl)
        | inr other ↦ rw (other) (
          (λ leader. cc),
          λ named.
              let same =
                ap (λ (x : Entry). x.value.ingress_id) (some-injective (sym held ∙ named.holds)) in
              sym other ∙ iff.1 (same ∙ named.of_id),
        )
      ]

  created-IsRight :
      (now : ℕ) (s' : S) (i : Ingress) (answer : Option ℕ)
      → ((r : ℕ)
          → answer ≡ some r
          → laws.held s' ≡ some (record { value = lease now i; revision = r }))
      → IsRight i.ingress_id (then_observe s' (created now i answer))
  unfolding created then_observe
  created-IsRight now s' i none holds = observed-IsRight s' i (kv.entry s') refl
  created-IsRight now s' i (some r) holds = leads-IsRight now r s' i (holds r refl)

  then_create-IsRight :
      (now : ℕ) (s : S) (i : Ingress) → IsRight i.ingress_id (then_create now s (inr i))
  unfolding then_create create_lease
  then_create-IsRight now s i =
      created-IsRight now (kv.create (lease now i) s).0 i _
        (λ r replied. (laws.create_ok (lease now i) r s replied).0)

  renewed-IsRight :
      (now : ℕ) (s' : S) (i : Ingress) (answer : Option ℕ)
      → ((r : ℕ)
          → answer ≡ some r
          → laws.held s' ≡ some (record { value = lease now i; revision = r }))
      → IsRight i.ingress_id (then_create now s' (renewed now i answer))
  unfolding renewed then_create
  renewed-IsRight now s' i none holds =
      then_create-IsRight now s' (record i { last_revision = none })
  renewed-IsRight now s' i (some r) holds = leads-IsRight now r s' i (holds r refl)

  renew_at-IsRight :
      (now : ℕ) (s : S) (i : Ingress) (known : Option ℕ)
      → IsRight i.ingress_id (then_create now (renew_at now s i known).0 (renew_at now s i known).1)
  unfolding renew_at
  renew_at-IsRight now s i none = then_create-IsRight now s i
  renew_at-IsRight now s i (some r) =
      renewed-IsRight now (kv.update (lease now i) r s).0 i _
        (λ r' replied. (laws.update_ok (lease now i) r r' s replied).0)

  -- A turn that ends without an error, whatever the ingress knew before and whichever of its calls
  -- fail, leaves the ingress as leader exactly if the lease that the bucket then holds names it.
  pub renew_or_observe_leader-leads_iff :
      (now : ℕ) (s : S) (i : Ingress)
      → (renew_or_observe_leader now s i).2 ≡ true
      → ((renew_or_observe_leader now s i).1.leader_state.is_leader ≡ true)
        ↔ Names laws i.ingress_id (renew_or_observe_leader now s i).0
  unfolding renew_or_observe_leader renew
  renew_or_observe_leader-leads_iff now s i = renew_at-IsRight now s i i.last_revision

-- the turns of an ingress at the given times, one after the other
unfoldable pub turns : {S : Type 0} ⦃kv : LeaderKv S⦄ → List ℕ → S → Ingress → S × Ingress
turns [] s i = (s, i)
turns (now ∷ rest) s i = let turn = renew_or_observe_leader now s i in turns rest turn.0 turn.1

-- no call of the bucket is answered
pub record IsDown {S : Type 0} (kv : LeaderKv S) : Type 0 where
  pub no_update : (p : LeaderLeaseRecord) (r : ℕ) (s : S) → (kv.update p r s).1 ≡ none
  pub no_create : (p : LeaderLeaseRecord) (s : S) → (kv.create p s).1 ≡ none
  pub no_entry : (s : S) → kv.entry s ≡ none

module _ {S : Type 0} ⦃kv : LeaderKv S⦄ (down : IsDown kv) where
  then_create-down :
      (now : ℕ) (s : S) (i : Ingress) → (then_create now s (inr i)).1.leader_state ≡ i.leader_state
  unfolding then_create create_lease created then_observe observed
  then_create-down now s i =
      rw (down.no_create (lease now i) s, down.no_entry (kv.create (lease now i) s).0) refl

  renew_at-down :
      (now : ℕ) (s : S) (i : Ingress) (known : Option ℕ)
      → (then_create now (renew_at now s i known).0 (renew_at now s i known).1).1.leader_state
        ≡ i.leader_state
  unfolding renew_at renewed
  renew_at-down now s i none = then_create-down now s i
  renew_at-down now s i (some r) =
      rw (down.no_update (lease now i) r s)
        (then_create-down now (kv.update (lease now i) r s).0 (record i { last_revision = none }))

  -- While no call of the bucket is answered, an ingress keeps its state through any turns: one that
  -- was the leader goes on saying so, however long its lease has been over.
  pub turns-down :
      (nows : List ℕ) (s : S) (i : Ingress) → (turns nows s i).1.leader_state ≡ i.leader_state
  unfolding turns renew_or_observe_leader renew
  turns-down [] s i = refl
  turns-down (now ∷ rest) s i =
      turns-down rest (renew_or_observe_leader now s i).0 (renew_or_observe_leader now s i).1
      ∙ renew_at-down now s i i.last_revision
