-- ===== src/Ingress/Elections.antt =====
-- crates/deploy-ingress/src/ha.rs: what the lease says of who leads.
use wasm_cloud_platform.Common.{
  ℕ, ◌<◌, ◌≤◌, ◌≡◌, ◌⊎◌, ◌∙◌, refl, sym, ap, subst, inl, inr, false, Option, none, some, String,
  ◌==◌, string_key, Bool-cases, arith,
}
use wasm_cloud_platform.Ingress.{
  LeaderLeaseRecord, Entry, LeaderKv, Ingress, lease, leads, renewed, created, left, observed,
  set_leader_state, set_unknown_leader_state, renew, renew_at, create_lease,
}

-- What the bucket documents. It holds one entry at most. Every write has a revision above all
-- earlier ones; an update goes through only at the revision that it names, and a create only if
-- nothing is held. A write that is answered with an error may have happened all the same.
pub record KvLaws {S : Type 0} (kv : LeaderKv S) : Type 0 where
  pub held : S → Option Entry
  pub last : S → ℕ
  pub held_last : (s : S) (e : Entry) → held s ≡ some e → e.revision ≤ last s
  pub update_ok :
      (p : LeaderLeaseRecord) (r r' : ℕ) (s : S)
      → (kv.update p r s).1 ≡ some r'
      → (held (kv.update p r s).0 ≡ some (record { value = p; revision = r' }))
        × (last s < r')
        × (e : Entry) × (held s ≡ some e)
        × (e.revision ≡ r)
  pub update_moves :
      (p : LeaderLeaseRecord) (r : ℕ) (s : S)
      → (last s ≤ last (kv.update p r s).0)
        × ((held (kv.update p r s).0 ≡ held s)
            ⊎ ((r' : ℕ) × (held (kv.update p r s).0 ≡ some (record { value = p; revision = r' }))
                × (last s < r')))
  pub create_ok :
      (p : LeaderLeaseRecord) (r' : ℕ) (s : S)
      → (kv.create p s).1 ≡ some r'
      → (held (kv.create p s).0 ≡ some (record { value = p; revision = r' }))
        × (last s < r')
        × (held s ≡ none)
  pub create_moves :
      (p : LeaderLeaseRecord) (s : S)
      → (last s ≤ last (kv.create p s).0)
        × ((held (kv.create p s).0 ≡ held s)
            ⊎ ((r' : ℕ) × (held (kv.create p s).0 ≡ some (record { value = p; revision = r' }))
                × (last s < r')))
  pub entry_held : (s : S) (answer : Option Entry) → kv.entry s ≡ some answer → held s ≡ answer

pub some-injective : {A : Type 0} {a b : A} → some a ≡ some b → a ≡ b
some-injective h = cc

ap_revision : {a b : Entry} → some a ≡ some b → a.revision ≡ b.revision
ap_revision h = ap (λ (e : Entry). e.revision) (some-injective h)

module _ {S : Type 0} ⦃kv : LeaderKv S⦄ (laws : KvLaws kv) where
  -- the lease that the bucket holds is one of the ingress
  pub record Names (id : String) (s : S) : Type 0 where
    pub entry : Entry
    pub holds : laws.held s ≡ some entry
    pub of_id : entry.value.ingress_id ≡ id

  -- how the bucket may go on: it keeps what it holds, loses it, or holds a new entry
  pub record Moved (s s' : S) : Type 0 where
    pub later : laws.last s ≤ laws.last s'
    pub holds :
        (laws.held s' ≡ laws.held s)
        ⊎ ((laws.held s' ≡ none)
            ⊎ ((e : Entry) × (laws.held s' ≡ some e) × (laws.last s < e.revision)))

  update-Moved : (p : LeaderLeaseRecord) (r : ℕ) (s : S) → Moved s (kv.update p r s).0
  update-Moved p r s =
      let moves = laws.update_moves p r s in
      record {
        later = moves.0;
        holds = elim moves.1 [
          | inl kept ↦ inl kept
          | inr (r', new, above) ↦ inr (inr (record { value = p; revision = r' }, new, above))
        ];
      }

  create-Moved : (p : LeaderLeaseRecord) (s : S) → Moved s (kv.create p s).0
  create-Moved p s =
      let moves = laws.create_moves p s in
      record {
        later = moves.0;
        holds = elim moves.1 [
          | inl kept ↦ inl kept
          | inr (r', new, above) ↦ inr (inr (record { value = p; revision = r' }, new, above))
        ];
      }

  -- The ingress of the name `id` knows no revision but those of earlier writes, and where it knows
  -- the one that is held, the lease is its own.
  pub record IsOwner (s : S) (id : String) (i : Ingress) : Type 0 where
    pub named : i.ingress_id ≡ id
    pub known : (r : ℕ) → i.last_revision ≡ some r → r ≤ laws.last s
    pub owns :
        (e : Entry)
        → i.last_revision ≡ some e.revision
        → laws.held s ≡ some e
        → e.value.ingress_id ≡ id

  pub Moved-IsOwner :
      (s s' : S) (id : String) (i : Ingress) → Moved s s' → IsOwner s id i → IsOwner s' id i
  Moved-IsOwner s s' id i moved h = record {
    named = h.named;
    known = λ r knows. omega (arith, h.known r knows, moved.later);
    owns = λ e knows held. elim moved.holds [
      | inl kept ↦ h.owns e knows (sym kept ∙ held)
      | inr (inl lost) ↦ cc
      | inr (inr (new, held', above)) ↦
          ground (arith, h.known e.revision knows, above, ap_revision (sym held' ∙ held))
    ];
  }

  leads-IsOwner :
      (now r : ℕ) (s : S) (id : String) (i : Ingress)
      → i.ingress_id ≡ id
      → laws.held s ≡ some (record { value = lease now i; revision = r })
      → IsOwner s id (leads now r i)
  unfolding leads set_leader_state lease
  leads-IsOwner now r s id i named held = record {
    named = named;
    known =
        λ r' knows. subst (λ q. q ≤ laws.last s) (some-injective knows) (laws.held_last s _ held);
    owns = λ e knows held'.
        ap (λ x. x.value.ingress_id) (sym (some-injective (sym held ∙ held'))) ∙ named;
  }

  -- the ingress without a revision
  pub forgets-IsOwner :
      (s : S) (id : String) (i : Ingress)
      → i.ingress_id ≡ id
      → i.last_revision ≡ none
      → IsOwner s id i
  forgets-IsOwner s id i named forgets = record {
    named = named;
    known = λ r knows. cc;
    owns = λ e knows held. cc;
  }

  renewed-IsOwner :
      (now : ℕ) (s' : S) (id : String) (i : Ingress) (answer : Option ℕ)
      → i.ingress_id ≡ id
      → ((r : ℕ)
          → answer ≡ some r
          → laws.held s' ≡ some (record { value = lease now i; revision = r }))
      → IsOwner s' id (left (renewed now i answer))
  unfolding renewed
  renewed-IsOwner now s' id i none named holds =
      forgets-IsOwner s' id (record i { last_revision = none }) named refl
  renewed-IsOwner now s' id i (some r) named holds =
      leads-IsOwner now r s' id i named (holds r refl)

  created-IsOwner :
      (now : ℕ) (s' : S) (id : String) (i : Ingress) (answer : Option ℕ)
      → IsOwner s' id i
      → ((r : ℕ)
          → answer ≡ some r
          → laws.held s' ≡ some (record { value = lease now i; revision = r }))
      → IsOwner s' id (left (created now i answer))
  unfolding created
  created-IsOwner now s' id i none h holds = h
  created-IsOwner now s' id i (some r) h holds = leads-IsOwner now r s' id i h.named (holds r refl)

  renew_at-IsOwner :
      (now : ℕ) (s : S) (id : String) (i : Ingress) (known : Option ℕ)
      → IsOwner s id i
      → IsOwner (renew_at now s i known).0 id (left (renew_at now s i known).1)
  unfolding renew_at
  renew_at-IsOwner now s id i none h = h
  renew_at-IsOwner now s id i (some r) h =
      renewed-IsOwner now (kv.update (lease now i) r s).0 id i _ h.named
        (λ r' answered. (laws.update_ok (lease now i) r r' s answered).0)

  renew_at-Moved :
      (now : ℕ) (s : S) (i : Ingress) (known : Option ℕ) → Moved s (renew_at now s i known).0
  unfolding renew_at
  renew_at-Moved now s i none = record { later = omega arith; holds = inl refl }
  renew_at-Moved now s i (some r) = update-Moved (lease now i) r s

  pub renew-IsOwner :
      (now : ℕ) (s : S) (id : String) (i : Ingress)
      → IsOwner s id i
      → IsOwner (renew now s i).0 id (left (renew now s i).1)
  unfolding renew
  renew-IsOwner now s id i h = renew_at-IsOwner now s id i i.last_revision h

  pub renew-Moved : (now : ℕ) (s : S) (i : Ingress) → Moved s (renew now s i).0
  unfolding renew
  renew-Moved now s i = renew_at-Moved now s i i.last_revision

  pub create_lease-Moved : (now : ℕ) (s : S) (i : Ingress) → Moved s (create_lease now s i).0
  unfolding create_lease
  create_lease-Moved now s i = create-Moved (lease now i) s

  pub create_lease-IsOwner :
      (now : ℕ) (s : S) (id : String) (i : Ingress)
      → IsOwner s id i
      → IsOwner (create_lease now s i).0 id (left (create_lease now s i).1)
  unfolding create_lease
  create_lease-IsOwner now s id i h =
      created-IsOwner now (kv.create (lease now i) s).0 id i _
        (Moved-IsOwner s (kv.create (lease now i) s).0 id i (create-Moved (lease now i) s) h)
        (λ r' answered. (laws.create_ok (lease now i) r' s answered).0)

  pub observed-IsOwner :
      (s : S) (id : String) (i : Ingress) (answer : Option (Option Entry))
      → kv.entry s ≡ answer
      → IsOwner s id i
      → IsOwner s id (observed i answer).0
  unfolding observed set_leader_state set_unknown_leader_state
  observed-IsOwner s id i none read h = h
  observed-IsOwner s id i (some none) read h = record {
    named = h.named;
    known = h.known;
    owns = h.owns;
  }
  observed-IsOwner s id i (some (some e)) read h =
      let held = laws.entry_held s (some e) read in
      elim (Bool-cases (e.value.ingress_id == i.ingress_id)) [
        | inl own ↦ rw (own) (record {
          named = h.named;
          known = λ r knows.
              subst (λ q. q ≤ laws.last s) (some-injective knows) (laws.held_last s e held);
          owns = λ e' knows held'.
              ap (λ (x : Entry). x.value.ingress_id) (some-injective (sym held' ∙ held))
              ∙ (string_key.same_iff e.value.ingress_id i.ingress_id).0 own
              ∙ h.named;
        })
        | inr other ↦ rw (other) (
            forgets-IsOwner s id
              (set_leader_state e.value false (record i { last_revision = none })) h.named refl)
      ]
