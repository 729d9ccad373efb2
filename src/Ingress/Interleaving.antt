-- ===== src/Ingress/Interleaving.antt =====
-- crates/deploy-ingress/src/ha.rs: the lease tasks of several ingresses, whose calls of the bucket
-- come in any order.
use wasm_cloud_platform.Common.{
  arith, ℕ, ◌≤◌, ◌≡◌, ◌⊎◌, ◌∙◌, refl, sym, ap, subst, inl, inr, false, Option, none, some, String,
  ◌==◌, string_key, if◌then◌else◌, Bool-cases,
}
use wasm_cloud_platform.Ingress.{
  LeaderKv, Ingress, lease, observed, renewed, renew, renew_at, left, create_lease,
}
use wasm_cloud_platform.Ingress.Elections.{
  KvLaws, Moved, IsOwner, Names, Moved-IsOwner, renew-IsOwner, renew-Moved, create_lease-IsOwner,
  create_lease-Moved, observed-IsOwner, forgets-IsOwner,
}

-- where the task of an ingress stands in `renew_or_observe_leader`
pub data Phase : Type 0 where
  idle creating observing : Phase

abbrev pub set_at : {A : Type 0} → String → A → (String → A) → String → A
set_at id a f k = if id == k then a else f k

-- the bucket and the ingresses, by their ids
pub record World (S : Type 0) : Type 0 where
  pub store : S
  pub ingress : String → Ingress
  pub phase : String → Phase

-- an ingress that has just been started
unfoldable pub started : (String → String) → String → Ingress
started url id = record {
  ingress_id = id;
  artifact_server_url = url id;
  leader_state = record {
    is_leader = false;
    leader_ingress_id = none;
    leader_artifact_server_url = none;
  };
  last_revision = none;
}

module _ {S : Type 0} where
  unfoldable pub start : S → (String → String) → World S
  start s url = record { store = s; ingress = started url; phase = λ _. idle }

  -- what an answered call leaves: the turn ends, or goes on at the next call
  abbrev pub answered : String → Phase → S × (Ingress ⊎ Ingress) → World S → World S
  answered id next called w = record {
    store = called.0;
    ingress = set_at id (left called.1) w.ingress;
    phase = set_at id (elim called.1 [ inl _ ↦ idle | inr _ ↦ next ]) w.phase;
  }

  module _ ⦃kv : LeaderKv S⦄ (laws : KvLaws kv) where
    -- A call of one ingress, or a step of the bucket, in which the lease grows too old.
    pub data Step : World S → World S → Type 0 where
      renews :
          {w : World S} (id : String) (now : ℕ)
          → w.phase id ≡ idle
          → Step w (answered id creating (renew now w.store (w.ingress id)) w)
      creates :
          {w : World S} (id : String) (now : ℕ)
          → w.phase id ≡ creating
          → Step w (answered id observing (create_lease now w.store (w.ingress id)) w)
      observes :
          {w : World S} (id : String)
          → w.phase id ≡ observing
          → Step w (record w {
            ingress = set_at id (observed (w.ingress id) (kv.entry w.store)).0 w.ingress;
            phase = set_at id idle w.phase;
          })
      lapses :
          {w : World S} (s : S)
          → laws.held s ≡ none
          → laws.last w.store ≤ laws.last s
          → Step w (record w { store = s })

    pub data Run : World S → World S → Type 0 where
      here : {w : World S} → Run w w
      and_then : {a b c : World S} → Run a b → Step b c → Run a c

    abbrev IsOwned : World S → Type 0
    IsOwned w = (id : String) → IsOwner laws w.store id (w.ingress id)

    start-IsOwned : (s : S) (url : String → String) → IsOwned (start s url)
    unfolding start started
    start-IsOwned s url id = forgets-IsOwner laws s id (started url id) refl refl

    set_at-IsOwned :
        (s s' : S) (id : String) (i : Ingress) (ingress : String → Ingress)
        → Moved laws s s'
        → ((k : String) → IsOwner laws s k (ingress k))
        → IsOwner laws s' id i
        → (k : String) → IsOwner laws s' k (set_at id i ingress k)
    set_at-IsOwned s s' id i ingress moved h own k = elim (Bool-cases (id == k)) [
      | inl same ↦
          rw (same) (subst (λ k. IsOwner laws s' k i) ((string_key.same_iff id k).0 same) own)
      | inr other ↦ rw (other) (Moved-IsOwner laws s s' k (ingress k) moved (h k))
    ]

    Step-IsOwned : {w w' : World S} → Step w w' → IsOwned w → IsOwned w'
    Step-IsOwned (renews {w} id now at) h =
        let called = renew now w.store (w.ingress id) in
        set_at-IsOwned w.store called.0 id (left called.1) w.ingress
          (renew-Moved laws now w.store (w.ingress id)) h
          (renew-IsOwner laws now w.store id (w.ingress id) (h id))
    Step-IsOwned (creates {w} id now at) h =
        let called = create_lease now w.store (w.ingress id) in
        set_at-IsOwned w.store called.0 id (left called.1) w.ingress
          (create_lease-Moved laws now w.store (w.ingress id)) h
          (create_lease-IsOwner laws now w.store id (w.ingress id) (h id))
    Step-IsOwned (observes {w} id at) h =
        set_at-IsOwned w.store w.store id (observed (w.ingress id) (kv.entry w.store)).0 w.ingress
          (record { later = omega arith; holds = inl refl }) h
          (observed-IsOwner laws w.store id (w.ingress id) (kv.entry w.store) refl (h id))
    Step-IsOwned (lapses {w} s lost later) h = λ id.
        Moved-IsOwner laws w.store s id (w.ingress id)
          (record { later = later; holds = inr (inl lost) }) (h id)

    Run-IsOwned : {a b : World S} → Run a b → IsOwned a → IsOwned b
    Run-IsOwned here h = h
    Run-IsOwned (and_then before step) h = Step-IsOwned step (Run-IsOwned before h)

    renew_at-Names :
        (now : ℕ) (s : S) (id : String) (i : Ingress) (known : Option ℕ) (leader : Ingress)
        → i.last_revision ≡ known
        → IsOwner laws s id i
        → (renew_at now s i known).1 ≡ inl leader
        → Names laws id s
    unfolding renew_at renewed
    renew_at-Names now s id i none leader knows h leads = cc
    renew_at-Names now s id i (some r) leader knows h leads =
        go (kv.update (lease now i) r s).1 refl leads
      where
        go :
            (answer : Option ℕ)
            → (kv.update (lease now i) r s).1 ≡ answer
            → renewed now i answer ≡ inl leader
            → Names laws id s
        go none replied leads = cc
        go (some r') replied leads =
            let ok = laws.update_ok (lease now i) r r' s replied in
            record {
              entry = ok.2;
              holds = ok.3;
              of_id = h.owns ok.2 (knows ∙ ap some (sym ok.4)) ok.3;
            }

    -- However the calls of the ingresses and the ageing of the lease come in, also where answers
    -- are lost: an ingress that has its lease renewed is the one that the lease names.
    pub Run-renews_own :
        (s : S) (url : String → String) (w : World S) (id : String) (now : ℕ) (leader : Ingress)
        → Run (start s url) w
        → (renew now w.store (w.ingress id)).1 ≡ inl leader
        → Names laws id w.store
    unfolding renew
    Run-renews_own s url w id now leader run renewed =
        renew_at-Names now w.store id (w.ingress id) (w.ingress id).last_revision leader refl
          (Run-IsOwned run (start-IsOwned s url) id) renewed
