-- ===== src/Ingress.antt =====
-- crates/deploy-ingress/src/ha.rs: the lease by which the deploy ingresses elect a leader. The
-- JetStream key-value bucket is an interface: its calls by one key, and what its documentation
-- says of revisions.
pub mod Elections
pub mod Interleaving
pub mod Turns
mod Tests
use wasm_cloud_platform.Common.{
  ℕ, ◌+◌, ◌<◌, ◌≤◌, ◌≡◌, ◌⊎◌, inl, inr, Bool, true, false, Option, none, some, String, Result, ok,
  err, ◌==◌, string_key, if◌then◌else◌,
}

pub record LeaderLeaseRecord : Type 0 where
  pub ingress_id : String
  pub artifact_server_url : String
  pub updated_at_unix_secs : ℕ

-- `jetstream::kv::Entry`
pub record Entry : Type 0 where
  pub value : LeaderLeaseRecord
  pub revision : ℕ

-- The calls of the bucket on the lease's key, on a state `S` of the servers and the network. A call
-- that is answered with an error has no revision. A bucket answers a read with an error, with
-- nothing or with an entry.
pub record LeaderKv (S : Type 0) : Type 0 where
  pub update : LeaderLeaseRecord → ℕ → S → S × Option ℕ
  pub create : LeaderLeaseRecord → S → S × Option ℕ
  pub entry : S → Option (Option Entry)

pub record LeaderState : Type 0 where
  pub is_leader : Bool
  pub leader_ingress_id : Option String
  pub leader_artifact_server_url : Option String

-- What an ingress keeps: its `AppState` and the variable of its lease task.
pub record Ingress : Type 0 where
  pub ingress_id : String
  pub artifact_server_url : String
  pub leader_state : LeaderState
  pub last_revision : Option ℕ

unfoldable pub set_leader_state : LeaderLeaseRecord → Bool → Ingress → Ingress
set_leader_state leader is_leader i = record i {
  leader_state = record {
    is_leader = is_leader;
    leader_ingress_id = some leader.ingress_id;
    leader_artifact_server_url = some leader.artifact_server_url;
  };
}

unfoldable pub set_unknown_leader_state : Ingress → Ingress
set_unknown_leader_state i = record i {
  leader_state = record {
    is_leader = false;
    leader_ingress_id = none;
    leader_artifact_server_url = none;
  };
}

-- `LeaderLeaseRecord { .. }`
unfoldable pub lease : ℕ → Ingress → LeaderLeaseRecord
lease now i = record {
  ingress_id = i.ingress_id;
  artifact_server_url = i.artifact_server_url;
  updated_at_unix_secs = now;
}

-- the ingress that has written the lease at a revision
unfoldable pub leads : ℕ → ℕ → Ingress → Ingress
leads now revision i =
    set_leader_state (lease now i) true (record i { last_revision = some revision })

-- The answer of a call that writes the lease. `inl` ends the turn, `inr` goes on with the next call.
unfoldable pub renewed : ℕ → Ingress → Option ℕ → Ingress ⊎ Ingress
renewed now i (some revision) = inl (leads now revision i)
renewed now i none = inr (record i { last_revision = none })

unfoldable pub created : ℕ → Ingress → Option ℕ → Ingress ⊎ Ingress
created now i (some revision) = inl (leads now revision i)
created now i none = inr i

-- the ingress that a call leaves, whether the turn ends with it or goes on
abbrev pub left : Ingress ⊎ Ingress → Ingress
left (inl i) = i
left (inr i) = i

-- the answer of the read, and whether the turn ends without an error
unfoldable pub observed : Ingress → Option (Option Entry) → Ingress × Bool
observed i none = (i, false)
observed i (some none) = (set_unknown_leader_state i, true)
observed i (some (some e)) = (
  if e.value.ingress_id == i.ingress_id
      then set_leader_state e.value true (record i { last_revision = some e.revision })
      else set_leader_state e.value false (record i { last_revision = none }),
  true,
)

module _ {S : Type 0} ⦃kv : LeaderKv S⦄ where
  -- the first call of a turn
  unfoldable pub renew_at : ℕ → S → Ingress → Option ℕ → S × (Ingress ⊎ Ingress)
  renew_at now s i none = (s, inr i)
  renew_at now s i (some revision) =
      let called = kv.update (lease now i) revision s in (called.0, renewed now i called.1)

  unfoldable pub renew : ℕ → S → Ingress → S × (Ingress ⊎ Ingress)
  renew now s i = renew_at now s i i.last_revision

  -- the second call of a turn
  unfoldable pub create_lease : ℕ → S → Ingress → S × (Ingress ⊎ Ingress)
  create_lease now s i =
      let called = kv.create (lease now i) s in (called.0, created now i called.1)

  -- the third call, if the turn is not over: the bucket, the ingress and whether there is no error
  unfoldable pub then_observe : S → Ingress ⊎ Ingress → S × Ingress × Bool
  then_observe s (inl leader) = (s, leader, true)
  then_observe s (inr i) = let seen = observed i (kv.entry s) in (s, seen.0, seen.1)

  unfoldable pub then_create : ℕ → S → Ingress ⊎ Ingress → S × Ingress × Bool
  then_create now s (inl leader) = (s, leader, true)
  then_create now s (inr i) = let called = create_lease now s i in then_observe called.0 called.1

  unfoldable pub renew_or_observe_leader : ℕ → S → Ingress → S × Ingress × Bool
  renew_or_observe_leader now s i = let called = renew now s i in then_create now called.0 called.1
