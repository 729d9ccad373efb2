-- ===== src/Billing/Writer/Runs.antt =====
-- The records that a run of the writer makes are a chain, numbered one after the other.
use wasm_cloud_platform.Common.{
  ℕ, ◌+◌, ◌≡◌, refl, List, [], ◌∷◌, Text, length, u64, leb, ◌⊎◌, inl, inr, Bool-cases,
}
use wasm_cloud_platform.Storage.Tables.{Bytes, BillingRecord, Store}
use wasm_cloud_platform.Billing.Chain.{IsLinked, last_of}
use wasm_cloud_platform.Billing.Writer.{
  CursorJson, Loop, Event, receive, tick, stop, batch_size, flush_batch, make_record, push,
  flush_full, turns,
}

module _ (json : CursorJson) (sha256_hex : Bytes → Text) where
  -- the records that the events make, from the loop's variables on
  unfoldable pub made : List Event → Loop → List BillingRecord
  made [] w = []
  made (receive input timestamp_ms ∷ events) w =
      make_record json sha256_hex w input timestamp_ms
      ∷ made events (push json sha256_hex w input timestamp_ms)
  made (tick ∷ events) w = made events w
  made (stop ∷ events) w = made events w

  -- each record has the number that follows the one before it
  abbrev pub IsNumbered : ℕ → List BillingRecord → Type 0
  IsNumbered seq [] = Unit
  IsNumbered seq (r ∷ rest) = (r.seq ≡ u64 (seq + 1)) × IsNumbered r.seq rest

  abbrev pub last_seq : ℕ → List BillingRecord → ℕ
  last_seq seq [] = seq
  last_seq seq (r ∷ rest) = last_seq r.seq rest

  abbrev bare : Loop → Loop
  bare w = record w { batch = [] }

  -- the records made are a chain from the loop's variables to those that the run ends with
  pub record IsChain (prev : Text) (first : ℕ) (end : Loop) (rs : List BillingRecord) : Type 0 where
    pub linked : IsLinked sha256_hex prev rs
    pub numbered : IsNumbered first rs
    pub prev_hash : end.prev_hash ≡ last_of sha256_hex prev rs
    pub seq : end.seq ≡ last_seq first rs

  pub flush_full-cases :
      (w : Loop) (s : Store)
      → (flush_full json sha256_hex w s ≡ (w, s))
        ⊎ (flush_full json sha256_hex w s ≡ flush_batch json w s)
  unfolding flush_full
  flush_full-cases w s = elim (Bool-cases (leb batch_size (length w.batch))) [
    | inl full ↦ inr (rw full refl)
    | inr partial ↦ inl (rw partial refl)
  ]

  -- what a run goes on with, the batch flushed or not
  module _ (events : List Event)
      (run : (w : Loop) (s : Store)
        → IsChain w.prev_hash w.seq (turns json sha256_hex events w s).0 (made events w)) where
    After : Loop → Loop × Store → Type 0
    After w v = IsChain w.prev_hash w.seq (turns json sha256_hex events v.0 v.1).0 (made events w)
