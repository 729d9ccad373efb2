-- ===== src/Billing/Writer/Restart.antt =====
-- What the writer finds when it is started again.
use wasm_cloud_platform.Common.{
  ℕ, ◌+◌, ◌≡◌, ◌≢◌, ap, sym, ◌∙◌, refl, subst, Option, none, some, List, [], ◌∷◌, ◌++◌, Text,
  lookup, ok, ◌⊎◌, inl, inr, beq_refl, text_key,
}
use mathlib.Core.List.{cons-ne-nil}
use wasm_cloud_platform.Storage.Keys.Laws.{lookup-put}
use wasm_cloud_platform.Storage.Tables.{Bytes, BillingRecord, Store, Tables, update}
use wasm_cloud_platform.Storage.Tables.Works.{IsHealthy, update-healthy, query-healthy}
use wasm_cloud_platform.Storage.Records.{write_billing_record}
use wasm_cloud_platform.Storage.Management.{save_meta, load_meta}
use wasm_cloud_platform.Billing.Writer.{
  BillingInput, CursorJson, Loop, Event, receive, tick, stop, billing_cursor_key, logged, write_all,
  flush_store, flush_batch, push, turn, turns, start, cursor_of, or_records, load_cursor,
}
use wasm_cloud_platform.Billing.Writer.Runs.{flush_full-cases}

append-ne-nil : (rs : List BillingRecord) (r : BillingRecord) → rs ++ r ∷ [] ≢ []
append-ne-nil [] r = cons-ne-nil r []
append-ne-nil (q ∷ rs) r = cons-ne-nil q _

or_records-some :
    (found : Option (ℕ × Text)) (cursor : ℕ × Text) (s : Store) (queried : (ℕ × Text) × Store)
    → found ≡ some cursor
    → (or_records found s queried).0 ≡ cursor
or_records-some none cursor s queried h = cc
or_records-some (some c) cursor s queried h = cc

-- the loop's variables with this cursor and an empty batch
resumed : Loop → ℕ × Text → Loop
resumed w cursor = record { node_id = w.node_id; seq = cursor.0; prev_hash = cursor.1; batch = [] }

logged-update :
    (write : Tables → Tables) (s : Store)
    → IsHealthy s
    → logged (update write) s
      ≡ record s { tables = write s.tables; transactions = s.transactions + 1 }
logged-update write s h = ap (λ end. end.1) (update-healthy write s h)

write_all-IsHealthy :
    (rs : List BillingRecord) (s : Store) → IsHealthy s → IsHealthy (write_all rs s)
unfolding write_all write_billing_record
write_all-IsHealthy [] s h = h
write_all-IsHealthy (r ∷ rs) s h =
    subst (λ t. IsHealthy (write_all rs t)) (sym (logged-update _ s h)) (write_all-IsHealthy rs _ h)

module _ (json : CursorJson) (sha256_hex : Bytes → Text) where
  -- the cursor that is stored is that of the loop
  abbrev pub Saved : Loop → Store → Type 0
  Saved w s =
      lookup (billing_cursor_key w.node_id) s.tables.schema_meta
      ≡ some (json.to_string (w.seq, w.prev_hash))

  -- a loop with nothing to flush has its cursor stored
  abbrev pub IsSettled : Loop → Store → Type 0
  IsSettled w s = IsHealthy s × ((w.batch ≢ []) ⊎ Saved w s)

  save_cursor-Saved :
      (w : Loop) (s : Store)
      → IsHealthy s
      → let t =
          logged
            (save_meta (billing_cursor_key w.node_id) (json.to_string (w.seq, w.prev_hash)))
            s in
        IsHealthy t × Saved w t
  unfolding save_meta
  save_cursor-Saved w s h =
      subst (λ t. IsHealthy t × Saved w t) (sym (logged-update _ s h))
        (h, lookup-put key key _ s.tables.schema_meta ∙ rw (beq_refl key) refl)
    where
      key : Text
      key = billing_cursor_key w.node_id

  flush_store-Saved :
      (batch : List BillingRecord) (w : Loop) (s : Store)
      → IsHealthy s
      → (batch ≢ []) ⊎ Saved w s
      → IsHealthy (flush_store json batch w s) × Saved w (flush_store json batch w s)
  unfolding flush_store
  flush_store-Saved [] w s h (inl more) = absurd (more refl)
  flush_store-Saved [] w s h (inr saved) = (h, saved)
  flush_store-Saved (r ∷ rest) w s h settled =
      save_cursor-Saved w (write_all (r ∷ rest) s) (write_all-IsHealthy (r ∷ rest) s h)

  flush_batch-IsSettled :
      (w : Loop) (s : Store)
      → IsSettled w s
      → IsSettled (flush_batch json w s).0 (flush_batch json w s).1
  unfolding flush_batch
  flush_batch-IsSettled w s h = let f = flush_store-Saved w.batch w s h.0 h.1 in (f.0, inr f.1)

  push-batch :
      (w : Loop) (input : BillingInput) (time : ℕ) → (push json sha256_hex w input time).batch ≢ []
  unfolding push
  push-batch w input time = append-ne-nil w.batch _

  turn-IsSettled :
      (event : Event) (w : Loop) (s : Store)
      → IsSettled w s
      → IsSettled (turn json sha256_hex event w s).0 (turn json sha256_hex event w s).1
  unfolding turn
  turn-IsSettled (receive input time) w s h = elim (flush_full-cases json sha256_hex next s) [
    | inl same ↦ subst (λ v. IsSettled v.0 v.1) (sym same) pushed
    | inr flushed ↦
        subst (λ v. IsSettled v.0 v.1) (sym flushed) (flush_batch-IsSettled next s pushed)
  ]
    where
      next : Loop
      next = push json sha256_hex w input time

      pushed : IsSettled next s
      pushed = (h.0, inl (push-batch w input time))
  turn-IsSettled tick w s h = flush_batch-IsSettled w s h
  turn-IsSettled stop w s h = flush_batch-IsSettled w s h

  turns-IsSettled :
      (events : List Event) (w : Loop) (s : Store)
      → IsSettled w s
      → IsSettled (turns json sha256_hex events w s).0 (turns json sha256_hex events w s).1
  unfolding turns
  turns-IsSettled [] w s h = h
  turns-IsSettled (event ∷ events) w s h = turns-IsSettled events _ _ (turn-IsSettled event w s h)

  module _
      (reads_back : (cursor : ℕ × Text) → json.from_str (json.to_string cursor) ≡ some cursor) where
    load_meta-Saved :
        (w : Loop) (s : Store)
        → IsHealthy s
        → Saved w s
        → cursor_of json (load_meta (billing_cursor_key w.node_id) s).0 ≡ some (w.seq, w.prev_hash)
    unfolding load_meta
    load_meta-Saved w s h saved =
        ap (λ end. cursor_of json end.0) (query-healthy _ s h)
        ∙ (ap (λ found. cursor_of json (ok found)) saved ∙ reads_back _)

    start-Saved :
        (w : Loop) (s : Store)
        → IsHealthy s
        → Saved w s
        → (start json w.node_id s).0 ≡ record w { batch = [] }
    unfolding start load_cursor resumed
    start-Saved w s h saved =
        ap (λ (found : ℕ × Text). resumed w found)
          (or_records-some _ (w.seq, w.prev_hash) _ _ (load_meta-Saved w s h saved))

    -- On a store whose transactions all go through, a writer that has stopped, after any inputs and
    -- timeouts, is started again with the number and the hash that it ended with: the chain goes on.
    -- serde_json reads back the cursor that it printed.
    pub turns-restarts :
        (events : List Event) (w : Loop) (s : Store)
        → IsSettled w s
        → let run = turns json sha256_hex events w s in
          let stopped = turn json sha256_hex stop run.0 run.1 in
          (start json run.0.node_id stopped.1).0 ≡ stopped.0
    unfolding turn flush_batch
    turns-restarts events w s h =
        let settled = turns-IsSettled events w s h in
        let flushed = flush_store-Saved _ _ _ settled.0 settled.1 in
        start-Saved (turns json sha256_hex events w s).0 _ flushed.0 flushed.1
