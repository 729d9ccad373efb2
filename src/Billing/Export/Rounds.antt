-- ===== src/Billing/Export/Rounds.antt =====
-- crates/billing/src/export.rs: what is left to export after a round.
use wasm_cloud_platform.Common.{
  ℕ, ◌+◌, ◌^◌, ◌<◌, ◌≡◌, ap, sym, subst, ◌∙◌, refl, Bool, true, false, List, ◌∷◌, take, filter, ltb,
  Result, ok, text_key, All, arith,
}
use wasm_cloud_platform.Storage.Tables.{BillingRecord, Store, StorageError}
use wasm_cloud_platform.Storage.Tables.Works.{IsHealthy}
use wasm_cloud_platform.Storage.Routes.{all_parsed}
use wasm_cloud_platform.Storage.Records.{read_unexported_billing_records}
use wasm_cloud_platform.Storage.Records.Billed.{watermark, read_unexported-healthy, watermark-set}
use wasm_cloud_platform.Storage.Tables.Triples.{Ends}
use wasm_cloud_platform.Billing.Export.Later.{
  Event, later_sent, HoldsWord, WritesWord, IsAbove, IsPast, read-IsAbove, above-last_seq_of,
  later_sent-above,
}
use wasm_cloud_platform.Billing.Export.{
  batch_limit, last_seq_of, export_records, export_read, export_round,
}

module _ (export_batch : List BillingRecord → Bool) (records : List BillingRecord) where
  -- the records that a store has left to export
  abbrev pub left : ℕ → ℕ → List BillingRecord
  left limit mark = take limit (filter (λ billed. ltb mark billed.seq) records)

  export_records-left :
      (r : BillingRecord) (rest : List BillingRecord) (s : Store) (limit : ℕ)
      → IsHealthy s
      → all_parsed s.tables.billing ≡ ok records
      → export_batch (r ∷ rest) ≡ true
      → last_seq_of (r ∷ rest) < 2 ^ 64
      → (read_unexported_billing_records false limit (export_records export_batch (r ∷ rest) s).1).0
        ≡ ok (left limit (last_seq_of (r ∷ rest)))
  unfolding export_records
  export_records-left r rest s limit h parsed sent fits =
      let set = watermark-set (last_seq_of (r ∷ rest)) s h fits in
      rw sent (
        ap (λ end. end.0)
          (read_unexported-healthy _ limit records set.2 (ap all_parsed set.1 ∙ parsed))
        ∙ ap (λ mark. ok (left limit mark)) set.0)

  export_records-IsPast :
      (r : BillingRecord) (rest : List BillingRecord) (s : Store)
      → IsHealthy s
      → All HoldsWord s.tables.billing
      → export_batch (r ∷ rest) ≡ true
      → last_seq_of (r ∷ rest) < 2 ^ 64
      → IsPast (last_seq_of (r ∷ rest)) (export_records export_batch (r ∷ rest) s).1.tables
  unfolding export_records
  export_records-IsPast r rest s h words sent fits =
      let set = watermark-set (last_seq_of (r ∷ rest)) s h fits in
      rw sent (omega (arith, set.0), subst (All HoldsWord) (sym set.1) words)

  -- On a store whose transactions go through, a round that gets its records through makes the
  -- number of the last record that it sent the new watermark, and the next read finds the records
  -- with a higher number, of whatever node. In any later events, which write records and run rounds
  -- that get through or fail, only records with a number above that watermark are sent, as long as
  -- no read of the watermark's entry fails: a record with a lower number that the round did not send
  -- is not sent by any of them.
  pub export_round-passes_by :
      (s : Store) (r : BillingRecord) (rest : List BillingRecord) (limit : ℕ) (events : List Event)
      → IsHealthy s
      → all_parsed s.tables.billing ≡ ok records
      → All HoldsWord s.tables.billing
      → left batch_limit (watermark s.tables) ≡ r ∷ rest
      → export_batch (r ∷ rest) ≡ true
      → All WritesWord events
      → let last = last_seq_of (r ∷ rest) in
        let after = export_round export_batch false s in
        (after.0 ≡ r ∷ rest)
        × ((read_unexported_billing_records false limit after.1).0 ≡ ok (left limit last))
        × All (λ billed. last < billed.seq) (later_sent events after.1)
  unfolding export_round export_records
  export_round-passes_by s r rest limit events h parsed words found sent written =
      subst After (sym read) (
        sent_all,
        export_records-left r rest next limit h parsed sent fits,
        later_sent-above (last_seq_of (r ∷ rest)) events
            (export_records export_batch (r ∷ rest) next).1 written
            (export_records-IsPast r rest next h words sent fits),
      )
    where
      next : Store
      next = record s { transactions = s.transactions + 1 + 1 }

      After : Result StorageError (List BillingRecord) × Store → Type 0
      After end =
          ((export_read export_batch end).0 ≡ r ∷ rest)
          × ((read_unexported_billing_records false limit (export_read export_batch end).1).0
              ≡ ok (left limit (last_seq_of (r ∷ rest))))
          × All (λ billed. last_seq_of (r ∷ rest) < billed.seq)
              (later_sent events (export_read export_batch end).1)

      read : read_unexported_billing_records false batch_limit s ≡ (ok (r ∷ rest), next)
      read =
          read_unexported-healthy s batch_limit records h parsed
          ∙ ap (λ found. (ok found, next)) found

      fits : last_seq_of (r ∷ rest) < 2 ^ 64
      fits =
          let held =
            subst
              (λ end.
                Ends (λ found t. (t ≡ s.tables) × All (IsAbove (watermark s.tables)) found)
                  (λ t. t ≡ s.tables) end)
              read (read-IsAbove s.tables words s refl) in
          (above-last_seq_of (watermark s.tables) r rest held.1).1

      sent_all : (export_records export_batch (r ∷ rest) next).0 ≡ r ∷ rest
      sent_all = rw (export_records, sent) refl
