-- ===== src/Billing/Export.antt =====
-- crates/billing/src/export.rs: one round of the export loop. What sends the records away is a
-- parameter, which says whether it got through, and so is whether redb's read of the watermark's
-- entry fails; how a record becomes a line of JSON is left out.
pub mod Later
pub mod Rounds
use wasm_cloud_platform.Common.{ℕ, Bool, true, false, List, [], ◌∷◌, Result, ok, err, if◌then◌else◌}
use wasm_cloud_platform.Storage.Tables.{BillingRecord, Store, StorageError}
use wasm_cloud_platform.Storage.Records.{
  read_unexported_billing_records, set_billing_export_watermark,
}

abbrev pub batch_limit : ℕ
batch_limit = 10000

-- `records.last().map(|r| r.seq).unwrap_or(0)`
abbrev pub last_seq_of : List BillingRecord → ℕ
last_seq_of [] = 0
last_seq_of (r ∷ []) = r.seq
last_seq_of (r ∷ q ∷ rest) = last_seq_of (q ∷ rest)

module _ (export_batch : List BillingRecord → Bool) where
  -- what was sent away, and the store afterwards; an error is logged
  unfoldable pub export_records : List BillingRecord → Store → List BillingRecord × Store
  export_records [] s = ([], s)
  export_records (r ∷ rest) s =
      if export_batch (r ∷ rest)
      then (r ∷ rest, (set_billing_export_watermark (last_seq_of (r ∷ rest)) s).1)
      else ([], s)

  abbrev pub export_read :
      Result StorageError (List BillingRecord) × Store → List BillingRecord × Store
  export_read (ok records, s) = export_records records s
  export_read (err e, s) = ([], s)

  unfoldable pub export_round : Bool → Store → List BillingRecord × Store
  export_round get_fails s = export_read (read_unexported_billing_records get_fails batch_limit s)
