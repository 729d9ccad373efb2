-- ===== src/Billing.antt =====
-- crates/billing and common/src/billing.rs: the hash chain of billing records. SHA-256 is a
-- parameter, `sha256_hex`: the digest of some bytes, printed as hex.
pub mod Chain
pub mod Writer
pub mod Report
pub mod Export
pub mod Queries
mod Tests
use wasm_cloud_platform.Common.{
  ℕ, zero, suc, ◌+◌, ◌/◌, ◌%◌, Bool, true, false, List, [], ◌∷◌, ◌++◌, Text, length, Result, ok,
  err, text_key, ◌==◌, if◌then◌else◌,
}
use wasm_cloud_platform.Storage.Tables.{Bytes, BillingRecord}

-- `n.to_le_bytes()` of an integer of so many bytes
unfoldable pub to_le_bytes : ℕ → ℕ → Bytes
to_le_bytes zero n = []
to_le_bytes (suc bytes) n = n % 256 ∷ to_le_bytes bytes (n / 256)

abbrev pub of_bool : Bool → ℕ
of_bool true = 1
of_bool false = 0

-- what `compute_hash` feeds to the hasher; a text is its UTF-8 bytes
unfoldable pub hashed_bytes : BillingRecord → Bytes
hashed_bytes r =
    to_le_bytes 8 r.seq
    ++ (r.prev_hash
        ++ (r.tenant_id
            ++ (r.app_id
                ++ (r.instance_id
                    ++ (r.node_id
                        ++ (to_le_bytes 8 r.timestamp_ms
                            ++ (to_le_bytes 8 r.fuel_consumed
                                ++ (to_le_bytes 8 r.fuel_quota
                                    ++ (to_le_bytes 8 r.ram_bytes
                                        ++ (to_le_bytes 8 r.wall_clock_ms
                                            ++ (to_le_bytes 2 r.status_code
                                                ++ (of_bool r.is_trap ∷ []))))))))))))

pub data ChainError : Type 0 where
  broken_link tampered_record : ℕ → Text → Text → ChainError

module _ (sha256_hex : Bytes → Text) where
  unfoldable pub compute_hash : BillingRecord → Text
  compute_hash r = sha256_hex (hashed_bytes r)

  -- the loop of `verify_chain` on the records to go
  unfoldable pub verify_from : Text → List BillingRecord → Result ChainError (Unit {0})
  verify_from expected_prev [] = ok tt
  verify_from expected_prev (r ∷ rest) =
      let next = verify_from r.record_hash rest in
      if r.prev_hash == expected_prev
      then (if compute_hash r == r.record_hash
          then next
          else err (tampered_record r.seq (compute_hash r) r.record_hash))
      else err (broken_link r.seq expected_prev r.prev_hash)

  unfoldable pub verify_chain : List BillingRecord → Result ChainError ℕ
  verify_chain records = elim (verify_from [] records) [
    | ok _ ↦ ok (length records)
    | err e ↦ err e
  ]
