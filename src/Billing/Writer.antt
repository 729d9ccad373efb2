-- ===== src/Billing/Writer.antt =====
-- crates/billing/src/collector.rs: the task that turns billing inputs into a chain of stored
-- records. One turn of its loop is an event. The deadline is its `tick`: the timeout of a partial
-- batch; `stop` is the closed channel or the shutdown signal, after which no event follows.
-- serde_json prints and parses the cursor.
pub mod Runs
pub mod Restart
use wasm_cloud_platform.Common.{
  ℕ, ◌+◌, Bool, true, false, Option, none, some, List, [], ◌∷◌, ◌++◌, Text, length, codes, u64,
  Result, ok, err, leb, if◌then◌else◌,
}
use wasm_cloud_platform.AppId.{colon}
use wasm_cloud_platform.Storage.Tables.{Bytes, BillingRecord, Store, StorageError, Action}
use wasm_cloud_platform.Storage.Records.{
  write_billing_record, get_billing_sequence_for_node, get_last_billing_hash_for_node,
}
use wasm_cloud_platform.Storage.Management.{save_meta, load_meta}
use wasm_cloud_platform.Billing.{compute_hash}

pub record BillingInput : Type 0 where
  pub tenant_id : Text
  pub app_id : Text
  pub instance_id : Text
  pub fuel_consumed : ℕ
  pub fuel_quota : ℕ
  pub ram_bytes : ℕ
  pub wall_clock_ms : ℕ
  pub status_code : ℕ
  pub is_trap : Bool

-- `serde_json` on the pair `(seq, prev_hash)`
pub record CursorJson : Type 0 where
  pub to_string : ℕ × Text → Text
  pub from_str : Text → Option (ℕ × Text)

-- the variables of `billing_writer_loop`
pub record Loop : Type 0 where
  pub node_id : Text
  pub seq : ℕ
  pub prev_hash : Text
  pub batch : List BillingRecord

pub data Event : Type 0 where
  receive : BillingInput → ℕ → Event
  tick stop : Event

abbrev pub batch_size : ℕ
batch_size = 64

abbrev pub billing_cursor_key : Text → Text
billing_cursor_key node_id = codes "billing_cursor" ++ colon ∷ node_id

-- `result.unwrap_or(default)`
abbrev pub or_else {ℓ} : {A : Type ℓ} → Result StorageError A → A → A
or_else (ok a) default = a
or_else (err e) default = default

-- a call whose error is only logged
abbrev pub logged : Action (Unit {0}) → Store → Store
logged call s = (call s).1

unfoldable pub write_all : List BillingRecord → Store → Store
write_all [] s = s
write_all (r ∷ rest) s = write_all rest (logged (write_billing_record r) s)

-- the cursor, or what the records say
abbrev pub or_records : Option (ℕ × Text) → Store → (ℕ × Text) × Store → (ℕ × Text) × Store
or_records (some cursor) s queried = (cursor, s)
or_records none s queried = queried

module _ (json : CursorJson) where
  -- what the cursor says, if there is one that can be read
  abbrev pub cursor_of : Result StorageError (Option Text) → Option (ℕ × Text)
  cursor_of (ok (some text)) = json.from_str text
  cursor_of (ok none) = none
  cursor_of (err e) = none

  -- the sequence number and the hash that the loop starts with, from the cursor or else the records
  unfoldable pub load_cursor : Text → Store → (ℕ × Text) × Store
  load_cursor node_id s =
      let loaded = load_meta (billing_cursor_key node_id) s in
      let counted = get_billing_sequence_for_node node_id loaded.1 in
      let hashed = get_last_billing_hash_for_node node_id counted.1 in
      or_records (cursor_of loaded.0) loaded.1
        ((or_else counted.0 0, or_else hashed.0 []), hashed.1)

  unfoldable pub start : Text → Store → Loop × Store
  start node_id s =
      let loaded = load_cursor node_id s in
      (record { node_id = node_id; seq = loaded.0.0; prev_hash = loaded.0.1; batch = [] }, loaded.1)

  -- the store after the flush of a batch
  unfoldable pub flush_store : List BillingRecord → Loop → Store → Store
  flush_store [] w s = s
  flush_store (r ∷ rest) w s =
      logged (save_meta (billing_cursor_key w.node_id) (json.to_string (w.seq, w.prev_hash)))
        (write_all (r ∷ rest) s)

  unfoldable pub flush_batch : Loop → Store → Loop × Store
  flush_batch w s = (record w { batch = [] }, flush_store w.batch w s)

  module _ (sha256_hex : Bytes → Text) where
    -- the record before its hash is known
    unfoldable pub unhashed : Loop → BillingInput → ℕ → BillingRecord
    unhashed w input timestamp_ms = record {
      seq = u64 (w.seq + 1);
      prev_hash = w.prev_hash;
      tenant_id = input.tenant_id;
      app_id = input.app_id;
      instance_id = input.instance_id;
      node_id = w.node_id;
      timestamp_ms = timestamp_ms;
      fuel_consumed = input.fuel_consumed;
      fuel_quota = input.fuel_quota;
      ram_bytes = input.ram_bytes;
      wall_clock_ms = input.wall_clock_ms;
      status_code = input.status_code;
      is_trap = input.is_trap;
      record_hash = [];
    }

    unfoldable pub make_record : Loop → BillingInput → ℕ → BillingRecord
    make_record w input timestamp_ms =
        let r = unhashed w input timestamp_ms in
        record r { record_hash = compute_hash sha256_hex r }

    -- the arm of `rx.recv()`, without the flush
    unfoldable pub push : Loop → BillingInput → ℕ → Loop
    push w input timestamp_ms =
        let r = make_record w input timestamp_ms in
        record w { seq = r.seq; prev_hash = r.record_hash; batch = w.batch ++ r ∷ [] }

    -- `if batch.len() >= BATCH_SIZE { flush_batch(..) }`
    unfoldable pub flush_full : Loop → Store → Loop × Store
    flush_full w s = if leb batch_size (length w.batch) then flush_batch w s else (w, s)

    unfoldable pub turn : Event → Loop → Store → Loop × Store
    turn (receive input timestamp_ms) w s = flush_full (push w input timestamp_ms) s
    turn tick w s = flush_batch w s
    turn stop w s = flush_batch w s

    unfoldable pub turns : List Event → Loop → Store → Loop × Store
    turns [] w s = (w, s)
    turns (event ∷ events) w s = let (v, t) = turn event w s in turns events v t
