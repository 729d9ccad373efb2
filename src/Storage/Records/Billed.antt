-- ===== src/Storage/Records/Billed.antt =====
-- What is read back of the billing records and of the export watermark.
use wasm_cloud_platform.Common.{
  ℕ, ◌+◌, ◌^◌, ◌≤◌, ◌<◌, ◌≡◌, ap, ◌∙◌, refl, Bool, true, false, some, List, [], ◌∷◌, Text, Map,
  lookup, filter, take, ok, ltb, text_key, ◌==◌, arith, inl, inr, Bool-cases, Option-cases,
  beq_refl,
}
use wasm_cloud_platform.AppId.{colon}
use wasm_cloud_platform.Storage.Keys.{put, to_text}
use wasm_cloud_platform.Storage.Keys.Decimal.{parse_uint-to_text}
use wasm_cloud_platform.Storage.Keys.Laws.{lookup-put, rsplit_once-append, contains-to_text}
use wasm_cloud_platform.Storage.Tables.{json, BillingRecord, Tables, Store, transact, ◌>>=◌}
use wasm_cloud_platform.Storage.Tables.Triples.{Triple, transact-Triple, >>=-Triple}
use wasm_cloud_platform.Storage.Tables.Works.{IsHealthy}
use wasm_cloud_platform.Storage.Routes.{all_parsed}
use wasm_cloud_platform.Storage.Records.{
  numbered, parse_billing_key, later_sequence, max_sequence, write_billing_record,
  get_billing_sequence_for_node, watermark_key, number_of, get_billing_export_watermark,
  set_billing_export_watermark, get_all_billing_records, read_unexported_billing_records,
}

-- The key of a billing record comes apart into the node and the number, whatever colons the node's
-- id holds.
pub parse_billing_key-numbered :
    (node_id : Text) (seq : ℕ)
    → seq < 2 ^ 64
    → parse_billing_key (numbered node_id seq) ≡ some (node_id, seq)
unfolding parse_billing_key
parse_billing_key-numbered node_id seq fits =
    rw
      (
        parse_billing_key,
        rsplit_once-append colon node_id (to_text seq) (contains-to_text seq),
        parse_uint-to_text (2 ^ 64) seq fits fits,
      )
      refl

later_sequence-first :
    (counts : Text → Bool) (first : ℕ) (key : Text) → first ≤ later_sequence counts first key
unfolding later_sequence
later_sequence-first counts first key = elim (Option-cases (parse_billing_key key)) [
  | inl e ↦ rw (later_sequence, e) (omega arith)
  | inr (parts, e) ↦ rw (later_sequence, e) (ground arith)
]

later_sequence-counted :
    (counts : Text → Bool) (first : ℕ) (key node_id : Text) (seq : ℕ)
    → parse_billing_key key ≡ some (node_id, seq)
    → counts node_id ≡ true
    → seq ≤ later_sequence counts first key
unfolding later_sequence
later_sequence-counted counts first key node_id seq e h = rw (later_sequence, e, h) (omega arith)

max_sequence-first :
    {V : Type 0} (counts : Text → Bool) (first : ℕ) (m : Map Text V)
    → first ≤ max_sequence counts first m
unfolding max_sequence
max_sequence-first counts first [] = omega arith
max_sequence-first counts first ((key, v) ∷ m) = omega (
  arith,
  later_sequence-first counts first key,
  max_sequence-first counts (later_sequence counts first key) m,
)

-- the number of a counted key is at most the result
max_sequence-bounds :
    {V : Type 0} (counts : Text → Bool) (first : ℕ) (m : Map Text V) (key node_id : Text) (seq : ℕ)
    (v : V)
    → lookup key m ≡ some v
    → parse_billing_key key ≡ some (node_id, seq)
    → counts node_id ≡ true
    → seq ≤ max_sequence counts first m
unfolding max_sequence lookup
max_sequence-bounds counts first [] key node_id seq v found parsed h = cc
max_sequence-bounds counts first ((held, w) ∷ m) key node_id seq v found parsed h =
    elim (Bool-cases (held == key)) [
      | inl same ↦
          let counted =
            later_sequence-counted counts first held node_id seq
              (ap parse_billing_key ((text_key.same_iff held key).0 same) ∙ parsed) h in
          omega (arith, counted, max_sequence-first counts (later_sequence counts first held) m)
      | inr other ↦
          max_sequence-bounds counts (later_sequence counts first held) m key node_id seq v
            (ground arith) parsed h
    ]

-- After a billing record is written, the largest number that is read back for its node is at least
-- its own.
pub write_billing_record-counts :
    (r : BillingRecord) (t : Tables)
    → r.seq < 2 ^ 64
    → Triple
        (λ held. held ≡ t)
        (write_billing_record r >>= λ _. get_billing_sequence_for_node r.node_id)
        (λ seq _. (r.seq ≤ seq))
        (λ _. Unit)
unfolding write_billing_record get_billing_sequence_for_node
write_billing_record-counts r t fits =
    >>=-Triple (λ _ held. lookup (numbered r.node_id r.seq) held.billing ≡ some (json r)) _ _ _ _ _
      (transact-Triple _ _ _ _ (λ held e. written held) (λ held e. tt))
      λ _.
        transact-Triple _ _ _ _
          (λ held found.
            max_sequence-bounds (λ node. node == r.node_id) 0 held.billing
              (numbered r.node_id r.seq) r.node_id r.seq (json r) found
              (parse_billing_key-numbered r.node_id r.seq fits) (beq_refl r.node_id))
          (λ held e. tt)
  where
    written :
        (held : Tables)
        → lookup (numbered r.node_id r.seq) (put (numbered r.node_id r.seq) (json r) held.billing)
          ≡ some (json r)
    written held =
        lookup-put (numbered r.node_id r.seq) (numbered r.node_id r.seq) (json r) held.billing
        ∙ rw (beq_refl (numbered r.node_id r.seq)) refl

-- the watermark that a store holds
abbrev pub watermark : Tables → ℕ
watermark t = number_of (lookup watermark_key t.schema_meta)

-- what a read of the records that are not exported returns, and the store afterwards
pub read_unexported-healthy :
    (s : Store) (limit : ℕ) (records : List BillingRecord)
    → IsHealthy s
    → all_parsed s.tables.billing ≡ ok records
    → read_unexported_billing_records false limit s ≡ (
      ok (take limit (filter (λ billed. ltb (watermark s.tables) billed.seq) records)),
      record s { transactions = s.transactions + 1 + 1 },
    )
unfolding read_unexported_billing_records get_billing_export_watermark get_all_billing_records ◌>>=◌
    transact
read_unexported-healthy s limit records h parsed =
    rw (h s.transactions, h (s.transactions + 1), parsed) refl

-- the watermark that was set is read back
pub watermark-set :
    (seq : ℕ) (s : Store)
    → IsHealthy s
    → seq < 2 ^ 64
    → let t = (set_billing_export_watermark seq s).1 in
      (watermark t.tables ≡ seq) × (t.tables.billing ≡ s.tables.billing) × IsHealthy t
unfolding set_billing_export_watermark transact
watermark-set seq s h fits = rw (h s.transactions) (
  rw
      (
        lookup-put watermark_key watermark_key (to_text seq) s.tables.schema_meta,
        parse_uint-to_text (2 ^ 64) seq fits fits,
      )
      refl,
  refl,
  h,
)
