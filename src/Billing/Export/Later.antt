-- ===== src/Billing/Export/Later.antt =====
-- crates/billing/src/export.rs and crates/storage/src/billing.rs: what the rounds send that come
-- after a round, while records are written.
use wasm_cloud_platform.Common.{
  ℕ, ◌^◌, ◌≤◌, ◌<◌, ◌≡◌, ap, sym, subst, ◌∙◌, refl, Bool, false, List, [], ◌∷◌, ◌++◌, take, filter,
  ltb, Text, Map, All, Result, ok, err, text_key, ◌==◌, arith, inl, inr, Bool-cases, zero, suc,
  All-append,
}
use wasm_cloud_platform.Storage.Keys.{put, to_text, text_lt}
use wasm_cloud_platform.Storage.Keys.Decimal.{parse_uint-to_text}
use wasm_cloud_platform.Storage.Keys.Laws.{lookup-put}
use wasm_cloud_platform.Storage.Tables.{
  Json, json, malformed, BillingRecord, Tables, Store, StorageError, transact,
}
use wasm_cloud_platform.Storage.Tables.Triples.{
  Ends, Triple, transact-Triple, lift-Triple, >>=-Triple,
}
use wasm_cloud_platform.Storage.Routes.{all_parsed}
use wasm_cloud_platform.Storage.Records.{
  numbered, watermark_key, write_billing_record, get_billing_export_watermark,
  set_billing_export_watermark, get_all_billing_records, read_unexported_billing_records,
}
use wasm_cloud_platform.Storage.Records.Billed.{watermark}
use wasm_cloud_platform.Billing.Export.{
  batch_limit, last_seq_of, export_records, export_read, export_round,
}

-- what can happen after a round: a record is written, or another round runs, with what becomes of
-- what it sends
pub data Event : Type 0 where
  write : BillingRecord → Event
  round : (List BillingRecord → Bool) → Event

-- what an event sends away, and the store afterwards
unfoldable pub happen : Event → Store → List BillingRecord × Store
happen (write r) s = ([], (write_billing_record r s).1)
happen (round export_batch) s = export_round export_batch false s

unfoldable pub later_sent : List Event → Store → List BillingRecord
later_sent [] s = []
later_sent (e ∷ es) s = (happen e s).0 ++ later_sent es (happen e s).1

-- the numbers are `u64`
abbrev pub IsWord : BillingRecord → Type 0
IsWord billed = billed.seq < 2 ^ 64

abbrev pub HoldsWord : Text × Json BillingRecord → Type 0
HoldsWord (key, json billed) = IsWord billed
HoldsWord (key, malformed) = Unit

abbrev pub WritesWord : Event → Type 0
WritesWord (write r) = IsWord r
WritesWord (round export_batch) = Unit

abbrev pub IsAbove : ℕ → BillingRecord → Type 0
IsAbove mark billed = (mark < billed.seq) × IsWord billed

HoldsWord-put :
    (key : Text) (r : BillingRecord) (m : Map Text (Json BillingRecord))
    → IsWord r
    → All HoldsWord m
    → All HoldsWord (put key (json r) m)
unfolding put
HoldsWord-put key r [] word held = (word, tt)
HoldsWord-put key r ((other, old) ∷ rest) word held = elim (Bool-cases (other == key)) [
  | inl same ↦ rw (same) (word, held.1)
  | inr differs ↦ elim (Bool-cases (text_lt key other)) [
    | inl before ↦ rw (differs, before) (word, held)
    | inr behind ↦ rw (differs, behind) (held.0, HoldsWord-put key r rest word held.1)
  ]
]

filter-IsAbove :
    (mark : ℕ) (rs : List BillingRecord)
    → All IsWord rs
    → All (IsAbove mark) (filter (λ billed. ltb mark billed.seq) rs)
filter-IsAbove mark [] words = tt
filter-IsAbove mark (r ∷ rs) words = elim (Bool-cases (ltb mark r.seq)) [
  | inl higher ↦ rw (higher) ((ground (arith, higher), words.0), filter-IsAbove mark rs words.1)
  | inr lower ↦ rw (lower) (filter-IsAbove mark rs words.1)
]

take-IsAbove :
    (mark n : ℕ) (rs : List BillingRecord) → All (IsAbove mark) rs → All (IsAbove mark) (take n rs)
take-IsAbove mark zero rs above = tt
take-IsAbove mark (suc n) [] above = tt
take-IsAbove mark (suc n) (r ∷ rs) above = (above.0, take-IsAbove mark n rs above.1)

pub above-last_seq_of :
    (mark : ℕ) (r : BillingRecord) (rest : List BillingRecord)
    → All (IsAbove mark) (r ∷ rest)
    → (mark < last_seq_of (r ∷ rest)) × (last_seq_of (r ∷ rest) < 2 ^ 64)
above-last_seq_of mark r [] above = above.0
above-last_seq_of mark r (q ∷ rest) above = above-last_seq_of mark q rest above.1

weaken-IsAbove :
    (low high : ℕ) (rs : List BillingRecord)
    → low ≤ high
    → All (IsAbove high) rs
    → All (λ billed. low < billed.seq) rs
weaken-IsAbove low high [] le above = tt
weaken-IsAbove low high (r ∷ rs) le above =
    (omega (arith, above.0), weaken-IsAbove low high rs le above.1)

abbrev AllWords : Result StorageError (List BillingRecord) → Type 0
AllWords (ok rs) = All IsWord rs
AllWords (err e) = Unit

push-AllWords :
    (r : BillingRecord) (parsed : Result StorageError (List BillingRecord))
    → IsWord r
    → AllWords parsed
    → AllWords (elim parsed [ ok found ↦ ok (r ∷ found) | err e ↦ err e ])
push-AllWords r (ok rs) word words = (word, words)
push-AllWords r (err e) word words = tt

all_parsed-AllWords :
    (m : Map Text (Json BillingRecord)) → All HoldsWord m → AllWords (all_parsed m)
unfolding all_parsed
all_parsed-AllWords [] held = tt
all_parsed-AllWords ((key, malformed) ∷ m) held = tt
all_parsed-AllWords ((key, json r) ∷ m) held =
    push-AllWords r (all_parsed m) held.0 (all_parsed-AllWords m held.1)

-- a read finds only records above the watermark, and changes no table
pub read-IsAbove :
    (t : Tables)
    → All HoldsWord t.billing
    → Triple
        (λ held. held ≡ t)
        (read_unexported_billing_records false batch_limit)
        (λ found held. (held ≡ t) × All (IsAbove (watermark t)) found)
        (λ held. held ≡ t)
unfolding read_unexported_billing_records get_billing_export_watermark get_all_billing_records
read-IsAbove t words =
    >>=-Triple (λ mark held. (held ≡ t) × (mark ≡ watermark t)) _ _ _ _ _
      (transact-Triple _ _ _ _ (λ held e. (e, ap watermark e)) (λ held e. e))
      λ mark.
        >>=-Triple (λ found held. (held ≡ t) × (mark ≡ watermark t) × All IsWord found) _ _ _ _ _
          (>>=-Triple
            (λ parsed held. (held ≡ t) × (mark ≡ watermark t) × (parsed ≡ all_parsed t.billing)) _ _
            _ _ _
            (transact-Triple _ _ _ _
              (λ held e. (e.0, e.1, ap (λ tables. all_parsed tables.billing) e.0)) (λ held e. e.0))
            λ parsed.
              lift-Triple _ _ _ parsed
                (λ found held ended e. (
                  e.0,
                  e.1,
                  subst AllWords (sym e.2 ∙ ended) (all_parsed-AllWords t.billing words),
                ))
                (λ held e. e.0))
          λ found s e. (
            e.0,
            take-IsAbove (watermark t) batch_limit _ (
                subst
                  (λ least.
                    All (IsAbove (watermark t)) (filter (λ billed. ltb least billed.seq) found))
                  (sym e.1) (filter-IsAbove (watermark t) found e.2)),
          )

-- a watermark of at least `mark`, and billing records that are numbered by words
abbrev pub IsPast : ℕ → Tables → Type 0
IsPast mark t = (mark ≤ watermark t) × All HoldsWord t.billing

set-IsPast :
    (mark seq : ℕ) (s : Store)
    → mark ≤ seq
    → seq < 2 ^ 64
    → IsPast mark s.tables
    → IsPast mark (set_billing_export_watermark seq s).1.tables
unfolding set_billing_export_watermark transact
set-IsPast mark seq s le fits past = elim (Bool-cases (s.completes s.transactions)) [
  | inl commits ↦
      let read = lookup-put watermark_key watermark_key (to_text seq) s.tables.schema_meta in
      rw (commits) (rw (read, parse_uint-to_text (2 ^ 64) seq fits fits) le, past.1)
  | inr fails ↦ rw (fails) past
]

export_records-above :
    (export_batch : List BillingRecord → Bool) (mark : ℕ) (found : List BillingRecord) (s : Store)
    → All (IsAbove (watermark s.tables)) found
    → IsPast mark s.tables
    → let end = export_records export_batch found s in
      All (λ billed. mark < billed.seq) end.0 × IsPast mark end.1.tables
unfolding export_records
export_records-above export_batch mark [] s above past = (tt, past)
export_records-above export_batch mark (r ∷ rest) s above past =
    elim (Bool-cases (export_batch (r ∷ rest))) [
      | inl sent ↦
          let last = above-last_seq_of (watermark s.tables) r rest above in
          rw (sent) (
            weaken-IsAbove mark (watermark s.tables) (r ∷ rest) past.0 above,
            set-IsPast mark (last_seq_of (r ∷ rest)) s (omega arith) last.1 past,
          )
      | inr kept ↦ rw (kept) (tt, past)
    ]

export_read-above :
    (export_batch : List BillingRecord → Bool) (mark : ℕ) (t : Tables)
    (end : Result StorageError (List BillingRecord) × Store)
    → IsPast mark t
    → Ends (λ found held. (held ≡ t) × All (IsAbove (watermark t)) found) (λ held. held ≡ t) end
    → let last = export_read export_batch end in
      All (λ billed. mark < billed.seq) last.0 × IsPast mark last.1.tables
export_read-above export_batch mark t (ok found, s) past e =
    export_records-above export_batch mark found s
      (subst (λ held. All (IsAbove (watermark held)) found) (sym e.0) e.1)
      (subst (IsPast mark) (sym e.0) past)
export_read-above export_batch mark t (err e, s) past same =
    (tt, subst (IsPast mark) (sym same) past)

write-IsPast :
    (mark : ℕ) (r : BillingRecord) (s : Store)
    → IsWord r
    → IsPast mark s.tables
    → IsPast mark (write_billing_record r s).1.tables
unfolding write_billing_record transact
write-IsPast mark r s word past = elim (Bool-cases (s.completes s.transactions)) [
  | inl commits ↦
      rw (commits) (past.0, HoldsWord-put (numbered r.node_id r.seq) r s.tables.billing word past.1)
  | inr fails ↦ rw (fails) past
]

happen-above :
    (mark : ℕ) (e : Event) (s : Store)
    → WritesWord e
    → IsPast mark s.tables
    → All (λ billed. mark < billed.seq) (happen e s).0 × IsPast mark (happen e s).1.tables
unfolding happen export_round
happen-above mark (write r) s word past = (tt, write-IsPast mark r s word past)
happen-above mark (round export_batch) s word past =
    export_read-above export_batch mark s.tables _ past (read-IsAbove s.tables past.1 s refl)

pub later_sent-above :
    (mark : ℕ) (es : List Event) (s : Store)
    → All WritesWord es
    → IsPast mark s.tables
    → All (λ billed. mark < billed.seq) (later_sent es s)
unfolding later_sent
later_sent-above mark [] s words past = tt
later_sent-above mark (e ∷ es) s words past =
    let step = happen-above mark e s words.0 past in
    All-append (λ billed. mark < billed.seq) (happen e s).0 (later_sent es (happen e s).1) step.0
      (later_sent-above mark es (happen e s).1 words.1 step.1)
