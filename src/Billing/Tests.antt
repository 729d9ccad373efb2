-- ===== src/Billing/Tests.antt =====
-- Runs of the billing chain with a hash that gives back its input.
use wasm_cloud_platform.Common.{
  ℕ, ◌≡◌, ◌↔◌, refl, true, false, none, some, List, [], ◌∷◌, Text, Map, filter, length, codes, u64,
  ok, arith, inr, All, ◌<◌, lookup, text_key,
}
use wasm_cloud_platform.Storage.Keys.{put, to_text, digits, text_lt, scan, parse_digits, parse_uint}
use wasm_cloud_platform.Storage.Tables.{Json, json, Bytes, BillingRecord, Tables, Store}
use wasm_cloud_platform.Storage.Routes.{all_parsed}
use wasm_cloud_platform.Storage.Records.{read_unexported_billing_records, is_billed_to}
use wasm_cloud_platform.Billing.{hashed_bytes, compute_hash, verify_from, verify_chain, to_le_bytes}
use wasm_cloud_platform.Billing.Chain.{IsLinked, verify_chain-ok_iff, compute_hash-cut}
use wasm_cloud_platform.Billing.Writer.{
  CursorJson, BillingInput, Loop, Event, receive, tick, stop, start, turn, turns,
}
use wasm_cloud_platform.Billing.Writer.Restart.{turns-restarts}
use wasm_cloud_platform.Billing.Report.{generate_report}
use wasm_cloud_platform.Billing.Report.Sums.{sum_of, generate_report-adds_up}
use wasm_cloud_platform.Billing.Export.{export_round}
use wasm_cloud_platform.Billing.Export.Later.{write, round, later_sent}
use wasm_cloud_platform.Billing.Export.Later
use wasm_cloud_platform.Billing.Export.Rounds.{left, export_round-passes_by}

abbrev input : BillingInput
input = record {
  tenant_id = codes "ab";
  app_id = codes "c";
  instance_id = codes "i";
  fuel_consumed = 10;
  fuel_quota = 100;
  ram_bytes = 5;
  wall_clock_ms = 2;
  status_code = 200;
  is_trap = false;
}

abbrev row : Text → ℕ → BillingRecord
row node seq = record {
  seq = seq;
  prev_hash = [];
  tenant_id = codes "ab";
  app_id = codes "c";
  instance_id = codes "i";
  node_id = node;
  timestamp_ms = 1000;
  fuel_consumed = 10;
  fuel_quota = 100;
  ram_bytes = 5;
  wall_clock_ms = 2;
  status_code = 200;
  is_trap = false;
  record_hash = [];
}

abbrev with_billing : Map Text (Json BillingRecord) → Text → Tables
with_billing table mark = record {
  artifacts = [];
  configs = [];
  secrets = [];
  metrics = [];
  routes = [];
  raw_wasm = [];
  schema_meta = (codes "billing_export_watermark", mark) ∷ [];
  artifact_hashes = [];
  artifact_verifications = [];
  billing = table;
  kek = [];
  gateway_configs = [];
  api_keys = [];
}

abbrev healthy : Tables → Store
healthy t = record { tables = t; completes = λ n. true; transactions = 0 }

-- two nodes: the first has one record, the second two
abbrev nodes : Tables
nodes =
    with_billing
      ((codes "a:1", json (row (codes "a") 1))
        ∷ (codes "b:1", json (row (codes "b") 1))
        ∷ (codes "b:2", json (row (codes "b") 2))
        ∷ [])
      (codes "0")

abbrev identity : Bytes → Text
identity bytes = bytes

-- a printer that keeps the number in front of the hash
abbrev cursors : CursorJson
cursors = record {
  to_string = λ cursor. cursor.0 ∷ cursor.1;
  from_str = λ text. elim text [ [] ↦ none | seq ∷ hash ↦ some (seq, hash) ];
}

abbrev idle : Loop
idle = record { node_id = codes "a"; seq = 0; prev_hash = []; batch = [] }

program : Unit {0}
unfolding verify_chain verify_from compute_hash hashed_bytes to_le_bytes lookup all_parsed put
    to_text digits text_lt scan parse_digits parse_uint
program = tt

verify_chain-ok_iff_example :
    (verify_chain identity (row (codes "a") 1 ∷ []) ≡ ok 1)
    ↔ IsLinked identity [] (row (codes "a") 1 ∷ [])
verify_chain-ok_iff_example = verify_chain-ok_iff identity (row (codes "a") 1 ∷ [])

compute_hash-cut_example :
    compute_hash identity
      (record (row (codes "a") 1) { tenant_id = codes "a"; app_id = codes "bc" })
    ≡ compute_hash identity (row (codes "a") 1)
compute_hash-cut_example =
    compute_hash-cut identity (row (codes "a") 1) (codes "a") (codes "bc") refl

abbrev events : List Event
events = receive input 1000 ∷ tick ∷ receive input 2000 ∷ []

abbrev saved : Tables
saved = record nodes { schema_meta = (codes "billing_cursor:a", 0 ∷ []) ∷ [] }

turns-restarts_example :
    let run = turns cursors identity events idle (healthy saved) in
    let stopped = turn cursors identity stop run.0 run.1 in
    (start cursors run.0.node_id stopped.1).0 ≡ stopped.0
unfolding program
turns-restarts_example =
    turns-restarts cursors identity (λ cursor. refl) events idle (healthy saved)
      ((λ n. refl), inr refl)

generate_report-adds_up_example :
    let records = row (codes "a") 1 ∷ row (codes "b") 1 ∷ [] in
    let report = generate_report records (codes "ab") 0 5000 in
    (report.total_requests ≡ length (filter (is_billed_to (codes "ab") 0 5000) records))
    × (u64 (sum_of (λ app. app.request_count) report.per_app) ≡ u64 report.total_requests)
    × (u64 (sum_of (λ app. app.fuel_consumed) report.per_app) ≡ report.total_fuel_consumed)
    × (u64 (sum_of (λ app. app.wall_clock_ms) report.per_app) ≡ report.total_wall_clock_ms)
    × (u64 (sum_of (λ app. app.trap_count) report.per_app) ≡ report.trap_count)
generate_report-adds_up_example =
    generate_report-adds_up (row (codes "a") 1 ∷ row (codes "b") 1 ∷ []) (codes "ab") 0 5000

-- The three records are sent; the second record of the first node, with the number 2, is written
-- only then, and the next round sends what is numbered 3 alone.
abbrev later_events : List Later.Event
later_events = write (row (codes "a") 2) ∷ write (row (codes "b") 3) ∷ round (λ rs. true) ∷ []

export_round-passes_by_example :
    let rest = row (codes "b") 1 ∷ row (codes "b") 2 ∷ [] in
    let after = export_round (λ rs. true) false (healthy nodes) in
    (after.0 ≡ row (codes "a") 1 ∷ rest)
    × ((read_unexported_billing_records false 9 after.1).0
        ≡ ok (left (λ rs. true) (row (codes "a") 1 ∷ rest) 9 2))
    × All (λ billed. 2 < billed.seq) (later_sent later_events after.1)
unfolding program
export_round-passes_by_example =
    export_round-passes_by (λ rs. true)
      (row (codes "a") 1 ∷ row (codes "b") 1 ∷ row (codes "b") 2 ∷ []) (healthy nodes)
      (row (codes "a") 1) (row (codes "b") 1 ∷ row (codes "b") 2 ∷ []) 9 later_events (λ n. refl)
      refl (omega arith, (omega arith, (omega arith, tt))) refl refl
      (omega arith, (omega arith, (tt, tt)))
