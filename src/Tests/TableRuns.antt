-- ===== src/Tests/TableRuns.antt =====
-- The theorems on the tables of PostgreSQL at concrete runs.
use iotflow_distributed_syst.Base.{
  ◌≡◌, ◌≤◌, refl, ap, inl, inr, true, false, some, none, [], ◌∷◌, List, Text, str, ℕ, ◌+◌, ◌*◌,
  number_of, arith,
}
use iotflow_distributed_syst.Exec.{ok}
use iotflow_distributed_syst.Python.{text, lookup, get, Dict}
use iotflow_distributed_syst.Shared.Models.{
  parse_event, ensure_utc, check_fields, validate_ulid, all_match, matches_ulid_class, replace_z,
  upper, upper_code,
}
use iotflow_distributed_syst.Ingestion.Handlers.{IngestionContext, kafka_message}
use iotflow_distributed_syst.Worker.Services.{State, Statement}
use iotflow_distributed_syst.Worker.Db.{insert_event}
use iotflow_distributed_syst.Worker.Idempotency.{key}
use iotflow_distributed_syst.Worker.Processor.{process}
use iotflow_distributed_syst.Worker.Processor.Begins.{Begun}
use iotflow_distributed_syst.Worker.Processor.Rows.{HasProcessed, process-HasProcessed}
use iotflow_distributed_syst.Worker.Db.Tables.{
  StateRow, Tables, has_partition, taking, partitions, partition_starts, year_end, day_of,
}
use iotflow_distributed_syst.Worker.Db.Tables.Statements.{
  Done, has_key, is_stored, event_row, state_of, execute, execute_all, insert_device_row,
  insert_event_row, upsert_row, put_state,
}
use iotflow_distributed_syst.Worker.Db.Tables.Constraints.{IsConsistent}
use iotflow_distributed_syst.Worker.Db.Tables.History.{count_of, proposals, execute_all-state_of}
use iotflow_distributed_syst.Worker.Db.Tables.Transactions.{process-IsConsistent}
use iotflow_distributed_syst.Worker.Db.Tables.Connected.{is_row_of, insert_event_again}
use iotflow_distributed_syst.Worker.Db.Tables.Partitions.{insert_event_in_time}
use iotflow_distributed_syst.EndToEnd.{forwarded_event_in_tables}
use iotflow_distributed_syst.Tests.Samples.{raw_event, event, ingestion_services}
use iotflow_distributed_syst.Tests.SharedRuns.{runtime_laws}
use iotflow_distributed_syst.Tests.Database.{
  Database, empty_tables, at_start, database_services, database_laws, database_transactions,
}

abbrev raw_key : Text
raw_key = key database_services (text (str "01arz3ndektsv4rrffq69g5fav"))

in_time : (w : Database) → Begun database_services at_start w → has_partition w.now ≡ true
unfolding has_partition taking partitions
in_time w (inl e) = ap (λ v. has_partition (Database.now v)) e
in_time w (inr e) = ap (λ v. has_partition (Database.now v)) e

process-HasProcessed_example :
    let out = process database_services raw_event (some 3) (some 7) at_start in
    (out.0 ≡ ok tt) × ((now : ℕ) × HasProcessed event now empty_tables out.1.world.tables)
unfolding parse_event ensure_utc check_fields validate_ulid all_match matches_ulid_class upper
    upper_code lookup replace_z get has_partition taking partitions state_of
process-HasProcessed_example =
    process-HasProcessed database_services database_laws event raw_event (some 3) (some 7) raw_key
      at_start refl refl refl refl (λ w begun. refl) in_time refl

abbrev context : IngestionContext
context = record {
  raw_message = record {
    topic = str "devices/sensor-1/events";
    payload = [];
    parsed_payload = some raw_event;
    message_trace_id = none;
  };
  trace_id = str "t1";
  device_id = str "sensor-1";
  event = none;
  processed = false;
}

forwarded_event_in_tables_example :
    let message = kafka_message ingestion_services event (str "t1") in
    let out = process database_services message.value (some 3) (some 7) at_start in
    (out.0 ≡ ok tt) × ((now : ℕ) × HasProcessed event now empty_tables out.1.world.tables)
unfolding parse_event ensure_utc check_fields validate_ulid all_match matches_ulid_class upper
    upper_code lookup replace_z state_of
forwarded_event_in_tables_example =
    forwarded_event_in_tables ingestion_services database_services refl runtime_laws database_laws
      raw_event event (str "t1") (some 3) (some 7) at_start refl refl refl (λ w begun. refl) in_time
      refl

-- Of no rows.
empty-IsConsistent : IsConsistent empty_tables
empty-IsConsistent = record {
  device_keys = λ d. omega arith;
  event_keys = λ id at. omega arith;
  state_keys = λ d. omega arith;
  references = λ d. omega arith;
  in_partitions = refl;
  counts = refl;
}

process-IsConsistent_example :
    let after = (process database_services raw_event (some 3) (some 7) at_start).1.world.tables in
    IsConsistent after
    × ((id : Text) (at : ℕ) → number_of (has_key id at) [] ≤ number_of (has_key id at) after.events)
    × ((d : Text) → count_of (state_of d []) ≤ count_of (state_of d after.states))
process-IsConsistent_example =
    process-IsConsistent database_services database_transactions raw_event (some 3) (some 7)
      at_start empty-IsConsistent

-- The event is there already, since a microsecond before.
abbrev stored_before : State Database
stored_before = record at_start {
  world = record { now = 6; tables = record empty_tables { events = event_row 5 event ∷ [] } };
}

insert_event_again_example :
    let out = insert_event database_services event stored_before in
    (out.0 ≡ ok true) × (number_of (is_row_of event.event_id) out.1.world.tables.events ≡ 1 + 1)
unfolding has_partition taking partitions
insert_event_again_example =
    insert_event_again database_services database_laws event stored_before refl refl

-- An event that comes late: it was seen before the one that is stored.
abbrev late : Statement
late =
    Statement.upsert_device_state (str "sensor-1") (str "e2") (str "temperature")
      (record { clock = 1; offset = some 0 }) Dict.empty

abbrev early : Statement
early =
    Statement.upsert_device_state (str "sensor-1") (str "e1") (str "temperature")
      (record { clock = 9; offset = some 0 }) Dict.empty

abbrev history : List (ℕ × Statement)
history = (0, Statement.insert_device (str "sensor-1")) ∷ (1, early) ∷ (2, late) ∷ []

abbrev state_row : Text → ℕ → ℕ → StateRow
state_row id seen count = record {
  device_id = str "sensor-1";
  last_event_id = id;
  last_event_type = str "temperature";
  last_seen_at = record { clock = seen; offset = some 0 };
  last_payload = Dict.empty;
  event_count = count;
}

abbrev after_history : Tables
after_history = record empty_tables {
  devices = iotflow_distributed_syst.Worker.Db.Tables.Statements.device_row 0 (str "sensor-1") ∷ [];
  states = state_row (str "e2") 1 2 ∷ [];
}

execute_all-state_of_example :
    state_of (str "sensor-1") after_history.states ≡ some (state_row (str "e2") 1 2)
unfolding execute_all execute insert_device_row upsert_row put_state state_of proposals
execute_all-state_of_example =
    execute_all-state_of history empty_tables after_history (str "sensor-1") refl

insert_event_in_time_example :
    (taking (day_of 0) (partitions partition_starts) ≡ 1)
    × (year_end * 86400000000 ≤ 0 → execute 0 (Statement.insert_event event) empty_tables ≡ none)
unfolding taking partitions
insert_event_in_time_example = insert_event_in_time 0 event empty_tables
