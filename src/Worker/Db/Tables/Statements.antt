-- ===== src/Worker/Db/Tables/Statements.antt =====
-- What the SQL statements of apps/worker/db.py do to the tables.
use iotflow_distributed_syst.Base.{
  ℕ, ◌+◌, ◌^◌, Bool, true, false, ◌&&◌, List, [], ◌∷◌, Option, none, some, Text, str, text_eq,
  number_of, ltb, ◌==◌, if◌then◌else◌,
}
use iotflow_distributed_syst.Python.{Value, null, text, Dict}
use iotflow_distributed_syst.Shared.Models.{IoTEvent}
use iotflow_distributed_syst.Worker.Services.{Statement}
use iotflow_distributed_syst.Worker.Db.Tables.{
  DeviceStatus, EventStatus, DlqStatus, DeviceRow, EventRow, StateRow, Tables, has_partition,
}

-- What a statement that is executed leaves: whether a conflict kept its row out, and the tables.
abbrev pub Done : Type 0
Done = Bool × Tables

-- Whether a row has the primary key (event_id, ingested_at).
abbrev pub has_key : Text → ℕ → EventRow → Bool
has_key event_id now row = text_eq row.contents.event_id event_id && row.ingested_at == now

abbrev pub is_stored : Text → ℕ → List EventRow → Bool
is_stored event_id now rows = ltb 0 (number_of (has_key event_id now) rows)

-- `NOW()` is the time of the statement, which is a transaction of its own.
abbrev pub event_row : ℕ → IoTEvent → EventRow
event_row now event = record {
  contents = event;
  ingested_at = now;
  processed_at = some now;
  status = EventStatus.processed;
  processing_error = none;
}

-- INSERT INTO events … ON CONFLICT (event_id, ingested_at) DO NOTHING
unfoldable pub insert_event_row : ℕ → IoTEvent → Tables → Option Done
insert_event_row now event tables =
    if has_partition now
    then if is_stored event.event_id now tables.events
      then some (true, tables)
      else some (false, record tables { events = event_row now event ∷ tables.events })
    else none

abbrev pub is_device : Text → DeviceRow → Bool
is_device device_id row = text_eq row.device_id device_id

abbrev pub is_registered : Text → List DeviceRow → Bool
is_registered device_id rows = ltb 0 (number_of (is_device device_id) rows)

abbrev pub device_row : ℕ → Text → DeviceRow
device_row now device_id = record {
  device_id = device_id;
  device_type = str "sensor";
  location = none;
  firmware_version = none;
  tags = [];
  status = DeviceStatus.active;
  registered_at = now;
  updated_at = now;
}

-- INSERT INTO devices … ON CONFLICT DO NOTHING
unfoldable pub insert_device_row : ℕ → Text → Tables → Option Done
insert_device_row now device_id tables =
    if is_registered device_id tables.devices
    then some (true, tables)
    else some (false, record tables { devices = device_row now device_id ∷ tables.devices })

abbrev pub is_state_of : Text → StateRow → Bool
is_state_of device_id row = text_eq row.device_id device_id

-- The row of `device_state` that has the key, if there is one.
unfoldable pub state_of : Text → List StateRow → Option StateRow
state_of device_id [] = none
state_of device_id (row ∷ rows) =
    if is_state_of device_id row then some row else state_of device_id rows

-- DO UPDATE SET …, where `row` is the row that is there.
abbrev pub updated : StateRow → StateRow → StateRow
updated excluded row = record row {
  last_event_id = excluded.last_event_id;
  last_event_type = excluded.last_event_type;
  last_seen_at = excluded.last_seen_at;
  last_payload = excluded.last_payload;
  event_count = row.event_count + 1;
}

unfoldable pub put_state : StateRow → List StateRow → List StateRow
put_state excluded [] = excluded ∷ []
put_state excluded (row ∷ rows) =
    if is_state_of excluded.device_id row
    then updated excluded row ∷ rows
    else row ∷ put_state excluded rows

-- `event_count` is a BIGINT.
abbrev pub bigint_end : ℕ
bigint_end = 2 ^ 63

abbrev pub has_room : Option StateRow → Bool
has_room none = true
has_room (some row) = ltb (row.event_count + 1) bigint_end

-- INSERT INTO device_state … ON CONFLICT (device_id) DO UPDATE …: refused where the row would
-- refer to no row of `devices`, and where the count would overflow.
unfoldable pub upsert_row : StateRow → Tables → Option Done
upsert_row excluded tables =
    if is_registered excluded.device_id tables.devices
      && has_room (state_of excluded.device_id tables.states)
    then some (false, record tables { states = put_state excluded tables.states })
    else none

-- The arguments of a NOT NULL column of type TEXT, and of one that may be null.
abbrev pub text_column : Value → Option Text
text_column (text s) = some s
text_column _ = none

abbrev pub nullable_column : Value → Option (Option Text)
nullable_column null = some none
nullable_column (text s) = some (some s)
nullable_column _ = none

-- `retry_count` is an INT.
abbrev pub int_end : ℕ
int_end = 2 ^ 31

abbrev pub add_dlq_row :
    ℕ → Option Text → Option (Option Text) → Text → Dict → Text → ℕ → Tables → Option Done
add_dlq_row now (some event_id) (some device_id) topic payload message retries tables =
    if ltb retries int_end
    then some (
      false,
      record tables {
        dlq_events =
            record {
              event_id = event_id;
              device_id = device_id;
              original_topic = topic;
              raw_payload = payload;
              error_message = message;
              retry_count = retries;
              first_seen = now;
              last_attempted = now;
              resolved_at = none;
              status = DlqStatus.pending;
            }
            ∷ tables.dlq_events;
      },
    )
    else none
add_dlq_row now _ _ topic payload message retries tables = none

-- What a statement does at the time `now`; `none` where a constraint refuses it.
unfoldable pub execute : ℕ → Statement → Tables → Option Done
execute now (Statement.insert_event event) tables = insert_event_row now event tables
execute now (Statement.insert_device device_id) tables = insert_device_row now device_id tables
execute now (Statement.upsert_device_state device_id event_id event_type last_seen_at last_payload)
      tables =
    upsert_row
      (record {
        device_id = device_id;
        last_event_id = event_id;
        last_event_type = event_type;
        last_seen_at = last_seen_at;
        last_payload = last_payload;
        event_count = 1;
      })
      tables
execute now
      (Statement.insert_dlq_event event_id device_id original_topic raw_payload error_message
        retry_count)
      tables =
    add_dlq_row now (text_column event_id) (nullable_column device_id) original_topic raw_payload
      error_message retry_count tables

-- Statements in the order in which they are executed, each at its time: `none` where one of them is
-- refused.
unfoldable pub execute_all : List (ℕ × Statement) → Tables → Option Tables
execute_all [] tables = some tables
execute_all ((now, statement) ∷ statements) tables = elim (execute now statement tables) [
  | none ↦ none
  | some done ↦ execute_all statements done.1
]
