-- ===== src/Worker/Db/Tables/Connected.antt =====
-- apps/worker/db.py and `EventProcessor.process` of apps/worker/processor.py on PostgreSQL with the
-- tables of the migration, while the connection lasts and no other client writes.
use iotflow_distributed_syst.Base.{
  ℕ, ◌+◌, ◌≡◌, Bool, true, false, not, ◌∷◌, some, Text, text_eq, text_eq_refl, number_of,
  if◌then◌else◌, arith, refl, ap, ◌∙◌,
}
use iotflow_distributed_syst.Exec.{ok}
use iotflow_distributed_syst.Shared.Models.{IoTEvent}
use iotflow_distributed_syst.Worker.Services.{Environment, State, Statement}
use iotflow_distributed_syst.Worker.Db.{insert_event}
use iotflow_distributed_syst.Worker.Db.Answered.{tag_of, upsert, insert_event-Runs}
use iotflow_distributed_syst.Worker.Processor.Stores.{Answers, stored}
use iotflow_distributed_syst.Worker.Db.Tables.{EventRow, StateRow, Tables, has_partition}
use iotflow_distributed_syst.Worker.Db.Tables.Statements.{
  Done, is_stored, event_row, insert_event_row, is_registered, device_row, insert_device_row,
  state_of, has_room, put_state, upsert_row, execute,
}

-- A statement that no constraint refuses is executed, and its command tag says whether a row was
-- written; no other call touches the tables.
pub record Connected {W : Type 0} (env : Environment W) : Type 0 where
  pub tables : W → Tables
  -- `NOW()` of a statement that is sent in this world.
  pub clock : W → ℕ
  pub executes :
      (st : Statement) (w : W) (done : Done)
      → execute (clock w) st (tables w) ≡ some done
      → ((env.pool_execute st w).0 ≡ ok (tag_of done.0))
        × (tables (env.pool_execute st w).1 ≡ done.1)
  pub claims_apart : (k : Text) (ttl : ℕ) (w : W) → tables (env.redis_set_nx k ttl w).1 ≡ tables w
  pub draws_apart : (w : W) → tables (env.uuid4 w).1 ≡ tables w

-- A row of this event, at whatever time.
abbrev pub is_row_of : Text → EventRow → Bool
is_row_of event_id row = text_eq row.contents.event_id event_id

-- The tables after the insert of an event.
abbrev pub with_event : ℕ → IoTEvent → Tables → Tables
with_event now event t =
    if is_stored event.event_id now t.events
    then t
    else record t { events = event_row now event ∷ t.events }

abbrev pub with_device : ℕ → Text → Tables → Tables
with_device now device_id t =
    if is_registered device_id t.devices
    then t
    else record t { devices = device_row now device_id ∷ t.devices }

abbrev pub proposed_row : IoTEvent → StateRow
proposed_row event = record {
  device_id = event.device_id;
  last_event_id = event.event_id;
  last_event_type = event.event_type;
  last_seen_at = event.timestamp;
  last_payload = event.payload;
  event_count = 1;
}

execute_insert :
    (now : ℕ) (event : IoTEvent) (t : Tables)
    → has_partition now ≡ true
    → execute now (Statement.insert_event event) t
      ≡ some (is_stored event.event_id now t.events, with_event now event t)
unfolding execute insert_event_row
execute_insert now event t lies = ground (arith, lies)

execute_device :
    (now : ℕ) (device_id : Text) (t : Tables)
    → execute now (Statement.insert_device device_id) t
      ≡ some (is_registered device_id t.devices, with_device now device_id t)
unfolding execute insert_device_row
execute_device now device_id t = ground arith

with_event-states :
    (now : ℕ) (event : IoTEvent) (t : Tables) → (with_event now event t).states ≡ t.states
with_event-states now event t = ground arith

-- The device is there by now, so that the reference is satisfied.
execute-upsert :
    {W : Type 0} (env : Environment W) (then_now now : ℕ) (event : IoTEvent) (t : Tables)
    → has_room (state_of event.device_id t.states) ≡ true
    → let u = with_device then_now event.device_id t in
      execute now (upsert env event) u
      ≡ some (false, record u { states = put_state (proposed_row event) t.states })
unfolding execute upsert_row upsert
execute-upsert env then_now now event t room = ground (arith, room, text_eq_refl event.device_id)

module _ {W : Type 0} (env : Environment W) (laws : Connected env) (event : IoTEvent) where
  inserts :
      (w : W)
      → has_partition (laws.clock w) ≡ true
      → let there = is_stored event.event_id (laws.clock w) (laws.tables w).events in
        let sent = env.pool_execute (Statement.insert_event event) w in
        (sent.0 ≡ ok (tag_of there))
        × (laws.tables sent.1 ≡ with_event (laws.clock w) event (laws.tables w))
  inserts w lies =
      laws.executes (Statement.insert_event event) w _
        (execute_insert (laws.clock w) event (laws.tables w) lies)

  -- While PostgreSQL can be reached through the pool and the time lies in a partition, `insert_event`
  -- returns True and adds a row unless a row with the same identifier was stored in the same
  -- microsecond: for an event that is stored already at any other time it adds a row too, and says that
  -- the event is new.
  pub insert_event_again :
      (s : State W)
      → s.pool ≡ true
      → has_partition (laws.clock s.world) ≡ true
      → let before = (laws.tables s.world).events in
        let there = is_stored event.event_id (laws.clock s.world) before in
        let out = insert_event env event s in
        (out.0 ≡ ok (not there))
        × (number_of (is_row_of event.event_id) (laws.tables out.1.world).events
            ≡ number_of (is_row_of event.event_id) before + (if there then 0 else 1))
  insert_event_again s there lies =
      let (answer, written) = inserts s.world lies in
      let ran = insert_event-Runs env event _ s there answer in
      rw (ran.ends, written) (refl, with_event-rows (laws.clock s.world) (laws.tables s.world))
    where
      with_event-rows :
          (now : ℕ) (t : Tables)
          → number_of (is_row_of event.event_id) (with_event now event t).events
            ≡ number_of (is_row_of event.event_id) t.events
              + (if is_stored event.event_id now t.events then 0 else 1)
      with_event-rows now t = ground (arith, text_eq_refl event.event_id)

  module _ (w : W) (lies : has_partition (laws.clock w) ≡ true)
      (room : has_room (state_of event.device_id (laws.tables w).states) ≡ true) where
    abbrev pub inserted : W
    inserted = (env.pool_execute (Statement.insert_event event) w).1

    abbrev registered : W
    registered = (env.pool_execute (Statement.insert_device event.device_id) inserted).1

    abbrev pub registered_rows : Tables
    registered_rows =
        with_device (laws.clock inserted) event.device_id
          (with_event (laws.clock w) event (laws.tables w))

    -- The tables after the event, its device and the device's state.
    abbrev pub rows_after : Tables
    rows_after = record registered_rows {
      states = put_state (proposed_row event) (laws.tables w).states;
    }

    registers :
        ((env.pool_execute (Statement.insert_device event.device_id) inserted).0
          ≡ ok (tag_of (is_registered event.device_id (laws.tables inserted).devices)))
        × (laws.tables registered ≡ registered_rows)
    registers =
        let (answer, written) =
          laws.executes (Statement.insert_device event.device_id) inserted _
            (execute_device (laws.clock inserted) event.device_id (laws.tables inserted)) in
        (
          answer,
          written ∙ ap (with_device (laws.clock inserted) event.device_id) (inserts w lies).1,
        )

    pub upserts :
        ((env.pool_execute (upsert env event) registered).0 ≡ ok (tag_of false))
        × (laws.tables (stored env event w) ≡ rows_after)
    upserts =
        let t = with_event (laws.clock w) event (laws.tables w) in
        let same = with_event-states (laws.clock w) event (laws.tables w) in
        let executed =
          execute-upsert env (laws.clock inserted) (laws.clock registered) event t
            (ap (λ rows. has_room (state_of event.device_id rows)) same ∙ room) in
        let (answer, written) =
          laws.executes (upsert env event) registered _
            (ap (execute (laws.clock registered) (upsert env event)) registers.1 ∙ executed) in
        (
          answer,
          written
              ∙ ap (λ rows. record registered_rows { states = put_state (proposed_row event) rows })
                  same,
        )

    pub connected-Answers : Answers env event w
    connected-Answers = record {
      there_already = is_stored event.event_id (laws.clock w) (laws.tables w).events;
      device_tag = tag_of (is_registered event.device_id (laws.tables inserted).devices);
      state_tag = tag_of false;
      inserts = (inserts w lies).0;
      devices = registers.0;
      states = upserts.0;
    }
