-- ===== src/Worker/Db/Tables/Constraints.antt =====
-- What holds of the tables whatever statements of apps/worker/db.py are executed, in any order.
use iotflow_distributed_syst.Base.{
  ◌∙◌, ℕ, ◌≤◌, ◌≡◌, Bool, ◌&&◌, true, not, List, [], ◌∷◌, Option, none, some, Text, text_eq,
  text_eq→eq, text_eq_refl, ◌||◌, leb, ◌==◌, if◌then◌else◌, number_of, arith, refl,
}
use iotflow_distributed_syst.Python.{Dict}
use iotflow_distributed_syst.Worker.Services.{Statement}
use iotflow_distributed_syst.Worker.Db.Tables.{EventRow, StateRow, Tables, has_partition}
use iotflow_distributed_syst.Worker.Db.Tables.Statements.{
  Done, has_key, insert_event_row, is_device, insert_device_row, is_state_of, state_of, put_state,
  has_room, upsert_row, execute, execute_all, bigint_end, add_dlq_row,
}

-- A row of `device_state` whose count is not that of a BIGINT that starts at 1.
abbrev pub is_miscounted : StateRow → Bool
is_miscounted row = row.event_count == 0 || leb bigint_end row.event_count

-- A row of `events` that lies in no partition.
abbrev pub is_astray : EventRow → Bool
is_astray row = not (has_partition row.ingested_at)

-- The primary keys are unique, a row of `device_state` refers to a row of `devices`, a row of
-- `events` lies in a partition, and the counts are those of a BIGINT.
pub record IsConsistent (t : Tables) : Type 0 where
  pub device_keys : (d : Text) → number_of (is_device d) t.devices ≤ 1
  pub event_keys : (id : Text) (at : ℕ) → number_of (has_key id at) t.events ≤ 1
  pub state_keys : (d : Text) → number_of (is_state_of d) t.states ≤ 1
  pub references :
      (d : Text) → number_of (is_state_of d) t.states ≤ number_of (is_device d) t.devices
  pub in_partitions : number_of is_astray t.events ≡ 0
  pub counts : number_of is_miscounted t.states ≡ 0

put_state-number_of :
    (excluded : StateRow) (d : Text) (rows : List StateRow)
    → number_of (is_state_of d) (put_state excluded rows) ≡ (
        if text_eq excluded.device_id d && number_of (is_state_of d) rows == 0
        then 1
        else number_of (is_state_of d) rows)
unfolding put_state
put_state-number_of excluded d [] = ground arith
put_state-number_of excluded d (row ∷ rows) = ground (
  arith,
  put_state-number_of excluded d rows,
  text_eq→eq row.device_id excluded.device_id,
  text_eq→eq row.device_id d,
  text_eq→eq excluded.device_id d,
  text_eq_refl d,
)

put_state-counts :
    (excluded : StateRow) (rows : List StateRow)
    → excluded.event_count ≡ 1
    → has_room (state_of excluded.device_id rows) ≡ true
    → number_of is_miscounted rows ≡ 0
    → number_of is_miscounted (put_state excluded rows) ≡ 0
unfolding put_state state_of
put_state-counts excluded [] one room h = rw one refl
put_state-counts excluded (row ∷ rows) one room h =
    ground (arith, put_state-counts excluded rows one)

-- A row more in `dlq_events` changes no other table.
pub add_dlq_row-others :
    (now : ℕ) (id : Option Text) (device : Option (Option Text)) (topic : Text) (payload : Dict)
    (message : Text) (retries : ℕ) (t : Tables) (done : Done)
    → add_dlq_row now id device topic payload message retries t ≡ some done
    → (done.1.devices ≡ t.devices) × (done.1.events ≡ t.events) × (done.1.states ≡ t.states)
add_dlq_row-others now none device topic payload message retries t done e = absurd (cc)
add_dlq_row-others now (some id) none topic payload message retries t done e = absurd (cc)
add_dlq_row-others now (some id) (some device) topic payload message retries t done e =
    ground (arith, e)

-- What a statement that is executed does to the keys and the counts.
module _ (now : ℕ) (t : Tables) (done : Done) where
  execute-devices :
      (st : Statement) (d : Text)
      → execute now st t ≡ some done
      → (number_of (is_device d) t.devices ≤ number_of (is_device d) done.1.devices)
        × (number_of (is_device d) t.devices ≤ 1 → number_of (is_device d) done.1.devices ≤ 1)
  unfolding execute insert_event_row insert_device_row upsert_row
  execute-devices (Statement.insert_event event) d e = ground (arith, e)
  execute-devices (Statement.insert_device device_id) d e =
      ground (arith, e, text_eq→eq device_id d)
  execute-devices (Statement.upsert_device_state device id type seen payload) d e =
      ground (arith, e)
  execute-devices (Statement.insert_dlq_event id device topic payload message retries) d e =
      ground (arith, (add_dlq_row-others now _ _ topic payload message retries t done e).0)

  execute-events :
      (st : Statement) (id : Text) (at : ℕ)
      → execute now st t ≡ some done
      → (number_of (has_key id at) t.events ≤ 1 → number_of (has_key id at) done.1.events ≤ 1)
        × (number_of (has_key id at) t.events ≤ number_of (has_key id at) done.1.events)
        × (number_of is_astray done.1.events ≡ number_of is_astray t.events)
  unfolding execute insert_event_row insert_device_row upsert_row
  execute-events (Statement.insert_event event) id at e =
      ground (arith, e, text_eq→eq event.event_id id)
  execute-events (Statement.insert_device device_id) id at e = ground (arith, e)
  execute-events (Statement.upsert_device_state device event_id type seen payload) id at e =
      ground (arith, e)
  execute-events (Statement.insert_dlq_event event_id device topic payload message retries) id at
        e =
      ground (arith, (add_dlq_row-others now _ _ topic payload message retries t done e).1)

  execute-states :
      (st : Statement) (d : Text)
      → execute now st t ≡ some done
      → (number_of (is_state_of d) t.states ≤ 1 → number_of (is_state_of d) done.1.states ≤ 1)
        × (number_of (is_state_of d) t.states ≤ number_of (is_device d) t.devices
            → number_of (is_state_of d) done.1.states ≤ number_of (is_device d) done.1.devices)
        × (number_of is_miscounted t.states ≡ 0 → number_of is_miscounted done.1.states ≡ 0)
  unfolding execute insert_event_row insert_device_row upsert_row
  execute-states (Statement.insert_event event) d e = ground (arith, e)
  execute-states (Statement.insert_device device_id) d e = ground (arith, e)
  execute-states (Statement.upsert_device_state device id type seen payload) d e =
      let row : StateRow = record {
        device_id = device;
        last_event_id = id;
        last_event_type = type;
        last_seen_at = seen;
        last_payload = payload;
        event_count = 1;
      } in
      ground (
        arith,
        e,
        put_state-number_of row d t.states,
        put_state-counts row t.states refl,
        text_eq→eq device d,
      )
  execute-states (Statement.insert_dlq_event id device topic payload message retries) d e =
      ground (arith, add_dlq_row-others now _ _ topic payload message retries t done e)

  execute-IsConsistent :
      (st : Statement) → execute now st t ≡ some done → IsConsistent t → IsConsistent done.1
  execute-IsConsistent st e c = record {
    device_keys = λ d. (execute-devices st d e).1 (c.device_keys d);
    event_keys = λ id at. (execute-events st id at e).0 (c.event_keys id at);
    state_keys = λ d. (execute-states st d e).0 (c.state_keys d);
    references = λ d. (execute-states st d e).1 (c.references d);
    in_partitions = (execute-events st [] 0 e).2 ∙ c.in_partitions;
    counts = (execute-states st [] e).2 c.counts;
  }

-- A list of statements that are executed, taken apart at the first.
pub execute_all-step :
    (now : ℕ) (st : Statement) (sts : List (ℕ × Statement)) (t u : Tables)
    → execute_all ((now, st) ∷ sts) t ≡ some u
    → (done : Done) × (execute now st t ≡ some done) × (execute_all sts done.1 ≡ some u)
unfolding execute_all
execute_all-step now st sts t u e = at (execute now st t) refl e
  where
    at :
        (first : Option Done)
        → execute now st t ≡ first
        → elim first as (λ x. Option Tables) [ none ↦ none | some done ↦ execute_all sts done.1 ]
          ≡ some u
        → (done : Done) × (execute now st t ≡ some done) × (execute_all sts done.1 ≡ some u)
    at none h e = absurd (cc)
    at (some done) h e = (done, h, e)

pub execute_all-end : (t u : Tables) → execute_all [] t ≡ some u → t ≡ u
unfolding execute_all
execute_all-end t u e = cc

-- The statements that were executed, in any order and by any client, leave consistent tables
-- consistent, and take no event away.
pub execute_all-IsConsistent :
    (sts : List (ℕ × Statement)) (t u : Tables)
    → execute_all sts t ≡ some u
    → IsConsistent t
    → IsConsistent u
      × ((id : Text) (at : ℕ)
          → number_of (has_key id at) t.events ≤ number_of (has_key id at) u.events)
execute_all-IsConsistent [] t u e c = rw⁻¹ (execute_all-end t u e) (c, λ id at. omega arith)
execute_all-IsConsistent ((now, st) ∷ sts) t u e c =
    let (done, executed, following) = execute_all-step now st sts t u e in
    let (consistent, kept) =
      execute_all-IsConsistent sts done.1 u following
        (execute-IsConsistent now t done st executed c) in
    (
      consistent,
      λ id at. omega (arith, kept id at, (execute-events now t done st id at executed).1),
    )
