-- ===== src/Worker/Db/Tables/History.antt =====
-- The row that `upsert_device_state` of apps/worker/db.py materialises for a device, as the history
-- of the statements says it.
use iotflow_distributed_syst.Base.{
  ℕ, ◌+◌, ◌≡◌, List, [], ◌∷◌, Option, none, some, Text, text_eq, text_eq→eq, text_eq_refl, length,
  arith, refl, ap, ◌∙◌, if◌then◌else◌,
}
use iotflow_distributed_syst.Worker.Services.{Statement}
use iotflow_distributed_syst.Worker.Db.Tables.{StateRow, Tables}
use iotflow_distributed_syst.Worker.Db.Tables.Statements.{
  Done, insert_event_row, insert_device_row, state_of, put_state, upsert_row, execute, execute_all,
}
use iotflow_distributed_syst.Worker.Db.Tables.Constraints.{
  add_dlq_row-others, execute_all-step, execute_all-end,
}

-- The row that a statement proposes for the state of the device.
abbrev pub proposed : Text → Statement → Option StateRow
proposed d (Statement.upsert_device_state device_id event_id event_type last_seen_at last_payload) =
    if text_eq device_id d
    then some (record {
      device_id = device_id;
      last_event_id = event_id;
      last_event_type = event_type;
      last_seen_at = last_seen_at;
      last_payload = last_payload;
      event_count = 1;
    })
    else none
proposed d _ = none

abbrev add_proposed : Option StateRow → List StateRow → List StateRow
add_proposed none rows = rows
add_proposed (some row) rows = row ∷ rows

-- The rows proposed for the device, in the order of the statements.
unfoldable pub proposals : Text → List (ℕ × Statement) → List StateRow
proposals d [] = []
proposals d ((now, st) ∷ sts) = add_proposed (proposed d st) (proposals d sts)

abbrev pub last_of : StateRow → List StateRow → StateRow
last_of row [] = row
last_of row (next_row ∷ rows) = last_of next_row rows

abbrev pub count_of : Option StateRow → ℕ
count_of none = 0
count_of (some row) = row.event_count

-- The last row that was proposed, with the number of all of them added to the count.
abbrev pub summary : Option StateRow → List StateRow → Option StateRow
summary before [] = before
summary before (row ∷ rows) =
    some (record (last_of row rows) { event_count = count_of before + length (row ∷ rows) })

-- One proposal after another.
summary-next :
    (before : Option StateRow) (row : StateRow) (rows : List StateRow)
    → summary (summary before (row ∷ [])) rows ≡ summary before (row ∷ rows)
summary-next before row [] = refl
summary-next before row (next_row ∷ rows) =
    ap (λ n. some (record (last_of next_row rows) { event_count = n })) (omega arith)

summary-add :
    (before : Option StateRow) (row : Option StateRow) (rows : List StateRow)
    → summary (summary before (add_proposed row [])) rows ≡ summary before (add_proposed row rows)
summary-add before none rows = refl
summary-add before (some row) rows = summary-next before row rows

pub put_state-state_of :
    (row : StateRow) (d : Text) (rows : List StateRow)
    → row.event_count ≡ 1
    → state_of d (put_state row rows)
      ≡ (if text_eq row.device_id d then summary (state_of d rows) (row ∷ []) else state_of d rows)
unfolding put_state state_of
put_state-state_of row d [] one = ground (arith, ap (λ n. record row { event_count = n }) one)
put_state-state_of row d (old ∷ rows) one = ground (
  arith,
  put_state-state_of row d rows one,
  text_eq→eq old.device_id row.device_id,
  text_eq→eq old.device_id d,
  text_eq→eq row.device_id d,
  text_eq_refl d,
)

pub execute-state_of :
    (now : ℕ) (st : Statement) (t : Tables) (done : Done) (d : Text)
    → execute now st t ≡ some done
    → state_of d done.1.states ≡ summary (state_of d t.states) (add_proposed (proposed d st) [])
unfolding execute insert_event_row insert_device_row upsert_row
execute-state_of now (Statement.insert_event event) t done d e = ground (arith, e)
execute-state_of now (Statement.insert_device device_id) t done d e = ground (arith, e)
execute-state_of now (Statement.upsert_device_state device id type seen payload) t done d e =
    let row : StateRow = record {
      device_id = device;
      last_event_id = id;
      last_event_type = type;
      last_seen_at = seen;
      last_payload = payload;
      event_count = 1;
    } in
    ground (arith, e, put_state-state_of row d t.states refl)
execute-state_of now (Statement.insert_dlq_event id device topic payload message retries) t done d
      e =
    ap (state_of d) (add_dlq_row-others now _ _ topic payload message retries t done e).2

-- After statements that were executed, in any order and by any client, the row of a device is
-- the one that was proposed last, whatever its `last_seen_at`, and its count has grown by the number
-- of the rows proposed; if none was proposed, it is as before.
pub execute_all-state_of :
    (sts : List (ℕ × Statement)) (t u : Tables) (d : Text)
    → execute_all sts t ≡ some u
    → state_of d u.states ≡ summary (state_of d t.states) (proposals d sts)
unfolding proposals
execute_all-state_of [] t u d e = rw⁻¹ (execute_all-end t u e) refl
execute_all-state_of ((now, st) ∷ sts) t u d e =
    let (done, executed, following) = execute_all-step now st sts t u e in
    execute_all-state_of sts done.1 u d following
    ∙ (ap (λ row. summary row (proposals d sts)) (execute-state_of now st t done d executed)
        ∙ summary-add (state_of d t.states) (proposed d st) (proposals d sts))
