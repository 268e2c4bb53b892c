-- ===== src/Worker/Db/Answered.antt =====
-- The functions of apps/worker/db.py where PostgreSQL answers.
use iotflow_distributed_syst.Base.{
  ◌≡◌, refl, ltb, Bool, true, false, not, if◌then◌else◌, ◌∷◌, Text, str,
}
use iotflow_distributed_syst.Exec.{ok, pure}
use iotflow_distributed_syst.Exec.Runs.{Runs, Runs-pure, Runs-bind, Runs-then}
use iotflow_distributed_syst.Shared.Models.{IoTEvent}
use iotflow_distributed_syst.Worker.Services.{Environment, State, Statement, Call, perform}
use iotflow_distributed_syst.Worker.Db.{
  insert_event, upsert_device_state, get_pool, rows_affected, execute_statement,
}

-- The command tag of an INSERT of at most one row, by whether the row was there already.
abbrev pub tag_of : Bool → Text
tag_of true = str "INSERT 0 0"
tag_of false = str "INSERT 0 1"

module _ {W : Type 0} (env : Environment W) where
  abbrev pub noted : Call → W → State W → State W
  noted c w s = record s { world = w; calls = c ∷ s.calls }

  abbrev pub executed : Statement → Text → State W → State W
  executed st tag s = noted (Call.execute st (ok tag)) (env.pool_execute st s.world).1 s

  pub execute_statement-Runs :
      (st : Statement) (tag : Text) (s : State W)
      → (env.pool_execute st s.world).0 ≡ ok tag
      → Runs (execute_statement env st) s tag (executed st tag s)
  unfolding perform
  execute_statement-Runs st tag s h = record { ends = rw h refl }

  rows_affected-Runs :
      (b : Bool) (s : State W) → Runs (rows_affected env (tag_of b)) s (if b then 0 else 1) s
  unfolding rows_affected
  rows_affected-Runs true s = record { ends = refl }
  rows_affected-Runs false s = record { ends = refl }

  pub get_pool-Runs : (s : State W) → s.pool ≡ true → Runs (get_pool env) s tt s
  unfolding get_pool
  get_pool-Runs s there = record { ends = rw there refl }

  pub insert_event-Runs :
      (event : IoTEvent) (b : Bool) (s : State W)
      → s.pool ≡ true
      → (env.pool_execute (Statement.insert_event event) s.world).0 ≡ ok (tag_of b)
      → Runs
          (insert_event env event)
          s
          (not b)
          (executed (Statement.insert_event event) (tag_of b) s)
  unfolding insert_event
  insert_event-Runs event b s there h =
      let t = executed (Statement.insert_event event) (tag_of b) s in
      Runs-bind _ _ (get_pool-Runs s there) (
        Runs-bind _ _ (execute_statement-Runs (Statement.insert_event event) (tag_of b) s h)
          (Runs-bind _ _ (rows_affected-Runs b t) (is_new_row b t)))
    where
      is_new_row : (b : Bool) (t : State W) → Runs (pure (ltb 0 (if b then 0 else 1))) t (not b) t
      is_new_row true t = Runs-pure false t
      is_new_row false t = Runs-pure true t

  unfoldable pub upsert : IoTEvent → Statement
  upsert event =
      Statement.upsert_device_state event.device_id event.event_id event.event_type event.timestamp
        event.payload

  pub upsert_device_state-Runs :
      (event : IoTEvent) (device_tag state_tag : Text) (s : State W)
      → s.pool ≡ true
      → (env.pool_execute (Statement.insert_device event.device_id) s.world).0 ≡ ok device_tag
      → let t = executed (Statement.insert_device event.device_id) device_tag s in
        (env.pool_execute (upsert event) t.world).0 ≡ ok state_tag
        → Runs
            (upsert_device_state env event.device_id event.event_id event.event_type event.timestamp
              event.payload)
            s
            tt
            (executed (upsert event) state_tag t)
  unfolding upsert_device_state upsert
  upsert_device_state-Runs event device_tag state_tag s there h k =
      Runs-then _ _ (get_pool-Runs s there) (
        Runs-then _ _
          (execute_statement-Runs (Statement.insert_device event.device_id) device_tag s h)
          (Runs-then _ _ (execute_statement-Runs (upsert event) state_tag _ k) (Runs-pure tt _)))
