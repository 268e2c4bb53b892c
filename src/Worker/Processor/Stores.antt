-- ===== src/Worker/Processor/Stores.antt =====
-- `EventProcessor.process` of apps/worker/processor.py where every service answers: what is called,
-- in which order, and what is counted.
use iotflow_distributed_syst.Base.{ap, ◌≡◌, refl, ℕ, ◌+◌, Bool, true, ◌∷◌, Option, some, Text, str}
use iotflow_distributed_syst.Exec.{ok, pure, except_exception, recover}
use iotflow_distributed_syst.Exec.Runs.{Runs, Runs-bind, Runs-then, Runs-try_except, Runs-on_state}
use iotflow_distributed_syst.Python.{Dict, get, is_truthy}
use iotflow_distributed_syst.Shared.Models.{IoTEvent, parse_event}
use iotflow_distributed_syst.Worker.Config.{idempotency_ttl_seconds}
use iotflow_distributed_syst.Worker.Services.{Environment, State, Statement, Call, count}
use iotflow_distributed_syst.Worker.Idempotency.{key}
use iotflow_distributed_syst.Worker.Retry.{with_retry}
use iotflow_distributed_syst.Worker.Handlers.{
  reject, Action, WorkerContext, insert, insert_with_retry, give_up, persist, persistence_handler,
  update_state, device_state_handler, validation_handler, event_processed,
}
use iotflow_distributed_syst.Worker.Handlers.Settles.Claimed.{from_validation}
use iotflow_distributed_syst.Worker.Processor.{context_of, process, task_started}
use iotflow_distributed_syst.Worker.Db.Answered.{
  tag_of, executed, upsert, insert_event-Runs, upsert_device_state-Runs,
}
use iotflow_distributed_syst.Worker.Processor.Begins.{
  Begun, task_back, claimed_state, process-from_validation,
}

module _ {W : Type 0} (env : Environment W) where
  insert-Runs :
      (event : IoTEvent) (b : Bool) (n : ℕ) (s : State W)
      → s.pool ≡ true
      → (env.pool_execute (Statement.insert_event event) s.world).0 ≡ ok (tag_of b)
      → Runs
          (insert env event)
          (n, s)
          tt
          (n + 1, executed env (Statement.insert_event event) (tag_of b) s)
  unfolding insert
  insert-Runs event b n s there h = record {
    ends = rw ((insert_event-Runs env event b s there h).ends) refl;
  }

  -- The first attempt is the last.
  insert_with_retry-Runs :
      (event : IoTEvent) (b : Bool) (s : State W)
      → s.pool ≡ true
      → (env.pool_execute (Statement.insert_event event) s.world).0 ≡ ok (tag_of b)
      → Runs
          (insert_with_retry env event)
          s
          (ok tt, 1)
          (executed env (Statement.insert_event event) (tag_of b) s)
  unfolding insert_with_retry with_retry
  insert_with_retry-Runs event b s there h = record {
    ends = rw ((insert-Runs event b 0 s there h).ends) refl;
  }

  module _ (event : IoTEvent) where
    -- The worlds after the insert of the event, after that of its device, and after the upsert.
    abbrev inserted : W → W
    inserted w = (env.pool_execute (Statement.insert_event event) w).1

    abbrev registered : W → W
    registered w = (env.pool_execute (Statement.insert_device event.device_id) (inserted w)).1

    abbrev pub stored : W → W
    stored w = (env.pool_execute (upsert env event) (registered w)).1

    -- From this world on PostgreSQL answers the three statements for the event, with the tags of
    -- commands that succeed.
    pub record Answers (w : W) : Type 0 where
      pub there_already : Bool
      pub device_tag : Text
      pub state_tag : Text
      pub inserts :
          (env.pool_execute (Statement.insert_event event) w).0 ≡ ok (tag_of there_already)
      pub devices :
          (env.pool_execute (Statement.insert_device event.device_id) (inserted w)).0
          ≡ ok device_tag
      pub states : (env.pool_execute (upsert env event) (registered w)).0 ≡ ok state_tag

    abbrev inserted_state : Bool → State W → State W
    inserted_state there_already =
        executed env (Statement.insert_event event) (tag_of there_already)

    abbrev updated_state : Text → Text → State W → State W
    updated_state device_tag state_tag s = count (event_processed event.event_type) (
        executed env (upsert env event) state_tag
          (executed env (Statement.insert_device event.device_id) device_tag s))

    -- What `process` leaves from the world `w` on, given the answers.
    abbrev final_state : (w : W) → Answers w → State W → State W
    final_state w a s = updated_state a.device_tag a.state_tag (inserted_state a.there_already s)

    update_state-Runs :
        (w : W) (a : Answers w) (c : WorkerContext) (s : State W)
        → s.pool ≡ true
        → s.world ≡ inserted w
        → Runs
            (update_state env (some event) (pure tt))
            (c, s)
            tt
            (record c { processed = true }, updated_state a.device_tag a.state_tag s)
    unfolding update_state
    update_state-Runs w a c s there here =
        Runs-then _ _
          (Runs-try_except _ _ (
            Runs-on_state _ c (
              upsert_device_state-Runs env event a.device_tag a.state_tag s there
                (rw here a.devices) (rw here a.states))))
          (record { ends = refl })

    persist-Runs :
        (w : W) (a : Answers w) (next_call : Action env) (c : WorkerContext) (s : State W)
        (u : WorkerContext × State W)
        → s.pool ≡ true
        → s.world ≡ w
        → Runs next_call (c, inserted_state a.there_already s) tt u
        → Runs (persist env (some event) next_call) (c, s) tt u
    unfolding persist
    persist-Runs w a next_call c s u there here h =
        Runs-bind _ _
          (Runs-on_state _ c
            (insert_with_retry-Runs event a.there_already s there (rw here a.inserts)))
          (Runs-try_except next_call (give_up env event 1) h)

    -- The context after the handlers from validation on.
    abbrev handled : WorkerContext → WorkerContext
    handled c = record c { event = some event; processed = true }

    validation-Runs :
        (raw : Dict) (w : W) (a : Answers w) (c : WorkerContext) (s : State W)
        → s.pool ≡ true
        → s.world ≡ w
        → parse_event env.py c.raw_event ≡ ok event
        → Runs (from_validation env raw) (c, s) tt (handled c, final_state w a s)
    unfolding validation_handler persistence_handler device_state_handler
    validation-Runs raw w a c s there here valid =
        let context = record c { event = some event } in
        let last =
          update_state-Runs w a context (inserted_state a.there_already s) there
            (ap inserted here) in
        let persisted =
          persist-Runs w a (device_state_handler env (pure tt)) context s
            (handled c, final_state w a s) there here (record { ends = last.ends }) in
        record { ends = rw valid (ap (recover (except_exception (reject env))) persisted.ends) }

    -- A valid event that Redis finds new: where from then on PostgreSQL answers the statements for the
    -- event, `process` returns, having claimed the key, and sent one INSERT of the event, one of the
    -- device, and the upsert of the state of the device, with no other call; and of the counters it has
    -- raised the one of the processed events, at the event's type, and no other. It does all of this
    -- too where the INSERT finds the event there already and adds no row, and where the device was
    -- not registered before.
    pub process_stores :
        (raw : Dict) (partition offset : Option ℕ) (claimed_key : Text) (s : State W)
        → s.pool ≡ true
        → parse_event env.py raw ≡ ok event
        → is_truthy (get (str "event_id") raw) ≡ true
        → key env (get (str "event_id") raw) ≡ claimed_key
        → ((w : W)
            → Begun env s w
            → (env.redis_set_nx claimed_key idempotency_ttl_seconds w).0 ≡ ok true)
        → ((w : W)
            → Begun env s w
            → Answers (env.redis_set_nx claimed_key idempotency_ttl_seconds w).1)
        → (w : W) × (Begun env s w)
          × (let claimed = (env.redis_set_nx claimed_key idempotency_ttl_seconds w).1 in
              let out = process env raw partition offset s in
              (a : Answers claimed) × ((out.0 ≡ ok tt)
                × (out.1.calls
                    ≡ Call.execute (upsert env event) (ok a.state_tag)
                      ∷ Call.execute (Statement.insert_device event.device_id) (ok a.device_tag)
                      ∷ Call.execute (Statement.insert_event event) (ok (tag_of a.there_already))
                      ∷ Call.set_nx claimed_key (ok true)
                      ∷ s.calls)
                × (out.1.metrics ≡ event_processed event.event_type s.metrics)
                × (out.1.world ≡ stored claimed)))
    process_stores raw partition offset claimed_key s there valid present same claims answers =
        let (trace_id, w, begun, run) =
          process-from_validation env raw partition offset claimed_key s present same claims in
        let c = record (context_of env.py raw partition offset) { trace_id = trace_id } in
        let t =
          claimed_state env claimed_key
            (record s { world = w; metrics = task_started s.metrics }) in
        let a = answers w begun in
        (
          w,
          begun,
          (
            a,
            rw (run, (validation-Runs raw t.world a c t there refl valid).ends)
                (refl, refl, ap (event_processed event.event_type) (task_back s.metrics), refl),
          ),
        )
