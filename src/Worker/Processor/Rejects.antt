-- ===== src/Worker/Processor/Rejects.antt =====
-- `EventProcessor.process` of apps/worker/processor.py on an event that does not fit the model.
use iotflow_distributed_syst.Base.{
  ◌≡◌, refl, ◌∙◌, ap, ℕ, ◌++◌, true, false, ◌∷◌, Option, some, Text, str,
}
use iotflow_distributed_syst.Exec.{modify, ok, raised, Exception, is_exception}
use iotflow_distributed_syst.Exec.Runs.{
  Runs, Runs-pure, Runs-bind, Runs-then, Runs-try_except, Runs-on_state,
}
use iotflow_distributed_syst.Python.{
  lookup, Dict, Value, text, get, get_or, is_truthy, has_surrogate, encode,
}
use iotflow_distributed_syst.Worker.Config.{
  idempotency_ttl_seconds, kafka_topic_dlq, kafka_topic_raw,
}
use iotflow_distributed_syst.Worker.Services.{
  Environment, State, Statement, Call, DlqEnvelope, perform, draw, count,
}
use iotflow_distributed_syst.Worker.Db.{record_dlq_event}
use iotflow_distributed_syst.Worker.Db.Answered.{
  noted, executed, get_pool-Runs, execute_statement-Runs,
}
use iotflow_distributed_syst.Worker.Dlq.{
  Failure, envelope, publish, record_failure, send, dead_lettered,
}
use iotflow_distributed_syst.Shared.Models.{parse_event}
use iotflow_distributed_syst.Worker.Handlers.{WorkerContext, failure, reject, validation_handler}
use iotflow_distributed_syst.Worker.Handlers.Settles.Claimed.{from_validation}
use iotflow_distributed_syst.Worker.Idempotency.{key}
use iotflow_distributed_syst.Worker.Processor.{process, context_of, task_started, task_ended}
use iotflow_distributed_syst.Worker.Processor.Begins.{
  task_back, claimed_state, Begun, process-from_validation,
}
use iotflow_distributed_syst.Worker.Processor.Raises.{get-lookup}

module _ {W : Type 0} (env : Environment W) where
  draw-Runs :
      {A : Type 0} (op : W → A × W) (s : State W)
      → Runs (draw op) s (op s.world).0 (record s { world = (op s.world).1 })
  unfolding draw
  draw-Runs op s = record { ends = refl }

  -- The topic of dead letters and PostgreSQL answer.
  pub record TakesFailures (tag : Text) : Type 0 where
    pub sends :
        (topic : Text) (value : DlqEnvelope) (k : Text) (w : W)
        → (env.send_and_wait topic value k w).0 ≡ ok tt
    pub records : (st : Statement) (w : W) → (env.pool_execute st w).0 ≡ ok tag

  -- The statement that records a failure.
  unfoldable pub dlq_row : Failure → Value → Statement
  dlq_row f event_id =
      Statement.insert_dlq_event event_id (get (str "device_id") f.original_event) kafka_topic_raw
        f.original_event (str "[" ++ (f.error_type ++ (str "] " ++ f.error_message))) f.retry_count

  -- The failure that is reported of an event that was rejected.
  abbrev pub rejection : Dict → Exception → Option ℕ → Option ℕ → Failure
  rejection raw exc partition offset = record {
    original_event = raw;
    error_type = str "VALIDATION_ERROR";
    error_message = exc.message;
    retry_count = 0;
    original_partition = partition;
    original_offset = offset;
  }

  module _ (tag : Text) (takes : TakesFailures tag) where
    publish-Runs :
        (c : ℕ) (v : Text) (event_id : Value) (value : DlqEnvelope) (s : State W)
        → event_id ≡ text (c ∷ v)
        → has_surrogate (c ∷ v) ≡ false
        → Runs (publish env event_id value) s tt (
            noted env
              (Call.dlq_send kafka_topic_dlq value (c ∷ v) (ok tt))
              (env.send_and_wait kafka_topic_dlq value (c ∷ v) s.world).1
              s)
    unfolding publish encode perform
    publish-Runs c v event_id value s same plain = record {
      ends = rw (same, plain, takes.sends kafka_topic_dlq value (c ∷ v) s.world) refl;
    }

    record_failure-Runs :
        (event_id : Value) (f : Failure) (s : State W)
        → s.pool ≡ true
        → Runs
            (record_failure env event_id (get (str "device_id") f.original_event) f)
            s
            tt
            (executed env (dlq_row f event_id) tag s)
    unfolding record_failure record_dlq_event dlq_row
    record_failure-Runs event_id f s there = Runs-try_except _ _ (
        Runs-then _ _ (get_pool-Runs env s there) (
          Runs-then _ _ (execute_statement-Runs env (dlq_row f event_id) tag s (takes.records _ _))
            (Runs-pure tt _)))

    -- What `send` did from `s`.
    pub record Sent (f : Failure) (event_id : Text) (s t : State W) : Type 0 where
      pub value : DlqEnvelope
      pub enveloped :
          (value.original_event ≡ f.original_event)
          × (value.error_type ≡ f.error_type)
          × (value.retry_count ≡ f.retry_count)
      pub calls :
          t.calls
          ≡ Call.execute (dlq_row f (text event_id)) (ok tag)
            ∷ Call.dlq_send kafka_topic_dlq value event_id (ok tt)
            ∷ s.calls
      pub metrics : t.metrics ≡ dead_lettered f.error_type s.metrics

    send-Runs :
        (c : ℕ) (v : Text) (f : Failure) (s : State W)
        → s.pool ≡ true
        → get_or (str "event_id") (text (str "unknown")) f.original_event ≡ text (c ∷ v)
        → has_surrogate (c ∷ v) ≡ false
        → (t : State W) × Runs (send env f) s tt t × Sent f (c ∷ v) s t
    unfolding send
    send-Runs c v f s there same plain =
        let id_state = record s {
          world = (env.uuid4 s.world).1;
          metrics = dead_lettered f.error_type s.metrics;
        } in
        let now_state = record id_state { world = (env.now id_state.world).1 } in
        let value = envelope f (env.uuid4 s.world).0 (env.now id_state.world).0 in
        let sent =
          noted env (Call.dlq_send kafka_topic_dlq value (c ∷ v) (ok tt))
            (env.send_and_wait kafka_topic_dlq value (c ∷ v) now_state.world).1 now_state in
        let event_id = get_or (str "event_id") (text (str "unknown")) f.original_event in
        (
          executed env (dlq_row f event_id) tag sent,
          Runs-then (modify (count (dead_lettered f.error_type))) _ (record { ends = refl })
              (Runs-bind (draw env.uuid4) _ (draw-Runs env.uuid4 _) (
                Runs-bind (draw env.now) _ (draw-Runs env.now _) (
                  Runs-then _ _ (publish-Runs c v event_id value now_state same plain)
                    (record_failure-Runs event_id f sent there)))),
          record {
            value = value;
            enveloped = (refl, refl, refl);
            calls = ap (λ e. Call.execute (dlq_row f e) (ok tag) ∷ sent.calls) same;
            metrics = refl;
          },
        )

    reject-Runs :
        (c : ℕ) (v : Text) (exc : Exception) (x : WorkerContext) (s : State W)
        → s.pool ≡ true
        → get_or (str "event_id") (text (str "unknown")) x.raw_event ≡ text (c ∷ v)
        → has_surrogate (c ∷ v) ≡ false
        → let f = failure x (str "VALIDATION_ERROR") exc.message 0 in
          (t : State W) × Runs (reject env exc) (x, s) tt (x, t) × Sent f (c ∷ v) s t
    unfolding reject
    reject-Runs c v exc x s there same plain =
        let (t, ran, sent) =
          send-Runs c v (failure x (str "VALIDATION_ERROR") exc.message 0) s there same plain in
        (
          t,
          record {
            ends =
                (Runs-on_state (send env (failure x (str "VALIDATION_ERROR") exc.message 0)) x
                  ran).ends;
          },
          sent,
        )

    validation-rejects :
        (raw : Dict) (c : ℕ) (v : Text) (exc : Exception) (x : WorkerContext) (s : State W)
        → parse_event env.py x.raw_event ≡ raised exc
        → is_exception exc.class ≡ true
        → s.pool ≡ true
        → get_or (str "event_id") (text (str "unknown")) x.raw_event ≡ text (c ∷ v)
        → has_surrogate (c ∷ v) ≡ false
        → let f = failure x (str "VALIDATION_ERROR") exc.message 0 in
          (t : State W) × Runs (from_validation env raw) (x, s) tt (x, t) × Sent f (c ∷ v) s t
    unfolding validation_handler
    validation-rejects raw c v exc x s invalid caught there same plain =
        let (t, ran, sent) = reject-Runs c v exc x s there same plain in
        (t, record { ends = rw (invalid, caught) (ran.ends) }, sent)

    -- An event whose identifier is a text that is not empty and has a form in UTF-8, that Redis finds
    -- new and that does not fit the model is rejected: where the services answer, `process` returns, having claimed the key, handed the event to the DLQ topic under its
    -- identifier, with VALIDATION_ERROR and no retry, and recorded it in PostgreSQL, with no other call;
    -- and it has counted it in the counter of dead letters, at VALIDATION_ERROR, and nowhere else.
    pub process_rejects :
        (raw : Dict) (c : ℕ) (v : Text) (exc : Exception) (partition offset : Option ℕ)
        (s : State W)
        → s.pool ≡ true
        → lookup (str "event_id") raw ≡ some (text (c ∷ v))
        → has_surrogate (c ∷ v) ≡ false
        → parse_event env.py raw ≡ raised exc
        → is_exception exc.class ≡ true
        → ((w : W)
            → Begun env s w
            → (env.redis_set_nx (key env (text (c ∷ v))) idempotency_ttl_seconds w).0 ≡ ok true)
        → ((process env raw partition offset s).0 ≡ ok tt)
          × ((value : DlqEnvelope) × (value.original_event ≡ raw)
              × (value.error_type ≡ str "VALIDATION_ERROR")
              × (value.retry_count ≡ 0)
              × ((process env raw partition offset s).1.calls
                  ≡ Call.execute
                      (dlq_row (rejection raw exc partition offset) (text (c ∷ v)))
                      (ok tag)
                    ∷ Call.dlq_send kafka_topic_dlq value (c ∷ v) (ok tt)
                    ∷ Call.set_nx (key env (text (c ∷ v))) (ok true)
                    ∷ s.calls))
          × ((process env raw partition offset s).1.metrics
              ≡ dead_lettered (str "VALIDATION_ERROR") s.metrics)
    process_rejects raw c v exc partition offset s there found plain invalid caught new =
        let k = key env (text (c ∷ v)) in
        let (got, got_or) =
          get-lookup (str "event_id") (text (str "unknown")) (text (c ∷ v)) raw found in
        let (trace_id, w, begun, run) =
          process-from_validation env raw partition offset k s (ap is_truthy got) (ap (key env) got)
            new in
        let x = record (context_of env.py raw partition offset) { trace_id = trace_id } in
        let t = claimed_state env k (record s { world = w; metrics = task_started s.metrics }) in
        let (u, rejected, sent) =
          validation-rejects raw c v exc x t invalid caught there got_or plain in
        rw (run, rejected.ends)
          (
            refl,
            (sent.value, sent.enveloped.0, sent.enveloped.1, sent.enveloped.2, sent.calls),
            ap task_ended sent.metrics
                ∙ ap (dead_lettered (str "VALIDATION_ERROR")) (task_back s.metrics),
          )
