-- ===== src/Worker/Dlq/Sends.antt =====
-- When `DLQPublisher.send` of apps/worker/retry.py returns, the event was handed to the DLQ topic.
use iotflow_distributed_syst.Base.{
  ◌≡◌, refl, ◌⊎◌, inl, inr, false, Any, Text, str, arith, Bool-cases,
}
use iotflow_distributed_syst.Exec.{
  ok, raised, Exception, Exec, is_kafka_error, recover, pure, raise, ErrorClass,
}
use iotflow_distributed_syst.Exec.Rules.{
  Returns, Returns-recover, Returns-if, Returns-ok, Returns-raised, Returns-continue,
}
use iotflow_distributed_syst.Python.{
  get, get_or, interpreter_error, Value, null, text, encode, Runtime, has_surrogate,
}
use iotflow_distributed_syst.Worker.Config.{kafka_topic_dlq}
use iotflow_distributed_syst.Worker.Services.{
  Environment, State, DlqEnvelope, Call, perform, draw, count,
}
use iotflow_distributed_syst.Worker.Services.Trace.{IsDeadLettered}
use iotflow_distributed_syst.Worker.Db.{record_dlq_event, get_pool}
use iotflow_distributed_syst.Worker.Dlq.{
  Failure, publish, record_failure, send, or_unknown, except_kafka_error, envelope, dead_lettered,
}

module _ {S : Type 0} (py : Runtime) where
  -- Encoding a key touches no state, and raises no KafkaError.
  encode-cases :
      (v : Value) (s : S)
      → ((k : Text) × (encode py v s ≡ (ok k, s)))
        ⊎ ((e : Exception) × (encode py v s ≡ (raised e, s)) × (is_kafka_error e.class ≡ false))
  unfolding encode
  encode-cases (text t) s = elim (Bool-cases (has_surrogate t)) [
    | inl bad ↦ inr (
      interpreter_error py ErrorClass.unicode_error (str "UnicodeEncodeError"),
      rw bad refl,
      refl,
    )
    | inr good ↦ inl (t, rw good refl)
  ]
  encode-cases null s = inr (_, refl, refl)
  encode-cases _ s = inr (_, refl, refl)

module _ {W : Type 0} (env : Environment W) where
  record_failure-keeps :
      (P : Call → Type 0) (event_id device_id : Value) (f : Failure) (s : State W)
      → Any P s.calls
      → Any P (record_failure env event_id device_id f s).1.calls
  unfolding record_failure record_dlq_event get_pool perform
  record_failure-keeps P event_id device_id f s h = ground arith

  module _ (value : DlqEnvelope) where
    abbrev Sent : Unit {0} → State W → Type 0
    Sent _ t = Any (IsDeadLettered value.original_event) t.calls

    abbrev hand_over : Text → Exec (State W) (Unit {0})
    hand_over key =
        perform (env.send_and_wait kafka_topic_dlq value key)
          (Call.dlq_send kafka_topic_dlq value key)

    hand_over-Sent : (key : Text) (s : State W) → Sent tt (hand_over key s).1
    unfolding perform
    hand_over-Sent key s = inl (value, key, (hand_over key s).0, refl, refl)

    except-Sent :
        (key : Text) (s : State W) → Returns Sent (recover except_kafka_error (hand_over key s))
    except-Sent key s =
        Returns-recover Sent except_kafka_error (hand_over key s)
          (record { post = λ a e. hand_over-Sent key s })
          λ exc ended.
            Returns-if Sent (is_kafka_error exc.class) (pure tt) (raise exc) (hand_over key s).1
              (λ kafka. Returns-ok Sent tt (hand_over key s).1 (hand_over-Sent key s))
              (λ other. Returns-raised Sent exc (hand_over key s).1)

    publish-Sent : (event_id : Value) (s : State W) → Returns Sent (publish env event_id value s)
    unfolding publish
    publish-Sent event_id s = elim (encode-cases env.py (or_unknown event_id) s) [
      | inl (key, e) ↦ rw e (except-Sent key s)
      | inr (exc, e, other) ↦ rw (e, other) (Returns-raised Sent exc s)
    ]

  -- Whatever Kafka and PostgreSQL answer, `send` returns only when the original event has been
  -- handed to the DLQ topic: the other outcome is an exception.
  pub send-IsDeadLettered :
      (f : Failure) (s : State W)
      → Returns (λ _ t. Any (IsDeadLettered f.original_event) t.calls) (send env f s)
  unfolding send draw
  send-IsDeadLettered f s =
      let event_id = get_or (str "event_id") (text (str "unknown")) f.original_event in
      let device_id = get (str "device_id") f.original_event in
      let start : State W = count (dead_lettered f.error_type) s in
      let value = envelope f (env.uuid4 start.world).0 (env.now (env.uuid4 start.world).1).0 in
      let out =
        publish env event_id value
          (record start { world = (env.now (env.uuid4 start.world).1).1 }) in
      Returns-continue _ (λ _. record_failure env event_id device_id f) out
        λ a e. record {
          post = λ b e'.
              record_failure-keeps _ event_id device_id f out.1
                ((publish-Sent value event_id _).post a e);
        }
