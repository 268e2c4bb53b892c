-- ===== src/Worker/Handlers/Frees.antt =====
-- What apps/worker/handlers.py does with the claim of an event that it could not store.
use iotflow_distributed_syst.Base.{
  ◌∙◌, ap, ◌≡◌, ℕ, Bool, true, false, not, Text, str, text_eq_refl, some, arith, inl, inr,
  Bool-cases,
}
use iotflow_distributed_syst.Exec.{
  Outcome, ok, raised, Exception, is_exception, is_postgres_error, continue, on_state, gets, ◌>>◌,
  ◌>>=◌,
}
use iotflow_distributed_syst.Exec.Keeps.{Keeps, IsFrame, keeps_rules, Keeps-modify, Beside}
use iotflow_distributed_syst.Python.{Value, text, encode}
use iotflow_distributed_syst.Worker.Services.{
  Environment, State, Statement, Call, DlqEnvelope, Metrics, perform, draw, count,
}
use iotflow_distributed_syst.Worker.Db.{get_pool, record_dlq_event}
use iotflow_distributed_syst.Worker.Idempotency.Claims.{ClaimLaws, is_new-held, release-held}
use iotflow_distributed_syst.Worker.Dlq.{publish, record_failure, send, Failure}
use iotflow_distributed_syst.Exec.Rules.{continue-ok}
use iotflow_distributed_syst.Worker.Idempotency.{key, is_new, release}
use iotflow_distributed_syst.Worker.Handlers.{
  WorkerContext, Action, insert_with_retry, give_up, persist, failure, db_error,
}
use iotflow_distributed_syst.Shared.Models.{IoTEvent}

-- Kafka, PostgreSQL and the clock do not touch the keys in Redis.
pub record LeavesKeys {W : Type 0} (env : Environment W) (held : Text → W → Bool) : Type 0 where
  pub by_kafka :
      (topic : Text) (value : DlqEnvelope) (k j : Text) (w : W)
      → held j (env.send_and_wait topic value k w).1 ≡ held j w
  pub by_postgres :
      (st : Statement) (j : Text) (w : W) → held j (env.pool_execute st w).1 ≡ held j w
  pub by_uuid4 : (j : Text) (w : W) → held j (env.uuid4 w).1 ≡ held j w
  pub by_now : (j : Text) (w : W) → held j (env.now w).1 ≡ held j w

module _ {W : Type 0} (env : Environment W) (laws : ClaimLaws env)
    (leaves : LeavesKeys env laws.held) where
  -- A key that is free stays free.
  abbrev StaysFree : Text → State W → State W → Type 0
  StaysFree k s t = laws.held k s.world ≡ false → laws.held k t.world ≡ false

  StaysFree-IsFrame : (k : Text) → IsFrame (StaysFree k)
  StaysFree-IsFrame k = record { same = λ s h. h; step = λ s t u f g h. g (f h) }

  perform-StaysFree :
      (k : Text) {A : Type 0} (op : W → Outcome A × W) (call : Outcome A → Call)
      → ((w : W) → laws.held k (op w).1 ≡ laws.held k w)
      → Keeps (StaysFree k) (perform op call)
  unfolding perform
  perform-StaysFree k op call same = record { at = λ s h. same s.world ∙ h }

  draw-StaysFree :
      (k : Text) {A : Type 0} (op : W → A × W)
      → ((w : W) → laws.held k (op w).1 ≡ laws.held k w)
      → Keeps (StaysFree k) (draw op)
  unfolding draw
  draw-StaysFree k op same = record { at = λ s h. same s.world ∙ h }

  count-StaysFree :
      (k : Text)
      (f : iotflow_distributed_syst.Worker.Services.Metrics
        → iotflow_distributed_syst.Worker.Services.Metrics)
      (s : State W)
      → StaysFree k s (count f s)
  count-StaysFree k f s h = h

  get_pool-StaysFree : (k : Text) → Keeps (StaysFree k) (get_pool env)
  unfolding get_pool
  get_pool-StaysFree k = record { at = λ s. ground arith }

  encode-StaysFree : (k : Text) (v : Value) → Keeps {S = State W} (StaysFree k) (encode env.py v)
  unfolding encode
  encode-StaysFree k v = record { at = λ s. ground arith }

  ruleset free_rules = (
    keeps_rules, StaysFree-IsFrame, perform-StaysFree, draw-StaysFree, Keeps-modify,
    count-StaysFree, get_pool-StaysFree, encode-StaysFree,
  )

  send-StaysFree : (k : Text) (f : Failure) → Keeps (StaysFree k) (send env f)
  unfolding send publish record_failure record_dlq_event
  send-StaysFree k f =
      search (free_rules, leaves.by_kafka, leaves.by_postgres, leaves.by_uuid4, leaves.by_now) depth
        16

  module _ (v : Value) where
    -- A release frees the key, and what follows leaves it free.
    continue-free :
        (rest : Action env) (out : Outcome (Unit {0}) × (WorkerContext × State W))
        → Keeps (Beside (StaysFree (key env v))) rest
        → laws.held (key env v) out.1.1.world ≡ false
        → laws.held (key env v) (continue (λ _. rest) out).1.1.world ≡ false
    continue-free rest (ok a, y) keeps h = keeps.at y h
    continue-free rest (raised e, y) keeps h = h

    release-frees : (s : State W) → laws.held (key env v) (release env v s).1.world ≡ false
    release-frees s =
        release-held env laws v s (key env v) ∙ ground (arith, text_eq_refl (key env v))

    release_then-frees :
        (rest : Action env) (x : WorkerContext × State W)
        → Keeps (Beside (StaysFree (key env v))) rest
        → laws.held (key env v) ((on_state (release env v) >> rest) x).1.1.world ≡ false
    release_then-frees rest x keeps =
        continue-free rest (on_state (release env v) x) keeps (release-frees x.1)

    send_failure-StaysFree :
        (f : WorkerContext → Failure)
        → Keeps
            (Beside (StaysFree (key env v)))
            (do context ← gets (λ s. s.0); on_state (send env (f context)))
    send_failure-StaysFree f = record { at = λ x. (send-StaysFree (key env v) (f x.0)).at x.1 }

  give_up-frees :
      (event : IoTEvent) (n : ℕ) (exc : Exception) (x : WorkerContext × State W)
      → is_exception exc.class ≡ true
      → laws.held (key env (text event.event_id)) (give_up env event n exc x).1.1.world ≡ false
  unfolding give_up
  give_up-frees event n exc x caught =
      let v = text event.event_id in
      elim (Bool-cases (is_postgres_error exc.class)) [
        | inl e ↦ rw e (
            release_then-frees v _ (x.0, count (db_error exc.name) x.1)
              (send_failure-StaysFree v
                (λ context. failure context (str "DB_ERROR") exc.message n)))
        | inr e ↦
            rw (e, caught)
              (release_then-frees v _ x
                (send_failure-StaysFree v (λ context. failure context exc.name exc.message n)))
      ]

  persist-held :
      (event : IoTEvent) (next_call : Action env) (x : WorkerContext × State W) (exc : Exception)
      (n : ℕ)
      → (insert_with_retry env event x.1).0 ≡ ok (raised exc, n)
      → is_exception exc.class ≡ true
      → laws.held (key env (text event.event_id)) (persist env (some event) next_call x).1.1.world
        ≡ false
  unfolding persist
  persist-held event next_call x exc n failed caught =
      rw (continue-ok _ (on_state (insert_with_retry env event) x) (raised exc, n) failed)
        (give_up-frees event n exc _ caught)

  -- When the INSERT of an event has ended in an Exception, after its retries or at once, then whatever
  -- the DLQ topic and PostgreSQL answer next, the key of its identifier, as the model made it, is free
  -- in Redis and the guard answers True for that identifier: while Redis can be reached, and no other
  -- client claims the key.
  pub persist_frees :
      (event : IoTEvent) (next_call : Action env) (x : WorkerContext × State W) (exc : Exception)
      (n : ℕ)
      → (insert_with_retry env event x.1).0 ≡ ok (raised exc, n)
      → is_exception exc.class ≡ true
      → let v = text event.event_id in
        let after = (persist env (some event) next_call x).1.1 in
        (laws.held (key env v) after.world ≡ false) × ((is_new env v after).0 ≡ ok true)
  persist_frees event next_call x exc n failed caught =
      let v = text event.event_id in
      let after = (persist env (some event) next_call x).1.1 in
      let free = persist-held event next_call x exc n failed caught in
      (free, (is_new-held env laws v after).0 ∙ ap (λ b. ok (not b)) free)
