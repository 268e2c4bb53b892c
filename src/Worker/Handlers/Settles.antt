-- ===== src/Worker/Handlers/Settles.antt =====
-- What it means that an event of apps/worker/handlers.py is accounted for, and how a failed insert
-- is.
pub mod Stored
pub mod Claimed
use mathlib.Core.Path.{subst}
use iotflow_distributed_syst.Base.{
  true, false, ◌∙◌, sym, ap, ℕ, ◌≡◌, refl, some, Any, Text, str, arith, List, Bool, false,
}
use iotflow_distributed_syst.Exec.{
  Outcome, ok, raised, Exception, is_exception, is_postgres_error, recover, continue, pure,
  on_state, except_exception, raise,
}
use iotflow_distributed_syst.Exec.Rules.{
  Returns, Returns-raised, Returns-if, Returns-mono, Returns-continue, Returns-recover,
  Returns-on_state, Returns-ok,
}
use iotflow_distributed_syst.Python.{Dict, text, get, is_truthy}
use iotflow_distributed_syst.Shared.Models.{IoTEvent, parse_event}
use iotflow_distributed_syst.Worker.Services.{Environment, State, Call, perform, count}
use iotflow_distributed_syst.Worker.Services.Trace.{IsInserted, IsDeadLettered, IsRefused}
use iotflow_distributed_syst.Worker.Db.{upsert_device_state, get_pool}
use iotflow_distributed_syst.Worker.Idempotency.{is_new, key, release}
use iotflow_distributed_syst.Worker.Retry.{with_retry}
use iotflow_distributed_syst.Worker.Idempotency.Claims.{is_new-IsRefused}
use iotflow_distributed_syst.Worker.Dlq.{send}
use iotflow_distributed_syst.Worker.Dlq.Sends.{send-IsDeadLettered}
use iotflow_distributed_syst.Worker.Handlers.{
  WorkerContext, Action, failure, reject, give_up, insert_with_retry, persist, update_state,
  device_state_handler, db_error, insert, persistence_handler, validation_handler, claimed,
  idempotency_handler, set_event,
}
use iotflow_distributed_syst.Worker.Handlers.Persistence.{insert_with_retry-IsInserted}

-- What has become of an event, from the calls that were made: Redis has refused its identifier as
-- a duplicate, it was handed to the DLQ topic, or it is valid and was inserted into `events`.
pub data Accounted {W : Type 0} (env : Environment W) (raw : Dict) (calls : List Call)
    : Type 0 where
  duplicate : Any (IsRefused (key env (get (str "event_id") raw))) calls → Accounted env raw calls
  dead_lettered : Any (IsDeadLettered raw) calls → Accounted env raw calls
  persisted :
      (event : IoTEvent)
      → parse_event env.py raw ≡ ok event
      → Any (IsInserted event) calls
      → Accounted env raw calls

module _ {W : Type 0} (env : Environment W) (raw : Dict) where
  abbrev pub Done : Unit {0} → WorkerContext × State W → Type 0
  Done _ y = Accounted env raw y.1.calls

  -- The handlers never change the raw event in the context.
  abbrev pub KeepsRaw : Action env → Type 0
  KeepsRaw m = (x : WorkerContext × State W) → x.0.raw_event ≡ raw → (m x).1.0.raw_event ≡ raw

  pub send-Done :
      (error_type message : Text) (n : ℕ) (x : WorkerContext × State W)
      → x.0.raw_event ≡ raw
      → Returns Done (on_state (send env (failure x.0 error_type message n)) x)
  send-Done error_type message n x same =
      Returns-mono _ Done _ (λ a sent. dead_lettered (rw (← same) sent))
        (Returns-on_state _ (send env (failure x.0 error_type message n)) x
          (send-IsDeadLettered env (failure x.0 error_type message n) x.1))

  release_send-Done :
      (event_id error_type message : Text) (n : ℕ) (x : WorkerContext × State W)
      → x.0.raw_event ≡ raw
      → Returns Done (
          continue
            (λ _ y. on_state (send env (failure y.0 error_type message n)) y)
            (on_state (release env (text event_id)) x))
  release_send-Done event_id error_type message n x same =
      Returns-continue Done (λ _ y. on_state (send env (failure y.0 error_type message n)) y)
        (on_state (release env (text event_id)) x)
        λ _ released.
          send-Done error_type message n (on_state (release env (text event_id)) x).1 same

  pub give_up-Done :
      (event : IoTEvent) (n : ℕ) (exc : Exception) (x : WorkerContext × State W)
      → x.0.raw_event ≡ raw
      → Returns Done (give_up env event n exc x)
  unfolding give_up
  give_up-Done event n exc x same =
      Returns-if Done (is_postgres_error exc.class) _ _ x
        (λ postgres.
          release_send-Done event.event_id (str "DB_ERROR") exc.message n
            (x.0, count (db_error exc.name) x.1) same)
        (λ other.
          Returns-if Done (is_exception exc.class) _ _ x
            (λ caught. release_send-Done event.event_id exc.name exc.message n x same)
            (λ base. Returns-raised Done exc x))

  pub give_up-KeepsRaw :
      (event : IoTEvent) (n : ℕ) (exc : Exception) → KeepsRaw (give_up env event n exc)
  unfolding give_up
  give_up-KeepsRaw event n exc x same = ground arith
