-- ===== src/Ingestion/Service/Bounded.antt =====
-- The queue of apps/ingestion/main.py between the subscriber and the dispatcher.
use iotflow_distributed_syst.Base.{
  suc, ◌≤◌, ◌≡◌, refl, List, [], ◌∷◌, length, length-append, arith, ap,
}
use iotflow_distributed_syst.Exec.{Outcome, ok, raised}
use iotflow_distributed_syst.Ingestion.Services.{Environment, State}
use iotflow_distributed_syst.Ingestion.Handlers.{RawMessage}
use iotflow_distributed_syst.Ingestion.Service.{
  Service, queue_maxsize, put_message, after_message, dispatch_from, dispatch_message,
  process_mqtt_message,
}

-- The two tasks that touch the queue, in any order: the subscriber puts a message, and the
-- dispatcher goes round once.
pub data Step {W : Type 0} (env : Environment W) (s t : Service W) : Type 0 where
  arrives : (msg : RawMessage) → t ≡ put_message msg s → Step env s t
  dispatches : t ≡ (dispatch_message env s).1 → Step env s t

pub data Reach {W : Type 0} (env : Environment W) (s : Service W) : Service W → Type 0 where
  here : Reach env s s
  next : {t u : Service W} → Reach env s t → Step env t u → Reach env s u

-- The queue is within its bound, and every message in it is counted as unfinished.
pub record IsBounded {W : Type 0} (s : Service W) : Type 0 where
  pub within : length s.queue ≤ queue_maxsize
  pub counted : length s.queue ≤ s.unfinished_tasks

module _ {W : Type 0} (env : Environment W) where
  put_message-IsBounded :
      (msg : RawMessage) (s : Service W) → IsBounded s → IsBounded (put_message msg s)
  unfolding put_message
  put_message-IsBounded msg s h = ground (arith, length-append s.queue (msg ∷ []))

  after_message-IsBounded :
      (s : Service W) (out : Outcome (Unit {0}) × State W)
      → suc (length s.queue) ≤ queue_maxsize
      → suc (length s.queue) ≤ s.unfinished_tasks
      → IsBounded (after_message env s out).1
  after_message-IsBounded s (ok _, t) within counted = omega arith
  after_message-IsBounded s (raised exc, t) within counted = omega arith

  dispatch_from-IsBounded :
      (queue : List RawMessage) (s : Service W)
      → queue ≡ s.queue
      → IsBounded s
      → IsBounded (dispatch_from env queue s).1
  unfolding dispatch_from
  dispatch_from-IsBounded [] s e h = h
  dispatch_from-IsBounded (msg ∷ rest) s e h =
      after_message-IsBounded (record s { queue = rest }) (process_mqtt_message env msg s.state)
        (omega (arith, ap length e, h.within)) (omega (arith, ap length e, h.counted))

  Step-IsBounded : {s t : Service W} → Step env s t → IsBounded s → IsBounded t
  unfolding dispatch_message
  Step-IsBounded {s} (arrives msg e) h = rw e (put_message-IsBounded msg s h)
  Step-IsBounded {s} (dispatches e) h = rw e (dispatch_from-IsBounded s.queue s refl h)

  -- Whatever the order of arrivals and dispatches, and whatever becomes of the messages, the queue
  -- never holds more than 10,000 of them, and never more than `task_done` has to answer for.
  pub Reach-IsBounded : {s t : Service W} → Reach env s t → IsBounded s → IsBounded t
  Reach-IsBounded here h = h
  Reach-IsBounded (next r step) h = Step-IsBounded step (Reach-IsBounded r h)
