-- ===== src/Worker/Frames.antt =====
-- What no call of the worker (apps/worker) changes: the frame conditions that all its functions
-- keep, since every single call of a service does.
pub mod Services
pub mod Handling
pub mod Counters
use iotflow_distributed_syst.Base.{ℕ, ◌≤◌, ◌≡◌, Text, List, arith, refl, ◌∙◌}
use iotflow_distributed_syst.Exec.Keeps.{Keeps, IsFrame}
use iotflow_distributed_syst.Worker.Services.{
  Environment, Metrics, State, Statement, Call, DlqEnvelope, perform, draw, count,
}

-- A counter with one label is nowhere below what it was.
abbrev pub Grows : {K : Type 0} → (K → ℕ) → (K → ℕ) → Type 0
Grows {K} c d = (k : K) → c k ≤ d k

-- The gauge of the running tasks is as before, and no counter has fallen.
pub record HasCounted (m n : Metrics) : Type 0 where
  pub active_tasks : n.active_tasks ≡ m.active_tasks
  pub processed : Grows m.events_processed n.events_processed
  pub duplicate : m.events_duplicate ≤ n.events_duplicate
  pub dlq : Grows m.events_dlq n.events_dlq
  pub retries : Grows m.retry_attempts n.retry_attempts
  pub errors : Grows m.db_errors n.db_errors

-- A frame condition that the calls of the services keep, and the counting of what happened.
pub record Allows {W : Type 0} (env : Environment W) (R : State W → State W → Type 0) : Type 0 where
  pub frame : IsFrame R
  pub claims : (k : Text) (ttl : ℕ) → Keeps R (perform (env.redis_set_nx k ttl) (Call.set_nx k))
  pub deletes : (k : Text) → Keeps R (perform (env.redis_delete k) (Call.delete k))
  pub executes : (st : Statement) → Keeps R (perform (env.pool_execute st) (Call.execute st))
  pub sends :
      (topic : Text) (value : DlqEnvelope) (k : Text)
      → Keeps R (perform (env.send_and_wait topic value k) (Call.dlq_send topic value k))
  pub sleeps : (delay : ℕ) → Keeps R (perform (env.sleep delay) (Call.sleep delay))
  pub draws_delay : (width : ℕ) → Keeps R (draw (env.uniform width))
  pub draws_id : Keeps R (draw env.uuid4)
  pub draws_time : Keeps R (draw env.now)
  pub counts :
      (f : Metrics → Metrics)
      → ((m : Metrics) → HasCounted m (f m))
      → (s : State W) → R s (count f s)
