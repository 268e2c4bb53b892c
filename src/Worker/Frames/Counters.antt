-- ===== src/Worker/Frames/Counters.antt =====
-- The pool and the counters (apps/worker/metrics.py) as a frame condition.
use iotflow_distributed_syst.Base.{ℕ, ◌≡◌, arith, refl, ◌∙◌}
use iotflow_distributed_syst.Exec.{Outcome}
use iotflow_distributed_syst.Exec.Keeps.{Keeps, IsFrame}
use iotflow_distributed_syst.Worker.Services.{Environment, Metrics, State, Call, perform, draw}
use iotflow_distributed_syst.Worker.Frames.{Grows, HasCounted, Allows}

-- The gauge of the running tasks and the pool are as before, and no counter has fallen.
pub record Kept {W : Type 0} (s t : State W) : Type 0 where
  pub pool : t.pool ≡ s.pool
  pub counters : HasCounted s.metrics t.metrics

Grows-refl : {K : Type 0} (c : K → ℕ) → Grows c c
Grows-refl c k = omega arith

Grows-trans : {K : Type 0} (c d e : K → ℕ) → Grows c d → Grows d e → Grows c e
Grows-trans c d e h g k = omega (arith, h k, g k)

HasCounted-refl : (m : Metrics) → HasCounted m m
HasCounted-refl m = record {
  active_tasks = refl;
  processed = Grows-refl m.events_processed;
  duplicate = omega arith;
  dlq = Grows-refl m.events_dlq;
  retries = Grows-refl m.retry_attempts;
  errors = Grows-refl m.db_errors;
}

HasCounted-trans : (m n k : Metrics) → HasCounted m n → HasCounted n k → HasCounted m k
HasCounted-trans m n k h g = record {
  active_tasks = g.active_tasks ∙ h.active_tasks;
  processed = Grows-trans _ _ _ h.processed g.processed;
  duplicate = omega (arith, h.duplicate, g.duplicate);
  dlq = Grows-trans _ _ _ h.dlq g.dlq;
  retries = Grows-trans _ _ _ h.retries g.retries;
  errors = Grows-trans _ _ _ h.errors g.errors;
}

module _ {W : Type 0} where
  Kept-IsFrame : IsFrame (Kept {W = W})
  Kept-IsFrame = record {
    same = λ s. record { pool = refl; counters = HasCounted-refl s.metrics };
    step = λ s t u h g. record {
      pool = g.pool ∙ h.pool;
      counters = HasCounted-trans _ _ _ h.counters g.counters;
    };
  }

  perform-Kept :
      {A : Type 0} (op : W → Outcome A × W) (call : Outcome A → Call)
      → Keeps (Kept {W = W}) (perform op call)
  unfolding perform
  perform-Kept op call = record {
    at = λ s. record { pool = refl; counters = HasCounted-refl s.metrics };
  }

  draw-Kept : {A : Type 0} (op : W → A × W) → Keeps (Kept {W = W}) (draw op)
  unfolding draw
  draw-Kept op = record { at = λ s. record { pool = refl; counters = HasCounted-refl s.metrics } }

pub Kept-Allows : {W : Type 0} (env : Environment W) → Allows env (Kept {W = W})
Kept-Allows env = record {
  frame = Kept-IsFrame;
  claims = λ k ttl. perform-Kept _ _;
  deletes = λ k. perform-Kept _ _;
  executes = λ st. perform-Kept _ _;
  sends = λ topic value k. perform-Kept _ _;
  sleeps = λ delay. perform-Kept _ _;
  draws_delay = λ width. draw-Kept _;
  draws_id = draw-Kept _;
  draws_time = draw-Kept _;
  counts = λ f h s. record { pool = refl; counters = h s.metrics };
}
