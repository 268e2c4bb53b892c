-- ===== src/Ingestion/Service/Gauge.antt =====
-- apps/ingestion/main.py: `_queue_gauge_updater` beside the subscriber and the dispatcher.
use iotflow_distributed_syst.Base.{ℕ, ◌≡◌, length, Bool, false, if◌then◌else◌}
use iotflow_distributed_syst.Ingestion.Services.{Environment}
use iotflow_distributed_syst.Ingestion.Service.{Service}
use iotflow_distributed_syst.Ingestion.Service.Bounded as Bounded

-- The service with the gauge QUEUE_SIZE, and whether the updater still runs.
pub record Gauged (W : Type 0) : Type 0 where
  pub service : Service W
  pub queue_size : ℕ
  pub running : Bool

module _ {W : Type 0} where
  -- One round: `QUEUE_SIZE.set(_MSG_QUEUE.qsize())`, and then the sleep.
  unfoldable pub update_queue_gauge : Gauged W → Gauged W
  update_queue_gauge g = if g.running then record g { queue_size = length g.service.queue } else g

  -- Cancelled in the sleep, it returns.
  unfoldable pub cancel_updater : Gauged W → Gauged W
  cancel_updater g = record g { running = false }

  module _ (env : Environment W) where
    pub data Step (g h : Gauged W) : Type 0 where
      works :
          (t : Service W) → Bounded.Step env g.service t → h ≡ record g { service = t } → Step g h
      updates : h ≡ update_queue_gauge g → Step g h
      cancels : h ≡ cancel_updater g → Step g h

    pub data Reach (g : Gauged W) : Gauged W → Type 0 where
      here : Reach g g
      next : (h : Gauged W) {k : Gauged W} → Reach g h → Step h k → Reach g k

    -- A step at which the updater goes round while it runs sees the length of the queue.
    abbrev seen_at : (g : Gauged W) {h : Gauged W} → ℕ → Step g h → ℕ
    seen_at g last (works t step e) = last
    seen_at g last (updates e) = if g.running then length g.service.queue else last
    seen_at g last (cancels e) = last

    -- The length that the queue had at the last round of the updater on this way, from `start` on.
    abbrev pub last_seen : {g h : Gauged W} → ℕ → Reach g h → ℕ
    last_seen start here = start
    last_seen start (next h way step) = seen_at h (last_seen start way) step
