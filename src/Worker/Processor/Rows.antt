-- ===== src/Worker/Processor/Rows.antt =====
-- What `EventProcessor.process` of apps/worker/processor.py leaves in the tables of PostgreSQL.
use iotflow_distributed_syst.Base.{
  ◌≡◌, ◌∙◌, ap, refl, sym, true, ℕ, Option, Text, str, inl, inr, text_eq, if◌then◌else◌, [], ◌∷◌,
  arith, text_eq_refl,
}
use mathlib.Core.Path.{subst}
use iotflow_distributed_syst.Exec.{ok}
use iotflow_distributed_syst.Python.{Dict, get, is_truthy}
use iotflow_distributed_syst.Shared.Models.{IoTEvent, parse_event}
use iotflow_distributed_syst.Worker.Config.{idempotency_ttl_seconds}
use iotflow_distributed_syst.Worker.Services.{Environment, State}
use iotflow_distributed_syst.Worker.Idempotency.{key}
use iotflow_distributed_syst.Worker.Db.Tables.{Tables, has_partition}
use iotflow_distributed_syst.Worker.Db.Tables.Statements.{is_registered, state_of, has_room}
use iotflow_distributed_syst.Worker.Db.Tables.History.{summary, put_state-state_of}
use iotflow_distributed_syst.Worker.Db.Tables.Connected.{
  Connected, with_event, with_device, proposed_row, connected-Answers, rows_after, upserts,
  inserted,
}
use iotflow_distributed_syst.Worker.Processor.{process}
use iotflow_distributed_syst.Worker.Processor.Begins.{Begun}
use iotflow_distributed_syst.Worker.Processor.Stores.{process_stores}

with_device-events : (now : ℕ) (d : Text) (t : Tables) → (with_device now d t).events ≡ t.events
with_device-events now d t = ground arith

with_device-registered :
    (now : ℕ) (d : Text) (t : Tables) → is_registered d (with_device now d t).devices ≡ true
with_device-registered now d t = ground (arith, text_eq_refl d)

-- The tables after an event that was processed at the time `now`: they have the event, its device
-- and the event as the latest state of the device; no other state has changed.
pub record HasProcessed (event : IoTEvent) (now : ℕ) (before after : Tables) : Type 0 where
  pub events : after.events ≡ (with_event now event before).events
  pub devices : is_registered event.device_id after.devices ≡ true
  pub states :
      (d : Text)
      → state_of d after.states ≡ (
          if text_eq event.device_id d
          then summary (state_of d before.states) (proposed_row event ∷ [])
          else state_of d before.states)

module _ {W : Type 0} (env : Environment W) (laws : Connected env) (event : IoTEvent) where
  rows_after-HasProcessed :
      (w : W) (lies : has_partition (laws.clock w) ≡ true)
      (room : has_room (state_of event.device_id (laws.tables w).states) ≡ true)
      → HasProcessed event (laws.clock w) (laws.tables w) (rows_after env laws event w lies room)
  rows_after-HasProcessed w lies room = record {
    events =
        with_device-events (laws.clock (inserted env laws event w lies room)) event.device_id
          (with_event (laws.clock w) event (laws.tables w));
    devices =
        with_device-registered (laws.clock (inserted env laws event w lies room)) event.device_id
          (with_event (laws.clock w) event (laws.tables w));
    states = λ d. put_state-state_of (proposed_row event) d (laws.tables w).states refl;
  }

  abbrev HasRoom : Tables → Type 0
  HasRoom t = has_room (state_of event.device_id t.states) ≡ true

  -- Before PostgreSQL is called, the tables are as they were.
  claimed-tables :
      (k : Text) (s : State W) (w : W)
      → Begun env s w
      → laws.tables (env.redis_set_nx k idempotency_ttl_seconds w).1 ≡ laws.tables s.world
  claimed-tables k s w (inl e) = laws.claims_apart k idempotency_ttl_seconds w ∙ ap laws.tables e
  claimed-tables k s w (inr e) =
      laws.claims_apart k idempotency_ttl_seconds w ∙ (ap laws.tables e ∙ laws.draws_apart s.world)

  -- An event that is valid and that Redis finds new is in the tables afterwards, while PostgreSQL can
  -- be reached, no other client writes, the time lies in a partition and the count of the device is
  -- no BIGINT's last: whether the device was registered or not, `process` returns, and has left a row with the event, the device, and as the
  -- device's state the event with a count greater by one, and no other device's state is changed.
  pub process-HasProcessed :
      (raw : Dict) (partition offset : Option ℕ) (claimed_key : Text) (s : State W)
      → s.pool ≡ true
      → parse_event env.py raw ≡ ok event
      → is_truthy (get (str "event_id") raw) ≡ true
      → key env (get (str "event_id") raw) ≡ claimed_key
      → ((w : W)
          → Begun env s w
          → (env.redis_set_nx claimed_key idempotency_ttl_seconds w).0 ≡ ok true)
      → ((w : W)
          → Begun env s w
          → has_partition (laws.clock (env.redis_set_nx claimed_key idempotency_ttl_seconds w).1)
            ≡ true)
      → has_room (state_of event.device_id (laws.tables s.world).states) ≡ true
      → ((process env raw partition offset s).0 ≡ ok tt)
        × ((now : ℕ) × HasProcessed event now
              (laws.tables s.world)
              (laws.tables (process env raw partition offset s).1.world))
  process-HasProcessed raw partition offset k s there valid present same claims lies room =
      let claimed : W → W = λ w. (env.redis_set_nx k idempotency_ttl_seconds w).1 in
      let roomy : (w : W) (begun : Begun env s w) → HasRoom (laws.tables (claimed w)) =
        λ w begun. subst HasRoom (sym (claimed-tables k s w begun)) room in
      let (w, begun, (a, (returned, calls, metrics, world))) =
        process_stores env event raw partition offset k s there valid present same claims
          (λ w begun.
            connected-Answers env laws event (claimed w) (lies w begun) (roomy w begun)) in
      let left =
        ap laws.tables world
        ∙ (upserts env laws event (claimed w) (lies w begun) (roomy w begun)).1 in
      let now = laws.clock (claimed w) in
      let after = laws.tables (process env raw partition offset s).1.world in
      (
        returned,
        (
          now,
          subst (λ t. HasProcessed event now t after) (claimed-tables k s w begun)
              (subst (λ t. HasProcessed event now (laws.tables (claimed w)) t) (sym left)
                (rows_after-HasProcessed (claimed w) (lies w begun) (roomy w begun))),
        ),
      )
