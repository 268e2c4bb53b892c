-- ===== src/Simulator/Fleet.antt =====
-- `main` of scripts/simulate_iot.py: the devices as tasks of one event loop.
use iotflow_distributed_syst.Base.{ℕ, zero, suc, ◌+◌, List, [], ◌∷◌, Text, Bool, true, false, ◌&&◌}
use iotflow_distributed_syst.Exec.{Outcome, ok, raised, Exception}
use iotflow_distributed_syst.Simulator.{
  Simulation, Run, events_per_device, sensor_id, call, send_event,
}

abbrev pub num_devices : ℕ
num_devices = 5

-- How far a task has come: not begun, with this number of rounds before it, or ended. A task that
-- ended in an exception has a number of rounds that it never began.
pub data Phase : Type 0 where
  created : Phase
  sending : ℕ → Phase
  finished : Phase
  failed : ℕ → Exception → Phase

pub record Device : Type 0 where
  pub device_id : Text
  pub phase : Phase

-- The events that a task has not sent.
abbrev pub unsent : Phase → ℕ
unsent created = events_per_device
unsent (sending n) = n
unsent finished = 0
unsent (failed n exc) = n

abbrev pub unsent_of : List Device → ℕ
unsent_of [] = 0
unsent_of (d ∷ ds) = unsent d.phase + unsent_of ds

abbrev pub is_finished : Phase → Bool
is_finished finished = true
is_finished _ = false

-- `gather` returns when every task has.
abbrev pub all_finished : List Device → Bool
all_finished [] = true
all_finished (d ∷ ds) = is_finished d.phase && all_finished ds

module _ {W : Type 0} where
  abbrev pub after : Phase → Outcome (Unit {0}) × Run W → Phase × Run W
  after phase (ok a, s) = (phase, s)
  after phase (raised exc, s) = (failed (unsent phase) exc, s)

  module _ (simulation : Simulation W) where
    -- A task goes on: it connects, runs a round of its loop up to the end of the sleep, or
    -- disconnects.
    unfoldable pub advance : Text → Phase → Run W → Phase × Run W
    advance device_id created s = after (sending events_per_device) (call simulation.connect s)
    advance device_id (sending (suc n)) s = after (sending n) (send_event simulation device_id s)
    advance device_id (sending zero) s = after finished (call simulation.disconnect s)
    advance device_id finished s = (finished, s)
    advance device_id (failed n exc) s = (failed n exc, s)

    -- The task at this place goes on.
    unfoldable pub advance_at : ℕ → List Device × Run W → List Device × Run W
    unfolding advance
    advance_at i ([], s) = ([], s)
    advance_at zero (d ∷ ds, s) =
        let (phase, t) = advance d.device_id d.phase s in (record d { phase = phase } ∷ ds, t)
    advance_at (suc i) (d ∷ ds, s) = let (es, t) = advance_at i (ds, s) in (d ∷ es, t)

    -- The event loop lets these tasks go on, one after another.
    unfoldable pub advance_all : List ℕ → List Device × Run W → List Device × Run W
    unfolding advance_at
    advance_all [] f = f
    advance_all (i ∷ order) f = advance_all order (advance_at i f)

-- The tasks that `main` makes, for the numbers below `NUM_DEVICES`.
abbrev device_of_number : ℕ → Device
device_of_number i = record { device_id = sensor_id i; phase = created }

abbrev pub tasks : List Device
tasks =
    device_of_number 0
    ∷ device_of_number 1
    ∷ device_of_number 2
    ∷ device_of_number 3
    ∷ device_of_number 4
    ∷ []
