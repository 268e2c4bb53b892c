-- ===== src/Simulator/Publishes.antt =====
-- What the devices of scripts/simulate_iot.py publish together.
use iotflow_distributed_syst.Base.{
  ℕ, zero, suc, ◌+◌, ◌*◌, ◌≤◌, ◌<◌, ◌≡◌, refl, List, [], ◌∷◌, Text, length, All, true, arith,
}
use iotflow_distributed_syst.Exec.{Outcome, ok, raised}
use iotflow_distributed_syst.Python.{Runtime}
use iotflow_distributed_syst.Simulator.{
  Simulation, Publication, Run, sensor_id, events_per_device, call, send_event,
}
use iotflow_distributed_syst.Simulator.Payload.{is_plain}
use iotflow_distributed_syst.Simulator.Accepted.{
  SimulationLaws, IsAccepted, sent-IsAccepted, send_event-sent,
}
use iotflow_distributed_syst.Simulator.Fleet.{
  num_devices, Phase, created, sending, finished, failed, Device, unsent, unsent_of, is_finished,
  all_finished, after, advance, advance_at, advance_all, tasks,
}

-- One of the devices that `main` makes.
abbrev pub IsSensor : Text → Type 0
IsSensor device_id = (i : ℕ) × (i < num_devices) × (device_id ≡ sensor_id i)

abbrev IsPlain : Text → Type 0
IsPlain t = (1 ≤ length t) × (length t ≤ 128) × (is_plain t ≡ true)

sensor_id-IsPlain : (i : ℕ) → i < num_devices → IsPlain (sensor_id i)
sensor_id-IsPlain zero h = (omega arith, omega arith, refl)
sensor_id-IsPlain (suc zero) h = (omega arith, omega arith, refl)
sensor_id-IsPlain (suc (suc zero)) h = (omega arith, omega arith, refl)
sensor_id-IsPlain (suc (suc (suc zero))) h = (omega arith, omega arith, refl)
sensor_id-IsPlain (suc (suc (suc (suc zero)))) h = (omega arith, omega arith, refl)
sensor_id-IsPlain (suc (suc (suc (suc (suc i))))) h = absurd (omega (arith, h))

-- The model accepts it as an event of one of the devices, whose topic it has.
abbrev pub IsFromSensor : Runtime → Publication → Type 0
IsFromSensor py p = (device_id : Text) × IsSensor device_id × IsAccepted py device_id p

is_finished-unsent : (phase : Phase) → is_finished phase ≡ true → unsent phase ≡ 0
is_finished-unsent finished h = refl
is_finished-unsent created h = cc
is_finished-unsent (sending n) h = cc
is_finished-unsent (failed n exc) h = cc

all_finished-unsent : (ds : List Device) → all_finished ds ≡ true → unsent_of ds ≡ 0
all_finished-unsent [] h = refl
all_finished-unsent (d ∷ ds) h = ground (arith, is_finished-unsent d.phase, all_finished-unsent ds)

module _ {W : Type 0} (py : Runtime) (simulation : Simulation W)
    (laws : SimulationLaws py simulation) where
  -- The publications are events of the devices, and `total` counts them with `rest`.
  record IsCounted (total rest : ℕ) (s : Run W) : Type 0 where
    accepted : All (IsFromSensor py) s.published
    counted : length s.published + rest ≡ total

  after-IsCounted :
      (total others : ℕ) (phase : Phase) (out : Outcome (Unit {0}) × Run W)
      → IsCounted total (unsent phase + others) out.1
      → let end = after phase out in IsCounted total (unsent end.0 + others) end.1
  after-IsCounted total others phase (ok a, s) h = h
  after-IsCounted total others phase (raised exc, s) h = h

  send_event-IsCounted :
      (total rest : ℕ) (device_id : Text) (s : Run W)
      → IsSensor device_id
      → IsCounted total (suc rest) s
      → IsCounted total rest (send_event simulation device_id s).1
  send_event-IsCounted total rest device_id s sensor h =
      let (i, below, same) = sensor in
      let plain : IsPlain device_id = rw same (sensor_id-IsPlain i below) in
      let listed = send_event-sent py simulation laws device_id s in
      record {
        accepted = rw listed (
            (
              (
                device_id,
                sensor,
                sent-IsAccepted py simulation laws device_id s.world plain.0 plain.1 plain.2,
              ),
              h.accepted,
            ));
        counted = rw listed (omega (arith, h.counted));
      }

  advance-IsCounted :
      (total others : ℕ) (device_id : Text) (phase : Phase) (s : Run W)
      → IsSensor device_id
      → IsCounted total (unsent phase + others) s
      → let end = advance simulation device_id phase s in
        IsCounted total (unsent end.0 + others) end.1
  unfolding advance call
  advance-IsCounted total others device_id created s sensor h =
      after-IsCounted total others (sending events_per_device) (call simulation.connect s)
        (record { accepted = h.accepted; counted = h.counted })
  advance-IsCounted total others device_id (sending (suc n)) s sensor h =
      after-IsCounted total others (sending n) (send_event simulation device_id s) (
        send_event-IsCounted total (n + others) device_id s sensor
          (record { accepted = h.accepted; counted = omega (arith, h.counted) }))
  advance-IsCounted total others device_id (sending zero) s sensor h =
      after-IsCounted total others finished (call simulation.disconnect s)
        (record { accepted = h.accepted; counted = h.counted })
  advance-IsCounted total others device_id finished s sensor h = h
  advance-IsCounted total others device_id (failed n exc) s sensor h = h

  abbrev AreSensors : List Device → Type 0
  AreSensors = All (λ d. IsSensor d.device_id)

  -- With `others` events that devices outside the list have not sent.
  advance_at-IsCounted :
      (total others i : ℕ) (f : List Device × Run W)
      → AreSensors f.0
      → IsCounted total (unsent_of f.0 + others) f.1
      → let g = advance_at simulation i f in
        AreSensors g.0 × IsCounted total (unsent_of g.0 + others) g.1
  unfolding advance_at
  advance_at-IsCounted total others i ([], s) named h = (named, h)
  advance_at-IsCounted total others zero (d ∷ ds, s) named h =
      let next =
        advance-IsCounted total (unsent_of ds + others) d.device_id d.phase s named.0
          (record { accepted = h.accepted; counted = omega (arith, h.counted) }) in
      (
        (named.0, named.1),
        record { accepted = next.accepted; counted = omega (arith, next.counted) },
      )
  advance_at-IsCounted total others (suc i) (d ∷ ds, s) named h =
      let next =
        advance_at-IsCounted total (unsent d.phase + others) i (ds, s) named.1
          (record { accepted = h.accepted; counted = omega (arith, h.counted) }) in
      (
        (named.0, next.0),
        record { accepted = next.1.accepted; counted = omega (arith, next.1.counted) },
      )

  advance_all-IsCounted :
      (total : ℕ) (order : List ℕ) (f : List Device × Run W)
      → AreSensors f.0
      → IsCounted total (unsent_of f.0 + 0) f.1
      → let g = advance_all simulation order f in IsCounted total (unsent_of g.0 + 0) g.1
  unfolding advance_all
  advance_all-IsCounted total [] f named h = h
  advance_all-IsCounted total (i ∷ order) f named h =
      let next = advance_at-IsCounted total 0 i f named h in
      advance_all-IsCounted total order (advance_at simulation i f) next.0 next.1

  -- However the event loop interleaves the five devices, whatever the random numbers and however
  -- the broker answers: the model parses each payload that was published, to an event of one of the
  -- devices with the identifier that was drawn, and its topic gives back that device; those
  -- published and those that the tasks have not sent are fifteen together; and when all tasks have
  -- returned, fifteen have been published.
  pub fleet-IsAccepted :
      (order : List ℕ) (w : W)
      → let (devices, s) =
          advance_all simulation order (tasks, record { world = w; published = [] }) in
        All (IsFromSensor py) s.published
        × (length s.published + unsent_of devices ≡ num_devices * events_per_device)
        × (all_finished devices ≡ true → length s.published ≡ num_devices * events_per_device)
  fleet-IsAccepted order w =
      let start : List Device × Run W = (tasks, record { world = w; published = [] }) in
      let named : AreSensors tasks = (
        (0, omega arith, refl),
        (
          (1, omega arith, refl),
          ((2, omega arith, refl), ((3, omega arith, refl), ((4, omega arith, refl), tt))),
        ),
      ) in
      let h =
        advance_all-IsCounted 15 order start named (record { accepted = tt; counted = refl }) in
      let devices = (advance_all simulation order start).0 in
      (
        h.accepted,
        omega (arith, h.counted),
        λ done. omega (arith, h.counted, all_finished-unsent devices done),
      )
