-- ===== src/Simulator.antt =====
-- scripts/simulate_iot.py: the devices that publish events over MQTT.
pub mod Payload
pub mod Accepted
pub mod Fleet
pub mod Publishes
pub mod Alone
use iotflow_distributed_syst.Base.{ℕ, zero, suc, ◌+◌, ◌*◌, ◌/◌, ◌-◌, List, [], ◌∷◌, ◌++◌, Text, str}
use iotflow_distributed_syst.Exec.{Outcome, ok, Exec, pure, ◌>>=◌, ◌>>◌}
use iotflow_distributed_syst.Python.{Value, Dict, text, object, entry, empty}

abbrev pub events_per_device : ℕ
events_per_device = 3

-- `chars` of `generate_ulid`.
abbrev pub ulid_chars : Text
ulid_chars = str "0123456789ABCDEFGHJKMNPQRSTVWXYZ"

-- What the script calls, each answered in a world `W`. A dict stands for its JSON text.
pub record Simulation (W : Type 0) : Type 0 where
  -- `"".join(random.choices(chars, k=k))`
  pub choices : Text → ℕ → W → Text × W
  -- `round(random.uniform(a, b), 2)`
  pub uniform : ℕ → ℕ → W → Value × W
  pub randint : ℕ → ℕ → W → Value × W
  -- `datetime.now(timezone.utc).isoformat()`
  pub now : W → Text × W
  pub connect : W → Outcome (Unit {0}) × W
  pub publish : Text → Dict → W → Outcome (Unit {0}) × W
  pub sleep : W → Outcome (Unit {0}) × W
  pub disconnect : W → Outcome (Unit {0}) × W

-- A message of the device: its topic and its payload.
pub record Publication : Type 0 where
  pub topic : Text
  pub payload : Dict

-- `published` lists what was handed to the client, the latest first.
pub record Run (W : Type 0) : Type 0 where
  pub world : W
  pub published : List Publication

module _ {W A : Type 0} where
  abbrev drawn : Run W → A × W → Outcome A × Run W
  drawn s (a, w) = (ok a, record s { world = w })

  -- A call that always returns: the clock, the source of randomness.
  unfoldable pub draw : (W → A × W) → Exec (Run W) A
  draw op s = drawn s (op s.world)

  abbrev replied : Run W → Outcome A × W → Outcome A × Run W
  replied s (r, w) = (r, record s { world = w })

  unfoldable pub call : (W → Outcome A × W) → Exec (Run W) A
  call op s = replied s (op s.world)

-- `TOPIC_TEMPLATE.format(device_id=device_id)`
abbrev pub topic_of : Text → Text
topic_of device_id = str "devices/" ++ device_id ++ str "/events"

abbrev digit : ℕ → ℕ
digit d = b'0' + d

-- `f"sensor-{i:03d}"`, for the numbers of at most three digits.
abbrev pub sensor_id : ℕ → Text
sensor_id i =
    str "sensor-"
    ++ digit (i / 100 - i / 1000 * 10)
      ∷ digit (i / 10 - i / 100 * 10)
      ∷ digit (i - i / 10 * 10)
      ∷ []

abbrev pub measurements : Value → Value → Value → Dict
measurements temperature humidity battery =
    entry (str "temperature") temperature
      (entry (str "humidity") humidity (entry (str "battery") battery empty))

abbrev pub firmware : Dict
firmware = entry (str "firmware") (text (str "v2.1.0")) empty

-- The dict `payload`.
unfoldable pub payload_of : Text → Text → Text → Value → Value → Value → Dict
payload_of event_id device_id timestamp temperature humidity battery =
    entry (str "event_id") (text event_id) (
      entry (str "device_id") (text device_id) (
        entry (str "event_type") (text (str "telemetry")) (
          entry (str "timestamp") (text timestamp) (
            entry (str "payload") (object (measurements temperature humidity battery)) (
              entry (str "metadata") (object firmware)
                (entry (str "schema_version") (text (str "1.0")) empty))))))

module _ {W : Type 0} (simulation : Simulation W) where
  unfoldable pub generate_ulid : Exec (Run W) Text
  generate_ulid = draw (simulation.choices ulid_chars 26)

  -- `client.publish(topic, json.dumps(payload), qos=1)`
  unfoldable pub publish : Text → Dict → Exec (Run W) (Unit {0})
  publish topic payload s =
      call (simulation.publish topic payload)
        (record s { published = record { topic = topic; payload = payload } ∷ s.published })

  -- One round of the loop.
  unfoldable pub send_event : Text → Exec (Run W) (Unit {0})
  unfolding generate_ulid
  send_event device_id = do
    event_id ← generate_ulid
    timestamp ← draw simulation.now
    temperature ← draw (simulation.uniform 20 30)
    humidity ← draw (simulation.uniform 40 60)
    battery ← draw (simulation.randint 70 100)
    publish (topic_of device_id)
        (payload_of event_id device_id timestamp temperature humidity battery)
    call simulation.sleep

  unfoldable pub send_events : ℕ → Text → Exec (Run W) (Unit {0})
  unfolding send_event
  send_events zero device_id = pure tt
  send_events (suc n) device_id = do send_event device_id; send_events n device_id

  unfoldable pub simulate_device : Text → Exec (Run W) (Unit {0})
  unfolding send_events
  simulate_device device_id = do
    call simulation.connect
    send_events events_per_device device_id
    call simulation.disconnect
