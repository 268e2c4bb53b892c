-- ===== src/Simulator/Accepted.antt =====
-- What scripts/simulate_iot.py publishes, and what apps/ingestion and libs/shared make of it.
use iotflow_distributed_syst.Base.{
  ℕ, zero, suc, ◌+◌, ◌≤◌, ◌≡◌, refl, ap, true, [], ◌∷◌, some, Text, str, length, All, arith, inl,
  inr,
}
use iotflow_distributed_syst.Exec.{continue, ◌>>◌, Outcome, ok, raised, Exec}
use iotflow_distributed_syst.Exec.Rules.{Outcome-cases}
use iotflow_distributed_syst.Python.{Dict, Datetime, Runtime, lookup, text}
use iotflow_distributed_syst.Shared.Models.{IoTEvent, utc, ensure_utc, parse_event}
use iotflow_distributed_syst.Shared.Models.RoundTrip.{lacks_z}
use iotflow_distributed_syst.Ingestion.Handlers.{device_of}
use iotflow_distributed_syst.Simulator.{
  Simulation, Publication, Run, ulid_chars, topic_of, payload_of, events_per_device, draw, call,
  generate_ulid, publish, send_event, send_events, simulate_device,
}
use iotflow_distributed_syst.Simulator.Payload.{
  drawn_from, is_plain, drawn-validate_ulid, device_of-topic_of, replace_z-lacks, event_of,
  parse_event-payload_of,
}

-- What the random and datetime modules document: `choices` gives `k` elements of a population that is
-- not empty, and
-- the ISO form of the time in UTC has no `Z`, and `fromisoformat` reads it as a datetime with an
-- offset that can be converted to UTC.
pub record SimulationLaws {W : Type 0} (py : Runtime) (simulation : Simulation W) : Type 0 where
  pub choices_drawn :
      (c : ℕ) (chars : Text) (k : ℕ) (w : W)
      → (length (simulation.choices (c ∷ chars) k w).0 ≡ k)
        × (drawn_from (c ∷ chars) (simulation.choices (c ∷ chars) k w).0 ≡ true)
  pub now_lacks_z : (w : W) → lacks_z (simulation.now w).0 ≡ true
  pub now_read :
      (w : W)
      → (clock offset : ℕ) × (t : Datetime) × (py.fromisoformat (simulation.now w).0
          ≡ some (record { clock = clock; offset = some offset }))
        × (py.to_utc clock offset ≡ some t)

-- The model accepts the payload as an event of the device, and the ingestion service takes the device
-- from the topic.
abbrev pub IsAccepted : Runtime → Text → Publication → Type 0
IsAccepted py device_id p =
    (event : IoTEvent) × (parse_event py p.payload ≡ ok event)
    × (event.device_id ≡ device_id)
    × (lookup (str "event_id") p.payload ≡ some (text event.event_id))
    × (device_of p.topic ≡ device_id)

module _ {W : Type 0} (py : Runtime) (simulation : Simulation W)
    (laws : SimulationLaws py simulation) where
  ensure_utc-now :
      (w : W) → (t : Datetime) × (ensure_utc py (some (text (simulation.now w).0)) ≡ utc t)
  unfolding ensure_utc
  ensure_utc-now w =
      let (clock, offset, t, read, converted) = laws.now_read w in
      (t, rw (replace_z-lacks (simulation.now w).0 (laws.now_lacks_z w), read, converted) refl)

  -- The publication of a round that begins in this world.
  abbrev sent : Text → W → Publication
  sent device_id w =
      let (event_id, w1) = simulation.choices ulid_chars 26 w in
      let (timestamp, w2) = simulation.now w1 in
      let (temperature, w3) = simulation.uniform 20 30 w2 in
      let (humidity, w4) = simulation.uniform 40 60 w3 in
      let (battery, w5) = simulation.randint 70 100 w4 in
      record {
        topic = topic_of device_id;
        payload = payload_of event_id device_id timestamp temperature humidity battery;
      }

  pub sent-IsAccepted :
      (device_id : Text) (w : W)
      → 1 ≤ length device_id
      → length device_id ≤ 128
      → is_plain device_id ≡ true
      → IsAccepted py device_id (sent device_id w)
  unfolding event_of payload_of lookup
  sent-IsAccepted device_id w lo hi plain =
      let (event_id, w1) = simulation.choices ulid_chars 26 w in
      let (n, drawn) = laws.choices_drawn _ _ 26 w in
      let (t, read) = ensure_utc-now w1 in
      (
        event_of py event_id device_id _ _ _ t,
        parse_event-payload_of py event_id device_id _ _ _ _ t
            (drawn-validate_ulid event_id n drawn) n lo hi (ground arith) read,
        refl,
        refl,
        device_of-topic_of device_id (ground arith),
      )

  publish_sleep-published :
      (topic : Text) (payload : Dict) (s : Run W)
      → ((publish simulation topic payload >> call simulation.sleep) s).1.published
        ≡ record { topic = topic; payload = payload } ∷ s.published
  unfolding publish call
  publish_sleep-published topic payload s =
      elim (Outcome-cases (simulation.publish topic payload s.world).0) [
        | inl (a, e) ↦ rw e refl
        | inr (exc, e) ↦ rw e refl
      ]

  pub send_event-sent :
      (device_id : Text) (s : Run W)
      → (send_event simulation device_id s).1.published ≡ sent device_id s.world ∷ s.published
  unfolding send_event generate_ulid draw
  send_event-sent device_id s = publish_sleep-published _ _ _

  -- The publications are all accepted, and there are `n` more of them if the call returned, and no
  -- more than that if it did not.
  record Sends (device_id : Text) (n : ℕ) (s : Run W) (out : Outcome (Unit {0}) × Run W)
      : Type 0 where
    accepted :
        All (IsAccepted py device_id) s.published → All (IsAccepted py device_id) out.1.published
    bounded : length out.1.published ≤ n + length s.published
    complete : out.0 ≡ ok tt → length out.1.published ≡ n + length s.published

  module _ (device_id : Text) (lo : 1 ≤ length device_id) (hi : length device_id ≤ 128)
      (plain : is_plain device_id ≡ true) where
    send_event-Sends : (s : Run W) → Sends device_id 1 s (send_event simulation device_id s)
    send_event-Sends s =
        let listed = send_event-sent device_id s in
        record {
          accepted = λ h. rw listed (sent-IsAccepted device_id s.world lo hi plain, h);
          bounded = rw listed (omega arith);
          complete = λ done. rw listed (omega arith);
        }

    call-Sends : (op : W → Outcome (Unit {0}) × W) (s : Run W) → Sends device_id 0 s (call op s)
    unfolding call
    call-Sends op s = record {
      accepted = λ h. h;
      bounded = omega arith;
      complete = λ done. omega arith;
    }

    continue-Sends :
        (n m total : ℕ) (next : Exec (Run W) (Unit {0})) (s : Run W)
        (out : Outcome (Unit {0}) × Run W)
        → total ≡ n + m
        → Sends device_id n s out
        → ((t : Run W) → Sends device_id m t (next t))
        → Sends device_id total s (continue (λ _. next) out)
    continue-Sends n m total next s (ok a, t) sum h k = record {
      accepted = λ all. (k t).accepted (h.accepted all);
      bounded = omega (arith, (k t).bounded, h.bounded);
      complete = λ done. omega (arith, (k t).complete done, h.complete refl);
    }
    continue-Sends n m total next s (raised e, t) sum h k = record {
      accepted = h.accepted;
      bounded = omega (arith, h.bounded);
      complete = λ done. absurd (cc);
    }

    send_events-Sends :
        (n : ℕ) (s : Run W) → Sends device_id n s (send_events simulation n device_id s)
    unfolding send_events
    send_events-Sends zero s = record {
      accepted = λ h. h;
      bounded = omega arith;
      complete = λ done. omega arith;
    }
    send_events-Sends (suc n) s =
        continue-Sends 1 n (suc n) (send_events simulation n device_id) s
          (send_event simulation device_id s) (omega arith) (send_event-Sends s)
          (send_events-Sends n)

    simulate_device-Sends :
        (s : Run W) → Sends device_id events_per_device s (simulate_device simulation device_id s)
    unfolding simulate_device
    simulate_device-Sends s =
        continue-Sends 0 3 3 _ s (call simulation.connect s) refl (call-Sends simulation.connect s)
          (λ t.
            continue-Sends 3 0 3 (call simulation.disconnect) t
              (send_events simulation events_per_device device_id t) refl
              (send_events-Sends events_per_device t) (call-Sends simulation.disconnect))

  -- What a simulated device publishes, the services accept, whatever the random numbers and
  -- however the broker answers: the model parses each payload, to an event of this device with the
  -- identifier that was drawn, and the topic gives back the device. A run that returns has
  -- published its three events, and no run publishes more.
  pub simulate_device-IsAccepted :
      (device_id : Text) (s : Run W)
      → 1 ≤ length device_id
      → length device_id ≤ 128
      → is_plain device_id ≡ true
      → s.published ≡ []
      → All (IsAccepted py device_id) (simulate_device simulation device_id s).1.published
        × (length (simulate_device simulation device_id s).1.published ≤ events_per_device)
        × ((simulate_device simulation device_id s).0 ≡ ok tt
            → length (simulate_device simulation device_id s).1.published ≡ events_per_device)
  simulate_device-IsAccepted device_id s lo hi plain fresh =
      let h = simulate_device-Sends device_id lo hi plain s in
      (
        h.accepted (rw fresh tt),
        omega (arith, h.bounded, ap length fresh),
        λ done. omega (arith, h.complete done, ap length fresh),
      )
