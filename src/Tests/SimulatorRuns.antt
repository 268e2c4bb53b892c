-- ===== src/Tests/SimulatorRuns.antt =====
-- scripts/simulate_iot.py at a concrete run.
use iotflow_distributed_syst.Base.{
  ◌≡◌, refl, ℕ, zero, suc, ◌+◌, ◌*◌, List, true, [], ◌∷◌, some, str, length, replicate, All, arith,
  Text,
}
use iotflow_distributed_syst.Exec.{ok}
use iotflow_distributed_syst.Python.{number}
use iotflow_distributed_syst.Simulator.{
  Simulation, events_per_device, call, send_event, generate_ulid, draw, publish,
}
use iotflow_distributed_syst.Simulator.Payload.{drawn_from}
use iotflow_distributed_syst.Simulator.Accepted.{SimulationLaws}
use iotflow_distributed_syst.Simulator.Fleet.{
  num_devices, unsent_of, all_finished, tasks, advance, advance_at, advance_all,
}
use iotflow_distributed_syst.Simulator.Publishes.{IsFromSensor, fleet-IsAccepted}
use iotflow_distributed_syst.Tests.Samples.{runtime}

-- Every element that is chosen is the first one of the population.
abbrev first_of : Text → ℕ
first_of [] = b'0'
first_of (c ∷ s) = c

abbrev simulation : Simulation ℕ
simulation = record {
  choices = λ chars k w. (replicate k (first_of chars), w);
  uniform = λ low high w. (number (str "25.5") true, w);
  randint = λ low high w. (number (str "80") true, w);
  now = λ w. (2000 ∷ [], w);
  connect = λ w. (ok tt, w);
  publish = λ topic payload w. (ok tt, w + 1);
  sleep = λ w. (ok tt, w);
  disconnect = λ w. (ok tt, w);
}

length-replicate : (k c : ℕ) → length (replicate k c) ≡ k
length-replicate zero c = refl
length-replicate (suc k) c = omega (arith, length-replicate k c)

drawn_from-replicate :
    (c : ℕ) (chars : Text) (k : ℕ) → drawn_from (c ∷ chars) (replicate k c) ≡ true
drawn_from-replicate c chars zero = refl
drawn_from-replicate c chars (suc k) = ground (arith, drawn_from-replicate c chars k)

simulation_laws : SimulationLaws runtime simulation
simulation_laws = record {
  choices_drawn = λ c chars k w. (length-replicate k c, drawn_from-replicate c chars k);
  now_lacks_z = λ w. refl;
  now_read = λ w. (1000, 0, record { clock = 1000; offset = some 0 }, refl, refl);
}

-- Device 3 is first, and device 0 has ended before device 1 begins.
abbrev order : List ℕ
order = 3 ∷ 0 ∷ 3 ∷ 0 ∷ 0 ∷ 0 ∷ 0 ∷ 1 ∷ 3 ∷ []

fleet-IsAccepted_example :
    let (devices, s) = advance_all simulation order (tasks, record { world = 0; published = [] }) in
    All (IsFromSensor runtime) s.published
    × (length s.published + unsent_of devices ≡ num_devices * events_per_device)
    × (all_finished devices ≡ true → length s.published ≡ num_devices * events_per_device)
fleet-IsAccepted_example = fleet-IsAccepted runtime simulation simulation_laws order 0

fleet_published :
    length (advance_all simulation order (tasks, record { world = 0; published = [] })).1.published
    ≡ 5
unfolding advance_all advance_at advance call send_event generate_ulid draw publish
fleet_published = refl
