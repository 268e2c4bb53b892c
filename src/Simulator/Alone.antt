-- ===== src/Simulator/Alone.antt =====
-- A task of scripts/simulate_iot.py that has the event loop for itself.
use iotflow_distributed_syst.Base.{ℕ, zero, suc, ◌≡◌, refl, ◌∙◌, ap, [], ◌∷◌, Text, replicate}
use iotflow_distributed_syst.Exec.{Outcome, ok, raised, Exec, continue, ◌>>◌, Exception}
use iotflow_distributed_syst.Simulator.{
  Simulation, Run, events_per_device, call, send_event, send_events, simulate_device,
}
use iotflow_distributed_syst.Simulator.Fleet.{
  Phase, created, sending, finished, failed, after, advance, advance_at, advance_all,
}

module _ {W : Type 0} (simulation : Simulation W) (device_id : Text) where
  abbrev alone : ℕ → Phase × Run W → Run W
  alone zero f = f.1
  alone (suc k) f = alone k (advance simulation device_id f.0 f.1)

  alone-failed : (k n : ℕ) (exc : Exception) (s : Run W) → alone k (failed n exc, s) ≡ s
  unfolding advance
  alone-failed zero n exc s = refl
  alone-failed (suc k) n exc s = alone-failed k n exc s

  after-state : (phase : Phase) (out : Outcome (Unit {0}) × Run W) → (after phase out).1 ≡ out.1
  after-state phase (ok a, s) = refl
  after-state phase (raised exc, s) = refl

  continue-continue :
      (f g : Exec (Run W) (Unit {0})) (out : Outcome (Unit {0}) × Run W)
      → continue (λ _. f >> g) out ≡ continue (λ _. g) (continue (λ _. f) out)
  continue-continue f g (ok a, s) = refl
  continue-continue f g (raised exc, s) = refl

  abbrev rest_of : ℕ → Exec (Run W) (Unit {0})
  rest_of n = send_events simulation n device_id >> call simulation.disconnect

  rounds :
      (n : ℕ) (out : Outcome (Unit {0}) × Run W)
      → alone (suc n) (after (sending n) out) ≡ (continue (λ _. rest_of n) out).1
  unfolding advance send_events
  rounds n (raised exc, s) = alone-failed (suc n) n exc s
  rounds zero (ok a, s) = after-state finished (call simulation.disconnect s)
  rounds (suc n) (ok a, s) =
      rounds n (send_event simulation device_id s)
      ∙ ap (λ out. out.1)
          (continue-continue (send_events simulation n device_id) (call simulation.disconnect)
            (send_event simulation device_id s))

  advance_all-alone :
      (k : ℕ) (phase : Phase) (s : Run W)
      → (advance_all simulation
          (replicate k 0)
          (record { device_id = device_id; phase = phase } ∷ [], s)).1
        ≡ alone k (phase, s)
  unfolding advance_all advance_at
  advance_all-alone zero phase s = refl
  advance_all-alone (suc k) phase s =
      let next = advance simulation device_id phase s in advance_all-alone k next.0 next.1

  -- The five parts of a task, one after another, are `simulate_device`.
  advance_all-simulate_device :
      (s : Run W)
      → (advance_all simulation
          (replicate 5 0)
          (record { device_id = device_id; phase = created } ∷ [], s)).1
        ≡ (simulate_device simulation device_id s).1
  unfolding simulate_device advance
  advance_all-simulate_device s =
      advance_all-alone 5 created s ∙ rounds events_per_device (call simulation.connect s)
