-- ===== src/Ingestion/Mqtt/Backoff.antt =====
-- The reconnection delays of `_mqtt_subscriber_loop` in apps/ingestion/main.py.
use native.Mathlib.Nat.{pow-succ', mul-le-mul_right, mul_assoc, one-le-pow, mul-le-mul_left}
use iotflow_distributed_syst.Base.{
  replicate, suc, zero, ◌^◌, ℕ, ◌≤◌, ◌≡◌, ◌*◌, min, List, [], ◌∷◌, All, arith, ◌∙◌, ap, sym, refl,
  Option, none, some, Bool, true, false, Bool-cases, inl, inr, Text,
}
use iotflow_distributed_syst.Exec.{
  Outcome, ok, raised, Exec, pure, continue, recover, is_exception, is_mqtt_error,
}
use iotflow_distributed_syst.Ingestion.Config.{mqtt_reconnect_delay_min, mqtt_reconnect_delay_max}
use iotflow_distributed_syst.Ingestion.Handlers.{RawMessage}
use iotflow_distributed_syst.Ingestion.Service.{Service}
use iotflow_distributed_syst.Ingestion.Mqtt.{
  Session, refused, lost, ended, Subscriber, connect, reconnect, give_up, on_error, go_on,
  run_session, subscriber_loop, start_subscriber,
}

abbrev pub InRange : ℕ → Type 0
InRange d = (mqtt_reconnect_delay_min ≤ d) × (d ≤ mqtt_reconnect_delay_max)

record IsPaced {W : Type 0} (m : Subscriber W) : Type 0 where
  delay : InRange m.delay
  slept : All InRange m.slept

-- Capping a number before it is multiplied and again afterwards is capping it once.
capped_mul : (d cap k : ℕ) → 1 ≤ k → min (min d cap * k) cap ≡ min (d * k) cap
capped_mul d cap k h = ground (arith, mul-le-mul_left cap h, two k)
  where
    two : (k : ℕ) → cap ≤ d → cap * k ≤ d * k
    two k e = mul-le-mul_right k e

module _ {W : Type 0} where
  reconnect-IsPaced :
      (waited : Outcome (Unit {0})) (m : Subscriber W) → IsPaced m → IsPaced (reconnect waited m).1
  unfolding reconnect
  reconnect-IsPaced (ok a) m h = ground arith
  reconnect-IsPaced (raised exc) m h = ground arith

  connect-IsPaced :
      (made : Option (List RawMessage)) (m : Subscriber W) → IsPaced m → IsPaced (connect made m)
  unfolding connect
  connect-IsPaced none m h = h
  connect-IsPaced (some messages) m h = ground arith

  block-IsPaced :
      (waited ending : Outcome (Unit {0})) (m : Subscriber W)
      → IsPaced m
      → IsPaced (recover (on_error waited) (continue (λ _. pure true) (ending, m))).1
  unfolding on_error give_up
  block-IsPaced waited (ok a) m h = h
  block-IsPaced waited (raised exc) m h = elim (Bool-cases (is_mqtt_error exc.class)) [
    | inl mqtt ↦ rw mqtt (reconnect-IsPaced waited m h)
    | inr plain ↦ elim (Bool-cases (is_exception exc.class)) [
      | inl other ↦ rw (plain, other) h
      | inr gone ↦ rw (plain, gone) (record { delay = h.delay; slept = h.slept })
    ]
  ]

  continue-IsPaced :
      (next : Exec (Subscriber W) Bool) (out : Outcome Bool × Subscriber W)
      → ((m : Subscriber W) → IsPaced m → IsPaced (next m).1)
      → IsPaced out.1
      → IsPaced (continue (go_on next) out).1
  continue-IsPaced next (ok true, m) rest h = rest m h
  continue-IsPaced next (ok false, m) rest h = h
  continue-IsPaced next (raised exc, m) rest h = h

  subscriber_loop-IsPaced :
      (sessions : List Session) (m : Subscriber W)
      → IsPaced m
      → IsPaced (subscriber_loop sessions m).1
  unfolding subscriber_loop run_session
  subscriber_loop-IsPaced [] m h = h
  subscriber_loop-IsPaced (session ∷ later) m h =
      continue-IsPaced (subscriber_loop later) (run_session session m)
        (subscriber_loop-IsPaced later)
        (block-IsPaced session.waited session.ending (connect session.made m)
          (connect-IsPaced session.made m h))

  -- From the start of the subscriber, however the broker and the client behave and whatever blocks and
  -- sleeps raise, every sleep before a reconnection is begun for a time between the two delays of the
  -- settings, one second and thirty.
  pub subscriber_loop-InRange :
      (sessions : List Session) (s : Service W)
      → All InRange (subscriber_loop sessions (start_subscriber s)).1.slept
  subscriber_loop-InRange sessions s =
      (subscriber_loop-IsPaced sessions (start_subscriber s) (omega arith)).slept

  -- The state after a refused connection.
  abbrev after_refusal : Subscriber W → Subscriber W
  after_refusal m = record m {
    delay = min (m.delay * 2) mqtt_reconnect_delay_max;
    slept = m.delay ∷ m.slept;
    connected = false;
  }

  refusals-delay :
      (why : Text) (n : ℕ) (m : Subscriber W)
      → m.delay ≤ mqtt_reconnect_delay_max
      → (subscriber_loop (replicate n (refused why)) m).1.delay
        ≡ min (m.delay * 2 ^ n) mqtt_reconnect_delay_max
  unfolding subscriber_loop run_session connect on_error reconnect
  refusals-delay why zero m h = omega arith
  refusals-delay why (suc n) m h =
      refusals-delay why n (after_refusal m) (omega arith)
      ∙ capped_mul (m.delay * 2) mqtt_reconnect_delay_max (2 ^ n) (one-le-pow n 2 (omega arith))
      ∙ ap (λ k. min k mqtt_reconnect_delay_max)
          (mul_assoc m.delay 2 (2 ^ n) ∙ ap (λ k. m.delay * k) (sym (pow-succ' 2 n)))

  refused-slept :
      (why : Text) (m : Subscriber W)
      → (subscriber_loop (refused why ∷ []) m).1.slept ≡ m.delay ∷ m.slept
  unfolding subscriber_loop run_session connect on_error reconnect
  refused-slept why m = refl

  -- A session that connects sets the delay back. If it is lost with an MqttError, and each of the next
  -- `n + 1` connections is refused, the wait after the last of these is `2 ^ (n + 1)` seconds, but never
  -- more than thirty; and if it ends without an error, it is `2 ^ n` seconds, again at most thirty.
  pub wait_after_refusals :
      (m : Subscriber W) (messages : List RawMessage) (why : Text) (n : ℕ)
      → let after_loss = (subscriber_loop (lost messages why ∷ replicate n (refused why)) m).1 in
        let after_end = (subscriber_loop (ended messages ∷ replicate n (refused why)) m).1 in
        ((subscriber_loop (refused why ∷ []) after_loss).1.slept
          ≡ min (mqtt_reconnect_delay_min * 2 ^ suc n) mqtt_reconnect_delay_max ∷ after_loss.slept)
        × ((subscriber_loop (refused why ∷ []) after_end).1.slept
            ≡ min (mqtt_reconnect_delay_min * 2 ^ n) mqtt_reconnect_delay_max ∷ after_end.slept)
  unfolding subscriber_loop run_session connect on_error reconnect
  wait_after_refusals m messages why n =
      let up = connect (some messages) m in
      (
        refused-slept why (subscriber_loop (lost messages why ∷ replicate n (refused why)) m).1
            ∙ ap
                (λ d.
                  d ∷ (subscriber_loop (lost messages why ∷ replicate n (refused why)) m).1.slept)
                (refusals-delay why n (after_refusal up) (omega arith)
                  ∙ ap (λ k. min k mqtt_reconnect_delay_max) (omega (arith, pow-succ' 2 n))),
        refused-slept why (subscriber_loop (ended messages ∷ replicate n (refused why)) m).1
            ∙ ap (λ d. d ∷ (subscriber_loop (ended messages ∷ replicate n (refused why)) m).1.slept)
                (refusals-delay why n up (omega arith)),
      )
