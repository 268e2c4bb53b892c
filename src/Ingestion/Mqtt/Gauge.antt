-- ===== src/Ingestion/Mqtt/Gauge.antt =====
-- How `_mqtt_subscriber_loop` of apps/ingestion/main.py ends, and what MQTT_CONNECTED reads then.
use iotflow_distributed_syst.Base.{
  ◌≡◌, refl, true, false, Bool, List, [], ◌∷◌, ◌⊎◌, inl, inr, All, Any, arith, Bool-cases,
}
use iotflow_distributed_syst.Exec.{
  Exception, is_exception, is_mqtt_error, is_cancelled, Outcome, ok, raised, continue, recover,
  pure, Exec,
}
use iotflow_distributed_syst.Ingestion.Mqtt.{
  Session, Subscriber, connect, reconnect, give_up, on_error, go_on, run_session, subscriber_loop,
}

-- The block ended in an MqttError, and this was raised in the sleep after it.
abbrev pub WaitRaises : Exception → Session → Type 0
WaitRaises exc session =
    (err : Exception) × (session.ending ≡ raised err)
    × (is_mqtt_error err.class ≡ true)
    × (session.waited ≡ raised exc)

-- The block ended in this, and neither of the `except` blocks takes it.
abbrev pub IsUntaken : Exception → Session → Type 0
IsUntaken exc session =
    (session.ending ≡ raised exc)
    × (is_mqtt_error exc.class ≡ false)
    × (is_exception exc.class ≡ true)

-- The ways in which the loop over these sessions ends: it still runs, and no block was cancelled; the
-- task has returned, with the gauge at 0, and a block was cancelled; or the task has ended in an
-- exception, which a sleep raised, with the gauge at 0, or which neither of the blocks takes.
abbrev pub Ends : {W : Type 0} → List Session → Outcome Bool × Subscriber W → Type 0
Ends sessions out =
    ((out.0 ≡ ok true) × All (λ x. is_cancelled x.ending ≡ false) sessions)
    ⊎ (((out.0 ≡ ok false)
          × (out.1.connected ≡ false)
          × Any (λ x. is_cancelled x.ending ≡ true) sessions)
        ⊎ ((exc : Exception) × (out.0 ≡ raised exc)
            × (((out.1.connected ≡ false) × Any (WaitRaises exc) sessions)
                ⊎ Any (IsUntaken exc) sessions)))

mqtt_error-is_exception :
    (exc : Exception) → is_mqtt_error exc.class ≡ true → is_exception exc.class ≡ true
mqtt_error-is_exception exc h = ground arith

first_of :
    (P : Session → Type 0) (session : Session) (later : List Session)
    → Any P (session ∷ [])
    → Any P (session ∷ later)
first_of P session later (inl h) = inl h
first_of P session later (inr h) = absurd h

module _ {W : Type 0} where
  reconnect-Ends :
      (session : Session) (exc : Exception) (waited : Outcome (Unit {0})) (m : Subscriber W)
      → session.ending ≡ raised exc
      → session.waited ≡ waited
      → is_mqtt_error exc.class ≡ true
      → is_exception exc.class ≡ true
      → Ends (session ∷ []) (reconnect waited m)
  unfolding reconnect
  reconnect-Ends session exc (ok a) m ends waits mqtt other =
      inl (refl, (rw (ends, other) refl, tt))
  reconnect-Ends session exc (raised err) m ends waits mqtt other =
      inr (inr (err, refl, inl (refl, inl (exc, ends, mqtt, waits))))

  block-Ends :
      (session : Session) (ending : Outcome (Unit {0})) (m : Subscriber W)
      → session.ending ≡ ending
      → Ends
          (session ∷ [])
          (recover (on_error session.waited) (continue (λ _. pure true) (ending, m)))
  unfolding on_error give_up
  block-Ends session (ok a) m ends = inl (refl, (rw ends refl, tt))
  block-Ends session (raised exc) m ends = elim (Bool-cases (is_mqtt_error exc.class)) [
    | inl mqtt ↦ rw mqtt (
        reconnect-Ends session exc session.waited m ends refl mqtt
          (mqtt_error-is_exception exc mqtt))
    | inr plain ↦ elim (Bool-cases (is_exception exc.class)) [
      | inl other ↦ rw (plain, other) (inr (inr (exc, refl, inr (inl (ends, plain, other)))))
      | inr gone ↦ rw (plain, gone) (inr (inl (refl, refl, inl (rw (ends, gone) refl))))
    ]
  ]

  run_session-Ends :
      (session : Session) (m : Subscriber W) → Ends (session ∷ []) (run_session session m)
  unfolding run_session
  run_session-Ends session m = block-Ends session session.ending (connect session.made m) refl

  later-Ends :
      (session : Session) (later : List Session) (out : Outcome Bool × Subscriber W)
      → is_cancelled session.ending ≡ false
      → Ends later out
      → Ends (session ∷ later) out
  later-Ends session later out goes (inl (e, each)) = inl (e, (goes, each))
  later-Ends session later out goes (inr (inl (e, down, some_one))) =
      inr (inl (e, down, inr some_one))
  later-Ends session later out goes (inr (inr (exc, e, inl (down, some_one)))) =
      inr (inr (exc, e, inl (down, inr some_one)))
  later-Ends session later out goes (inr (inr (exc, e, inr some_one))) =
      inr (inr (exc, e, inr (inr some_one)))

  continue-Ends :
      (session : Session) (later : List Session) (next : Exec (Subscriber W) Bool)
      → ((m : Subscriber W) → Ends later (next m))
      → (out : Outcome Bool × Subscriber W) → Ends (session ∷ []) out
      → Ends (session ∷ later) (continue (go_on next) out)
  continue-Ends session later next rest (r, m) (inl (e, (goes, none_left))) =
      rw e (later-Ends session later (next m) goes (rest m))
  continue-Ends session later next rest (r, m) (inr (inl (e, down, some_one))) =
      rw e (inr (inl (refl, down, first_of _ session later some_one)))
  continue-Ends session later next rest (r, m) (inr (inr (exc, e, inl (down, some_one)))) =
      rw e (inr (inr (exc, refl, inl (down, first_of _ session later some_one))))
  continue-Ends session later next rest (r, m) (inr (inr (exc, e, inr some_one))) =
      rw e (inr (inr (exc, refl, inr (first_of _ session later some_one))))

  -- However the broker and the client behave, and whenever the task is cancelled: it still runs only
  -- if no block was cancelled; it returns only from a cancellation of a block, and MQTT_CONNECTED reads
  -- 0 then; otherwise it ends in an exception, either one that the sleep after an MqttError raised, as a
  -- cancellation in it, with the gauge at 0, or one that a block ended in and that is neither an
  -- MqttError nor a cancellation.
  pub subscriber_loop-Ends :
      (sessions : List Session) (m : Subscriber W) → Ends sessions (subscriber_loop sessions m)
  unfolding subscriber_loop
  subscriber_loop-Ends [] m = inl (refl, tt)
  subscriber_loop-Ends (session ∷ later) m =
      continue-Ends session later (subscriber_loop later) (subscriber_loop-Ends later)
        (run_session session m) (run_session-Ends session m)
