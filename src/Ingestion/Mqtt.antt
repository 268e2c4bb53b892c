-- ===== src/Ingestion/Mqtt.antt =====
-- apps/ingestion/main.py: `_mqtt_subscriber_loop`, over the sessions that the broker grants.
pub mod Backoff
pub mod Gauge
use iotflow_distributed_syst.Base.{
  ℕ, ◌*◌, min, Bool, true, false, List, [], ◌∷◌, Option, none, some, Text, str, if◌then◌else◌,
}
use iotflow_distributed_syst.Exec.{
  ErrorClass, Exception, is_exception, is_mqtt_error, Outcome, ok, raised, Exec, pure, raise,
  modify, ◌>>=◌, ◌>>◌, try_except,
}
use iotflow_distributed_syst.Ingestion.Config.{mqtt_reconnect_delay_min, mqtt_reconnect_delay_max}
use iotflow_distributed_syst.Ingestion.Handlers.{RawMessage, lift}
use iotflow_distributed_syst.Ingestion.Service.{Service, put_message}

-- What a round of `while True` meets: the messages that arrive, where the connection is made; how the
-- `async with` block ends, with the client's `__aexit__`, in whatever way the client and the event loop
-- end it; and how the sleep before the next connection ends, where it is reached. A cancellation that
-- `__aexit__` turns into an MqttError ends the block in that.
pub record Session : Type 0 where
  pub made : Option (List RawMessage)
  pub ending : Outcome (Unit {0})
  pub waited : Outcome (Unit {0})

-- The variable `delay` in milliseconds, the sleeps begun (the latest first), and the gauge
-- MQTT_CONNECTED.
pub record Subscriber (W : Type 0) : Type 0 where
  pub delay : ℕ
  pub slept : List ℕ
  pub connected : Bool
  pub service : Service W

module _ {W : Type 0} where
  -- `async for message in client.messages`
  unfoldable pub put_messages : List RawMessage → Service W → Service W
  put_messages [] s = s
  put_messages (msg ∷ rest) s = put_messages rest (put_message msg s)

  -- The block, as far as it got: once the connection is made, the delay is reset.
  unfoldable pub connect : Option (List RawMessage) → Subscriber W → Subscriber W
  connect none m = m
  connect (some messages) m = record m {
    delay = mqtt_reconnect_delay_min;
    connected = true;
    service = put_messages messages m.service;
  }

  abbrev pub set_down : Subscriber W → Subscriber W
  set_down m = record m { connected = false }

  abbrev pub begin_sleep : Subscriber W → Subscriber W
  begin_sleep m = record m { slept = m.delay ∷ m.slept }

  abbrev pub double_delay : Subscriber W → Subscriber W
  double_delay m = record m { delay = min (m.delay * 2) mqtt_reconnect_delay_max }

  -- `except aiomqtt.MqttError`; the answer says that the loop goes on. What the sleep raises is
  -- taken by no block.
  unfoldable pub reconnect : Outcome (Unit {0}) → Exec (Subscriber W) Bool
  reconnect waited = do
    modify set_down
    modify begin_sleep
    lift waited
    modify double_delay
    pure true

  -- `except asyncio.CancelledError`; the answer says that the task returns.
  unfoldable pub give_up : Exec (Subscriber W) Bool
  give_up = do modify set_down; pure false

  -- The two `except` blocks: CancelledError is the one class that is no Exception.
  unfoldable pub on_error : Outcome (Unit {0}) → Exception → Exec (Subscriber W) Bool
  unfolding reconnect give_up
  on_error waited exc =
      if is_mqtt_error exc.class
      then reconnect waited
      else if is_exception exc.class
      then raise exc
      else give_up

  unfoldable pub run_session : Session → Exec (Subscriber W) Bool
  unfolding connect on_error
  run_session session =
      try_except (do modify (connect session.made); lift session.ending; pure true)
        (on_error session.waited)

  abbrev pub go_on : Exec (Subscriber W) Bool → Bool → Exec (Subscriber W) Bool
  go_on rest true = rest
  go_on rest false = pure false

  -- The loop: `true` where it still runs when the sessions are used up, `false` where the task has
  -- returned.
  unfoldable pub subscriber_loop : List Session → Exec (Subscriber W) Bool
  unfolding run_session
  subscriber_loop [] = pure true
  subscriber_loop (session ∷ later) = do
    goes ← run_session session
    go_on (subscriber_loop later) goes

  -- The state of the task when it starts.
  abbrev pub start_subscriber : Service W → Subscriber W
  start_subscriber s = record {
    delay = mqtt_reconnect_delay_min;
    slept = [];
    connected = false;
    service = s;
  }

abbrev pub mqtt_failure : Text → Exception
mqtt_failure why = record { class = ErrorClass.mqtt_error; name = str "MqttError"; message = why }

-- The connection was refused.
abbrev pub refused : Text → Session
refused why = record { made = none; ending = raised (mqtt_failure why); waited = ok tt }

-- It was made, and after these messages it was lost.
abbrev pub lost : List RawMessage → Text → Session
lost messages why = record {
  made = some messages;
  ending = raised (mqtt_failure why);
  waited = ok tt;
}

-- It was made, and after these messages the iteration over them ended.
abbrev pub ended : List RawMessage → Session
ended messages = record { made = some messages; ending = ok tt; waited = ok tt }
