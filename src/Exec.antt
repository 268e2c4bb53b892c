-- ===== src/Exec.antt =====
-- Python calls that mutate shared objects and may raise. What was written before a raise stays
-- written, so the state comes back beside the exception too. An `await` is a call: what other
-- tasks do meanwhile is the environment's answer to it.
pub mod Rules
pub mod Keeps
pub mod Runs
use iotflow_distributed_syst.Base.{Bool, true, false, not, ◌&&◌, if◌then◌else◌, Text}

-- The classes that the `except` clauses of the program tell apart. `cancelled_error` is
-- asyncio.CancelledError, a BaseException which `except Exception` does not catch.
pub data ErrorClass : Type 0 where
  value_error validation_error unicode_error : ErrorClass
  kafka_error postgres_error mqtt_error : ErrorClass
  name_error attribute_error key_error type_error index_error runtime_error : ErrorClass
  cancelled_error other_error : ErrorClass

-- `name` is `type(exc).__name__` and `message` is `str(exc)`.
pub record Exception : Type 0 where
  pub class : ErrorClass
  pub name : Text
  pub message : Text

abbrev pub is_exception : ErrorClass → Bool
is_exception cancelled_error = false
is_exception _ = true

-- pydantic's ValidationError and UnicodeEncodeError are subclasses of ValueError.
abbrev pub is_value_error : ErrorClass → Bool
is_value_error value_error = true
is_value_error validation_error = true
is_value_error unicode_error = true
is_value_error _ = false

abbrev pub is_validation_error : ErrorClass → Bool
is_validation_error validation_error = true
is_validation_error _ = false

abbrev pub is_kafka_error : ErrorClass → Bool
is_kafka_error kafka_error = true
is_kafka_error _ = false

abbrev pub is_mqtt_error : ErrorClass → Bool
is_mqtt_error mqtt_error = true
is_mqtt_error _ = false

abbrev pub is_postgres_error : ErrorClass → Bool
is_postgres_error postgres_error = true
is_postgres_error _ = false

pub data Outcome (A : Type 0) : Type 0 where
  ok : A → Outcome A
  raised : Exception → Outcome A

abbrev pub Exec : Type 0 → Type 0 → Type 0
Exec S A = S → Outcome A × S

module _ {S A : Type 0} where
  abbrev pub pure : A → Exec S A
  pure a s = (ok a, s)

  abbrev pub raise : Exception → Exec S A
  raise e s = (raised e, s)

  abbrev pub gets : (S → A) → Exec S A
  gets f s = (ok (f s), s)

abbrev pub modify : {S : Type 0} → (S → S) → Exec S (Unit {0})
modify f s = (ok tt, f s)

module _ {S A B : Type 0} where
  abbrev pub continue : (A → Exec S B) → Outcome A × S → Outcome B × S
  continue f (ok a, s) = f a s
  continue f (raised e, s) = (raised e, s)

infixl 5 ◌>>=◌ ◌>>◌
abbrev pub ◌>>=◌ : {S A B : Type 0} → Exec S A → (A → Exec S B) → Exec S B
◌>>=◌ m f s = continue f (m s)

abbrev pub ◌>>◌ : {S A B : Type 0} → Exec S A → Exec S B → Exec S B
m >> n = m >>= λ _. n

module _ {S A : Type 0} where
  abbrev pub recover : (Exception → Exec S A) → Outcome A × S → Outcome A × S
  recover handler (ok a, s) = (ok a, s)
  recover handler (raised e, s) = handler e s

  -- `try: m` with one `except` block, or with several that `handler` tells apart; a handler that
  -- takes no exception of this class raises it again.
  abbrev pub try_except : Exec S A → (Exception → Exec S A) → Exec S A
  try_except m handler s = recover handler (m s)

  -- `try: m`, `finally: last`, where `last` raises nothing.
  abbrev pub try_finally : Exec S A → (S → S) → Exec S A
  try_finally m last s = let (r, s') = m s in (r, last s')

  abbrev pub finished : Outcome A → Outcome (Unit {0}) × S → Outcome A × S
  finished r (ok _, s) = (r, s)
  finished r (raised e, s) = (raised e, s)

  -- `try: m`, `finally: last`, where `last` may raise: then its exception takes the place of the
  -- result.
  abbrev pub finally_call : Exec S A → Exec S (Unit {0}) → Exec S A
  finally_call m last s = let (r, s') = m s in finished r (last s')

  -- `except Exception as exc: body`.
  abbrev pub except_exception : (Exception → Exec S A) → Exception → Exec S A
  except_exception body e = if is_exception e.class then body e else raise e

module _ {C S A : Type 0} where
  -- A call that does not touch the handler's context.
  abbrev pub on_state : Exec S A → Exec (C × S) A
  on_state m (c, s) = let (r, s') = m s in (r, (c, s'))

-- Cancelled by the event loop, which no `except Exception` takes.
abbrev pub is_cancelled : {A : Type 0} → Outcome A → Bool
is_cancelled (ok a) = false
is_cancelled (raised e) = not (is_exception e.class)

-- Raised by an exception that `with_retry` tries again.
abbrev pub is_transient : {A : Type 0} → Outcome A → Bool
is_transient (ok a) = false
is_transient (raised e) = is_exception e.class && not (is_value_error e.class)
