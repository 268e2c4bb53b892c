-- ===== src/Worker/Db.antt =====
-- apps/worker/db.py: the statements that the worker executes.
pub mod Answered
pub mod Tables
use iotflow_distributed_syst.Base.{
  ℕ, ◌+◌, ◌*◌, ◌-◌, Bool, true, false, ◌&&◌, List, [], ◌∷◌, Option, none, some, Text, str, leb, ltb,
  ◌==◌, if◌then◌else◌, ◌||◌,
}
use mathlib.Core.List.{reverse}
use iotflow_distributed_syst.Exec.{
  ErrorClass, Exception, Exec, ok, raised, pure, raise, ◌>>=◌, ◌>>◌,
}
use iotflow_distributed_syst.Python.{Value, Dict, Datetime, interpreter_error}
use iotflow_distributed_syst.Shared.Models.{IoTEvent}
use iotflow_distributed_syst.Worker.Services.{Environment, State, Statement, Call, perform}

abbrev not_initialized : Exception
not_initialized = record {
  class = ErrorClass.runtime_error;
  name = str "RuntimeError";
  message = str "DB pool not initialized — call init_pool() first";
}

abbrev is_space : ℕ → Bool
is_space c = (c == b' ') || (leb 9 c && leb c 13)

-- `result.split()`, the runs of characters between white space; `word` is the run that is being
-- read, backwards.
split_from : Text → Text → List Text
split_from [] [] = []
split_from (c ∷ word) [] = reverse (c ∷ word) ∷ []
split_from [] (x ∷ s) = split_from (if is_space x then [] else x ∷ []) s
split_from (c ∷ word) (x ∷ s) =
    let here = reverse (c ∷ word) ∷ split_from [] s in
    let on = split_from (x ∷ c ∷ word) s in if is_space x then here else on

abbrev digits_next : Bool → Option ℕ → Option ℕ
digits_next true rest = rest
digits_next false rest = none

-- `int(word)` of a word of digits, which is all that a command tag ends in; ValueError otherwise.
digits : ℕ → Text → Option ℕ
digits n [] = some n
digits n (c ∷ s) = digits_next (leb b'0' c && leb c b'9') (digits (n * 10 + (c - b'0')) s)

abbrev to_int : Text → Option ℕ
to_int [] = none
to_int (c ∷ s) = digits 0 (c ∷ s)

abbrev last_of : List Text → Option Text
last_of [] = none
last_of (w ∷ []) = some w
last_of (w ∷ v ∷ ws) = last_of (v ∷ ws)

module _ {W : Type 0} (env : Environment W) where
  -- `get_pool()`, of which the callers use nothing but that it is there.
  unfoldable pub get_pool : Exec (State W) (Unit {0})
  get_pool s = if s.pool then (ok tt, s) else (raised not_initialized, s)

  abbrev int_of : Option Text → Exec (State W) ℕ
  int_of none = raise (interpreter_error env.py ErrorClass.index_error (str "IndexError"))
  int_of (some word) = elim (to_int word) [
    | none ↦ raise (interpreter_error env.py ErrorClass.value_error (str "ValueError"))
    | some n ↦ pure n
  ]

  -- `int(result.split()[-1])`
  unfoldable pub rows_affected : Text → Exec (State W) ℕ
  unfolding split_from digits
  rows_affected result = int_of (last_of (split_from [] result))

  abbrev pub execute_statement : Statement → Exec (State W) Text
  execute_statement statement = perform (env.pool_execute statement) (Call.execute statement)

  unfoldable pub insert_event : IoTEvent → Exec (State W) Bool
  insert_event event = do
    get_pool
    result ← execute_statement (Statement.insert_event event)
    rows ← rows_affected result
    pure (ltb 0 rows)

  unfoldable pub upsert_device_state :
      Text → Text → Text → Datetime → Dict → Exec (State W) (Unit {0})
  upsert_device_state device_id event_id event_type last_seen_at last_payload = do
    get_pool
    execute_statement (Statement.insert_device device_id)
    execute_statement
        (Statement.upsert_device_state device_id event_id event_type last_seen_at last_payload)
    pure tt

  unfoldable pub record_dlq_event :
      Value → Value → Text → Dict → Text → ℕ → Exec (State W) (Unit {0})
  record_dlq_event event_id device_id original_topic raw_payload error_message retry_count = do
    get_pool
    execute_statement (
        Statement.insert_dlq_event event_id device_id original_topic raw_payload error_message
          retry_count)
    pure tt
