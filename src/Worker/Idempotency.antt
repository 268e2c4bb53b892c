-- ===== src/Worker/Idempotency.antt =====
-- apps/worker/idempotency.py: the guard that claims an event identifier in Redis.
pub mod Claims
pub mod Batch
pub mod Ledger
use iotflow_distributed_syst.Base.{
  ℕ, ◌+◌, ◌++◌, Bool, true, false, List, [], ◌∷◌, map, replicate, length, Text, str, if◌then◌else◌,
}
use iotflow_distributed_syst.Exec.{Exec, pure, modify, ◌>>=◌, ◌>>◌, try_except, except_exception}
use iotflow_distributed_syst.Python.{Value, to_text}
use iotflow_distributed_syst.Worker.Config.{idempotency_ttl_seconds}
use iotflow_distributed_syst.Worker.Services.{Environment, State, Metrics, Call, perform, count}

abbrev pub duplicate_seen : Metrics → Metrics
duplicate_seen m = record m { events_duplicate = m.events_duplicate + 1 }

module _ {W : Type 0} (env : Environment W) where
  -- `_key`
  unfoldable pub key : Value → Text
  key event_id = str "iotflow:idempotency:" ++ to_text env.py event_id

  -- What becomes of one reply: None counts a duplicate.
  abbrev pub judge : Bool → Exec (State W) Bool
  judge true = pure true
  judge false = do modify (count duplicate_seen); pure false

  unfoldable pub is_new : Value → Exec (State W) Bool
  is_new event_id =
      try_except
        (do
          result ←
              perform (env.redis_set_nx (key event_id) idempotency_ttl_seconds)
                (Call.set_nx (key event_id))
          judge result)
        (except_exception λ exc. pure true)

  abbrev commands : List Value → List (Text × ℕ)
  commands [] = []
  commands (event_id ∷ ids) = (key event_id, idempotency_ttl_seconds) ∷ commands ids

  -- The loop over `zip(event_ids, results)`.
  outcomes : List Value → List Bool → Exec (State W) (List Bool)
  outcomes [] results = pure []
  outcomes (event_id ∷ ids) [] = pure []
  outcomes (event_id ∷ ids) (r ∷ rs) = do
    first ← judge r
    rest ← outcomes ids rs
    pure (first ∷ rest)

  unfoldable pub are_new_batch : List Value → Exec (State W) (List Bool)
  unfolding outcomes
  are_new_batch [] = pure []
  are_new_batch (event_id ∷ ids) =
      try_except
        (do
          results ←
              perform (env.redis_pipeline (commands (event_id ∷ ids)))
                (Call.pipeline (commands (event_id ∷ ids)))
          outcomes (event_id ∷ ids) results)
        (except_exception λ exc. pure (replicate (length (event_id ∷ ids)) true))

  unfoldable pub release : Value → Exec (State W) (Unit {0})
  release event_id =
      try_except (perform (env.redis_delete (key event_id)) (Call.delete (key event_id)))
        (except_exception λ exc. pure tt)
