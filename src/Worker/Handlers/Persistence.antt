-- ===== src/Worker/Handlers/Persistence.antt =====
-- `PersistenceHandler` of apps/worker/handlers.py: how often it inserts, and when it has inserted.
use iotflow_distributed_syst.Base.{ℕ, ◌+◌, ◌≤◌, ◌≡◌, true, false, Any, inl, ap, Text, arith}
use iotflow_distributed_syst.Exec.{Outcome, ok, is_cancelled, is_transient, on_state}
use iotflow_distributed_syst.Exec.Rules.{Returns, Returns-ok, Returns-continue}
use iotflow_distributed_syst.Shared.Models.{IoTEvent}
use iotflow_distributed_syst.Worker.Services.{Environment, State, perform, Call, Statement}
use iotflow_distributed_syst.Worker.Services.Trace.{IsInserted}
use iotflow_distributed_syst.Worker.Db.{insert_event, get_pool, rows_affected, execute_statement}
use iotflow_distributed_syst.Base.{ltb}
use iotflow_distributed_syst.Exec.{continue, pure}
use iotflow_distributed_syst.Worker.Retry.{with_retry}
use iotflow_distributed_syst.Worker.Retry.Attempts.{
  SleepOnlyCancelled, CountsRuns, inserts, sleeps, with_retry-Tally, with_retry-Returns,
}
use iotflow_distributed_syst.Worker.Handlers.{insert, insert_with_retry}

module _ {W : Type 0} (env : Environment W) (event : IoTEvent) where
  insert-CountsRuns : CountsRuns (insert env event)
  unfolding insert insert_event get_pool rows_affected perform
  insert-CountsRuns c s open_pool = ground arith

  rows_affected-state : (tag : Text) (s : State W) → (rows_affected env tag s).1 ≡ s
  unfolding rows_affected
  rows_affected-state tag s = ground arith

  counted-IsInserted :
      (tag : Text) (t : State W)
      → Any (IsInserted event) t.calls
      → Returns
          (λ _ u. Any (IsInserted event) u.calls)
          (continue (λ rows. pure (ltb 0 rows)) (rows_affected env tag t))
  counted-IsInserted tag t h =
      Returns-continue _ (λ rows. pure (ltb 0 rows)) (rows_affected env tag t)
        λ n counted. Returns-ok _ (ltb 0 n) _ (rw rows_affected-state h)

  insert_event-IsInserted :
      (s : State W) → Returns (λ _ t. Any (IsInserted event) t.calls) (insert_event env event s)
  unfolding insert_event perform
  insert_event-IsInserted s = Returns-continue _ _ (get_pool env s) λ _ there.
      Returns-continue _ _ (execute_statement env (Statement.insert_event event) _) λ tag answer.
        counted-IsInserted tag _
          (inl (tag, ap (Call.execute (Statement.insert_event event)) answer))

  insert-IsInserted :
      (x : ℕ × State W) → Returns (λ _ y. Any (IsInserted event) y.1.calls) (insert env event x)
  unfolding insert
  insert-IsInserted x =
      Returns-continue _ _ (on_state (insert_event env event) (x.0 + 1, x.1))
        λ b done. Returns-ok _ tt _ ((insert_event-IsInserted x.1).post b done)

  -- With the pool there, the insert is tried at least once and at most five times: `retry_count`
  -- is the number of INSERT statements sent. Between two of them the task sleeps once, and it does
  -- not sleep after the last, unless it is cancelled. The sleep raises nothing but a cancellation. It
  -- ends in an error that `with_retry` would
  -- try again after the fifth attempt only.
  pub insert_with_retry_attempts :
      SleepOnlyCancelled env
      → (s s' : State W) (r : Outcome (Unit {0})) (retry_count : ℕ) → s.pool ≡ true
      → insert_with_retry env event s ≡ (ok (r, retry_count), s')
      → (1 ≤ retry_count)
        × (retry_count ≤ 5)
        × (inserts s' ≡ inserts s + retry_count)
        × (is_cancelled r ≡ false → sleeps s' + 1 ≡ sleeps s + retry_count)
        × (is_transient r ≡ true → retry_count ≡ 5)
  unfolding insert_with_retry
  insert_with_retry_attempts law s s' r retry_count open_pool h =
      let tally = with_retry-Tally env law (insert env event) insert-CountsRuns s open_pool in
      ground arith

  -- When the insert returns, the event is in the table.
  pub insert_with_retry-IsInserted :
      (s : State W)
      → (with_retry env (insert env event) (0, s)).0 ≡ ok tt
      → Any (IsInserted event) (insert_with_retry env event s).1.calls
  unfolding insert_with_retry
  insert_with_retry-IsInserted s h =
      (with_retry-Returns env (insert env event) _ insert-IsInserted (0, s)).post tt h
