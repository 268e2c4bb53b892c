-- ===== src/Worker/Db/Tables/Transactions.antt =====
-- The tables as `EventProcessor.process` of apps/worker/processor.py leaves them, whatever its
-- services answer and whatever other workers write meanwhile.
use iotflow_distributed_syst.Base.{
  ℕ, ◌≤◌, ◌≡◌, List, [], ◌∷◌, ◌++◌, Option, none, some, Text, number_of, arith, refl, ap, ◌∙◌,
}
use iotflow_distributed_syst.Exec.{Outcome}
use iotflow_distributed_syst.Exec.Keeps.{Keeps, IsFrame}
use iotflow_distributed_syst.Python.{Dict}
use iotflow_distributed_syst.Worker.Services.{
  Environment, State, Statement, DlqEnvelope, Call, perform, draw, count,
}
use iotflow_distributed_syst.Worker.Frames.{Allows}
use iotflow_distributed_syst.Worker.Processor.{process, task_started}
use iotflow_distributed_syst.Worker.Processor.Frame.{run_pipeline-Keeps}
use iotflow_distributed_syst.Worker.Db.Tables.{Tables, StateRow}
use iotflow_distributed_syst.Worker.Db.Tables.Statements.{
  Done, has_key, execute, execute_all, state_of,
}
use iotflow_distributed_syst.Worker.Db.Tables.Constraints.{
  IsConsistent, execute_all-step, execute_all-end, execute_all-IsConsistent,
}
use iotflow_distributed_syst.Worker.Db.Tables.History.{
  summary, count_of, proposals, execute_all-state_of,
}

execute_all-cons :
    (now : ℕ) (st : Statement) (sts : List (ℕ × Statement)) (t u : Tables) (done : Done)
    → execute now st t ≡ some done
    → execute_all sts done.1 ≡ some u
    → execute_all ((now, st) ∷ sts) t ≡ some u
unfolding execute_all
execute_all-cons now st sts t u done e h =
    ap (λ first. elim first as (λ x. Option Tables) [ none ↦ none | some d ↦ execute_all sts d.1 ])
      e
    ∙ h

execute_all-append :
    (sts rest : List (ℕ × Statement)) (t u v : Tables)
    → execute_all sts t ≡ some u
    → execute_all rest u ≡ some v
    → execute_all (sts ++ rest) t ≡ some v
execute_all-append [] rest t u v e h = rw (execute_all-end t u e) h
execute_all-append ((now, st) ∷ sts) rest t u v e h =
    let (done, executed, following) = execute_all-step now st sts t u e in
    execute_all-cons now st (sts ++ rest) t v done executed
      (execute_all-append sts rest done.1 u v following h)

-- The second tables come from the first by statements of apps/worker/db.py, each executed as a
-- whole.
abbrev pub ComesFrom : Tables → Tables → Type 0
ComesFrom t u = (sts : List (ℕ × Statement)) × (execute_all sts t ≡ some u)

-- PostgreSQL as the worker's calls see it: while a call is awaited, it executes statements of this
-- worker and of others, each as a whole or, where it fails, not at all.
pub record Transactions {W : Type 0} (env : Environment W) : Type 0 where
  pub tables : W → Tables
  pub claims :
      (k : Text) (ttl : ℕ) (w : W) → ComesFrom (tables w) (tables (env.redis_set_nx k ttl w).1)
  pub deletes : (k : Text) (w : W) → ComesFrom (tables w) (tables (env.redis_delete k w).1)
  pub executes : (st : Statement) (w : W) → ComesFrom (tables w) (tables (env.pool_execute st w).1)
  pub sends :
      (topic : Text) (value : DlqEnvelope) (k : Text) (w : W)
      → ComesFrom (tables w) (tables (env.send_and_wait topic value k w).1)
  pub sleeps : (delay : ℕ) (w : W) → ComesFrom (tables w) (tables (env.sleep delay w).1)
  -- What is no await gives way to no other task; other workers go on.
  pub draws_delay : (width : ℕ) (w : W) → ComesFrom (tables w) (tables (env.uniform width w).1)
  pub draws_id : (w : W) → ComesFrom (tables w) (tables (env.uuid4 w).1)
  pub draws_time : (w : W) → ComesFrom (tables w) (tables (env.now w).1)

count_of-summary :
    (before : Option StateRow) (rows : List StateRow)
    → count_of before ≤ count_of (summary before rows)
count_of-summary before [] = omega arith
count_of-summary before (row ∷ rows) = omega arith

module _ {W : Type 0} (env : Environment W) (laws : Transactions env) where
  abbrev Between : State W → State W → Type 0
  Between s t = ComesFrom (laws.tables s.world) (laws.tables t.world)

  Between-IsFrame : IsFrame Between
  unfolding execute_all
  Between-IsFrame = record {
    same = λ s. ([], refl);
    step = λ s t u h g. (h.0 ++ g.0, execute_all-append h.0 g.0 _ _ _ h.1 g.1);
  }

  performs :
      {A : Type 0} (op : W → Outcome A × W) (call : Outcome A → Call)
      → ((w : W) → ComesFrom (laws.tables w) (laws.tables (op w).1))
      → Keeps Between (perform op call)
  unfolding perform
  performs op call h = record { at = λ s. h s.world }

  draws :
      {A : Type 0} (op : W → A × W)
      → ((w : W) → ComesFrom (laws.tables w) (laws.tables (op w).1))
      → Keeps Between (draw op)
  unfolding draw
  draws op h = record { at = λ s. h s.world }

  Between-Allows : Allows env Between
  Between-Allows = record {
    frame = Between-IsFrame;
    claims = λ k ttl. performs _ _ (laws.claims k ttl);
    deletes = λ k. performs _ _ (laws.deletes k);
    executes = λ st. performs _ _ (laws.executes st);
    sends = λ topic value k. performs _ _ (laws.sends topic value k);
    sleeps = λ delay. performs _ _ (laws.sleeps delay);
    draws_delay = λ width. draws _ (laws.draws_delay width);
    draws_id = draws _ laws.draws_id;
    draws_time = draws _ laws.draws_time;
    counts = λ f h s. Between-IsFrame.same s;
  }

  process-ComesFrom :
      (raw : Dict) (partition offset : Option ℕ) (s : State W)
      → ComesFrom (laws.tables s.world) (laws.tables (process env raw partition offset s).1.world)
  unfolding process
  process-ComesFrom raw partition offset s =
      (run_pipeline-Keeps env Between Between-Allows raw partition offset).at (count task_started s)

  -- Whatever the services answer, however `process` ends and whatever other workers write meanwhile,
  -- consistent tables are consistent afterwards: the primary keys are unique, each row of
  -- `device_state` refers to a row of `devices`, each event lies in a partition, and the counts are
  -- those of a BIGINT; every event that was stored is stored still, and no device's count has fallen.
  pub process-IsConsistent :
      (raw : Dict) (partition offset : Option ℕ) (s : State W)
      → IsConsistent (laws.tables s.world)
      → let before = laws.tables s.world in
        let after = laws.tables (process env raw partition offset s).1.world in
        IsConsistent after
        × ((id : Text) (at : ℕ)
            → number_of (has_key id at) before.events ≤ number_of (has_key id at) after.events)
        × ((d : Text) → count_of (state_of d before.states) ≤ count_of (state_of d after.states))
  process-IsConsistent raw partition offset s c =
      let (sts, run) = process-ComesFrom raw partition offset s in
      let (consistent, kept) = execute_all-IsConsistent sts _ _ run c in
      (
        consistent,
        kept,
        λ d. rw (execute_all-state_of sts _ _ d run) (count_of-summary _ (proposals d sts)),
      )
