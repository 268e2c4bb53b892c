-- ===== src/Worker/Consumer/Running.antt =====
-- `_consume` of apps/worker/consumer.py with `EventProcessor.process` inside its tasks.
pub mod Accounts
use iotflow_distributed_syst.Base.{ℕ, ◌≡◌, List, [], ◌∷◌, Option, none, some, get_elem?}
use iotflow_distributed_syst.Exec.{Outcome, ok, raised}
use iotflow_distributed_syst.Worker.Services.{Environment, State, Call}
use iotflow_distributed_syst.Worker.Processor.{process}
use iotflow_distributed_syst.Worker.Consumer.{Delivery, Consumer, initial, start_task, end_task}

-- The loop and what its tasks share. `returned` lists the deliveries whose `process` has returned,
-- the latest first, each with the calls that this run of `process` made.
pub record Node (W : Type 0) : Type 0 where
  pub consumer : Consumer
  pub state : State W
  pub returned : List (Delivery × List Call)

abbrev pub traced :
    Delivery
    → Outcome (Unit {0})
    → List Call
    → List (Delivery × List Call)
    → List (Delivery × List Call)
traced d (ok _) calls returned = (d, calls) ∷ returned
traced d (raised exc) calls returned = returned

module _ {W : Type 0} where
  abbrev pub start_node : State W → Node W
  start_node s = record { consumer = initial; state = s; returned = [] }

  -- The end of the task at this position, from how its `process` went and how its commit would go.
  unfoldable pub settle :
      Delivery → ℕ → Outcome (Unit {0}) → Outcome (Unit {0}) × State W → Node W → Node W
  settle d i committing (r, s) n = record {
    consumer = end_task i r committing n.consumer;
    state = s;
    returned = traced d r s.calls n.returned;
  }

  -- A task begins with no call in its trace.
  abbrev pub untraced : State W → State W
  untraced s = record s { calls = [] }

module _ {W : Type 0} (env : Environment W) where
  run_task_of : Option Delivery → ℕ → Outcome (Unit {0}) → Node W → Node W
  unfolding settle
  run_task_of none i committing n = n
  run_task_of (some d) i committing n =
      settle d i committing
        (process env d.event (some d.partition) (some d.offset) (untraced n.state)) n

  -- `_task_wrapper` of the task at this position: `process` and the commit behind it, as one step.
  unfoldable pub run_task : ℕ → Outcome (Unit {0}) → Node W → Node W
  unfolding run_task_of
  run_task i committing n = run_task_of (get_elem? n.consumer.tasks i) i committing n

  -- The loop starts a task, or some task ends.
  pub data Step (n m : Node W) : Type 0 where
    starts :
        (x : Delivery) (c : Consumer)
        → start_task x n.consumer ≡ some c
        → m ≡ record n { consumer = c }
        → Step n m
    ends : (i : ℕ) (committing : Outcome (Unit {0})) → m ≡ run_task i committing n → Step n m

  pub data Reach (n : Node W) : Node W → Type 0 where
    here : Reach n n
    next : {m k : Node W} → Reach n m → Step m k → Reach n k
