-- ===== src/Tests/Database.antt =====
-- A PostgreSQL for the tests: a world is the time and the tables.
use iotflow_distributed_syst.Base.{
  ℕ, ◌+◌, ◌≡◌, [], ◌∷◌, Option, none, some, Text, str, refl, true, ap,
}
use iotflow_distributed_syst.Exec.{Outcome, ok, raised}
use iotflow_distributed_syst.Worker.Services.{Environment, State, Statement}
use iotflow_distributed_syst.Worker.Db.Answered.{tag_of}
use iotflow_distributed_syst.Worker.Db.Tables.{Tables}
use iotflow_distributed_syst.Worker.Db.Tables.Statements.{Done, execute, execute_all}
use iotflow_distributed_syst.Worker.Db.Tables.Connected.{Connected}
use iotflow_distributed_syst.Worker.Db.Tables.Transactions.{Transactions, ComesFrom}
use iotflow_distributed_syst.Tests.Samples.{runtime, postgres_down, worker_start}

pub record Database : Type 0 where
  pub now : ℕ
  pub tables : Tables

abbrev pub empty_tables : Tables
empty_tables = record { devices = []; events = []; states = []; dlq_events = [] }

abbrev pub at_start : State Database
at_start = record {
  world = record { now = 0; tables = empty_tables };
  calls = [];
  pool = true;
  metrics = worker_start.metrics;
}

-- Each statement takes a microsecond.
abbrev answer_of : Database → Option Done → Outcome Text × Database
answer_of w none = (raised postgres_down, w)
answer_of w (some (conflict, tables)) =
    (ok (tag_of conflict), record { now = w.now + 1; tables = tables })

abbrev pub database_services : Environment Database
database_services = record {
  py = runtime;
  redis_set_nx = λ k ttl w. (ok true, w);
  redis_pipeline = λ cs w. (ok [], w);
  redis_delete = λ k w. (ok tt, w);
  pool_execute = λ statement w. answer_of w (execute w.now statement w.tables);
  send_and_wait = λ topic value key w. (ok tt, w);
  sleep = λ delay w. (ok tt, w);
  uniform = λ width w. (width, w);
  uuid4 = λ w. (str "id", w);
  now = λ w. (str "now", w);
}

abbrev pub database_laws : Connected database_services
database_laws = record {
  tables = λ w. w.tables;
  clock = λ w. w.now;
  executes = λ st w done e. rw e (refl, refl);
  claims_apart = λ k ttl w. refl;
  draws_apart = λ w. refl;
}

pub unchanged : (t : Tables) → ComesFrom t t
unfolding execute_all
unchanged t = ([], refl)

pub executed_once :
    (w : Database) (st : Statement) (o : Option Done)
    → execute w.now st w.tables ≡ o
    → ComesFrom w.tables (answer_of w o).1.tables
unfolding execute_all
executed_once w st none e = unchanged w.tables
executed_once w st (some done) e = (
  (w.now, st) ∷ [],
  ap (λ first. elim first as (λ x. Option Tables) [ none ↦ none | some d ↦ execute_all [] d.1 ]) e,
)

abbrev pub database_transactions : Transactions database_services
database_transactions = record {
  tables = λ w. w.tables;
  claims = λ k ttl w. unchanged w.tables;
  deletes = λ k w. unchanged w.tables;
  executes = λ st w. executed_once w st (execute w.now st w.tables) refl;
  sends = λ topic value k w. unchanged w.tables;
  sleeps = λ delay w. unchanged w.tables;
  draws_delay = λ width w. unchanged w.tables;
  draws_id = λ w. unchanged w.tables;
  draws_time = λ w. unchanged w.tables;
}
