-- ===== src/Lib.antt =====
-- IoTFlow: a model of the two Python services and of the library that they share, with the
-- theorems that say what they do with an event.
--
-- A device publishes JSON over MQTT. The ingestion service takes each message from a bounded queue
-- through a pipeline of handlers (logging, validation, rate limit, Kafka) to the topic of raw
-- events. The worker consumes that topic, runs up to 50 tasks at once, and takes each event through
-- its own pipeline (idempotency, validation, persistence, device state); what it cannot process it
-- sends to the dead-letter topic, and it commits the offset by hand when a task has ended.
--
-- - Base: names of the libraries passed on, tests on native numbers, lists, and texts as lists of
--   code points.
-- - Exec: Python calls that change shared objects and may raise, as functions from a state to an
--   outcome and a state, with `try`, `except` and `finally`; Exec/Rules, Exec/Keeps and
--   Exec/Runs have the rules for proofs: on results, on what a call leaves as it was, and on calls
--   whose whole answer is known.
-- - Python: the values of `json.loads`, `dict` with its order, and `datetime`; what CPython and
--   pydantic answer beside this is the record Runtime, a parameter.
-- - Shared/Pipeline: libs/shared/pipeline.py. `_dispatch` recurses on an index; the model gives it
--   as many calls as there are handlers, which is shown to reach the last one.
-- - Shared/Models: IoTEvent of libs/shared/models.py: `validate_ulid`, `ensure_utc`,
--   `validate_payload_not_empty` and the bounds of the fields are `parse_event`, and
--   `to_kafka_dict` keeps its name. Shared/Models/DlqEvent: DLQEvent. Shared/Models/Json: what
--   `model_dump(mode="json")` makes of the values of a dict.
-- - Ingestion/Config, Ingestion/Services: apps/ingestion/config.py and metrics.py, with the calls
--   of Redis and Kafka as the record Environment, a parameter.
-- - Ingestion/RateLimiter: the Lua script of apps/ingestion/rate_limiter.py and `is_allowed`;
--   RateLimiter/Window has Redis while no counter expires, RateLimiter/FixedWindow with counters that
--   expire, and the limiter that they add up to.
-- - Ingestion/Producer: `start`, `stop`, `produce` and `produce_batch` of
--   apps/ingestion/kafka_producer.py.
-- - Ingestion/Handlers: the four handlers of apps/ingestion/handlers.py.
-- - Ingestion/Service: the queue, `_message_dispatcher` and `_process_mqtt_message` of
--   apps/ingestion/main.py; the arrivals and the rounds of the dispatcher are steps in any order.
--   Its loop is run on a number of rounds, for which one more than the messages is enough.
-- - Ingestion/Lifespan: `lifespan`, `healthz` and `readyz` of the same file; what happens
--   up to the end of the `yield`, and while the cancelled tasks are gathered, are parameters of
--   `lifespan`.
-- - Ingestion/Mqtt: `_mqtt_subscriber_loop` of the same file, over a list of what
--   its rounds meet: the messages, where the connection is made, and how the block and the sleep
--   after it end, in any exception.
-- - Worker/Config, Worker/Services: apps/worker/config.py and metrics.py, with the calls of Redis,
--   PostgreSQL, Kafka, the clock and `random` as the record Environment, a parameter. Each call and
--   its answer are noted in a trace, which the program does not read.
-- - Worker/Db, Worker/Idempotency, Worker/Retry, Worker/Dlq, Worker/Handlers, Worker/Processor:
--   the files of these names in apps/worker, where Retry and Dlq are the two halves of retry.py.
--   `with_retry` recurses on the number of attempts that are left, the five of the settings.
--   Worker/Idempotency/Ledger is what the guard promises, a set of claimed keys.
-- - Worker/Db/Tables: the tables of infra/db/migrations/001_initial.sql, as lists of rows, and what
--   the statements of apps/worker/db.py do to them at a time. Times of rows are microseconds from
--   the start of 2026. Tables/Transactions and Tables/Connected say what is asked of PostgreSQL,
--   with and without other clients; what a row may hold beyond the constraints of the schema, as
--   characters that PostgreSQL refuses, is a failure of the call.
-- - Worker/Frames: what none of these functions changes: each keeps a condition that every call of a
--   service keeps.
-- - Worker/Consumer: `_consume` of apps/worker/consumer.py; the start of a task and the end of any
--   running one are steps in any order. Worker/Consumer/Sampling: `_maybe_sample_lag` and the
--   counting of messages, which come before the semaphore. Worker/Consumer/Running: the same loop
--   with `process` inside its tasks, where a run of `process` and its commit are one step.
--   Worker/Consumer/Reading: the loop over the records of the topic with the deserializer of the
--   values, which is a parameter.
-- - Worker/Lifecycle: apps/worker/main.py, `run_consumer_loop` of consumer.py, `init_pool` and
--   `close_pool` of db.py, over the clients as the record Clients, a parameter.
-- - Simulator: scripts/simulate_iot.py, over `random`, the clock and the MQTT client as the record
--   Simulation, a parameter. Simulator/Fleet: its `main`, where the event loop lets the tasks of the
--   devices go on in any order; Simulator/Alone shows that a task which has the loop for itself is
--   `simulate_device`.
-- - EndToEnd: the two services composed, on one event.
-- - Tests: concrete services and events, and the theorems applied to them.
--
-- Times are natural numbers of milliseconds, and the settings have their defaults. Exceptions carry
-- the class that the `except` clauses tell apart, their name and their message. What other tasks do
-- during an `await` is part of the environment's answer.
--
-- Not modelled: log lines, histograms, the FastAPI application, the creation of tasks and signal
-- handling, the rebalance listener, which only logs, IoTEventPayload and IoTEventMetadata of
-- models.py, which nothing uses, the indexes and the trigger of the schema, and the deployment files.
pub mod Base
pub mod Exec
pub mod Python
pub mod Shared
pub mod Simulator
pub mod Worker
pub mod Ingestion
pub mod EndToEnd
pub mod Tests
