-- ===== src/Worker/Lifecycle/Releases.antt =====
-- What apps/worker/main.py and `run_consumer_loop` release, and what they tell of a failure.
use iotflow_distributed_syst.Base.{ap, ◌≡◌, refl, ◌∙◌, inl, inr, true, false, List, ◌∷◌, arith}
use iotflow_distributed_syst.Exec.{
  Outcome, ok, raised, Exec, ◌>>◌, try_except, except_exception, pure, finally_call, is_cancelled,
}
use iotflow_distributed_syst.Exec.Rules.{
  finished-state, finished-result, Outcome-cases, continue-ok,
}
use iotflow_distributed_syst.Exec.Keeps.{Keeps, IsFrame, Keeps-finally_call, keeps_rules}
use iotflow_distributed_syst.Worker.Config.{metrics_port}
use iotflow_distributed_syst.Worker.Lifecycle.{
  pool_options, Clients, Process, Action, act, init_pool, close_pool, run_consumer_loop,
  wait_for_consumer, main, start_metrics_server,
}

-- Of the latest calls: the consumer was stopped and then the DLQ producer, or stopping the consumer
-- raised.
abbrev pub IsStopped : List Action → Type 0
IsStopped (Action.dlq_stopped r ∷ Action.consumer_stopped (ok _) ∷ rest) = Unit
IsStopped (Action.consumer_stopped (raised e) ∷ rest) = Unit
IsStopped _ = ⊥

-- The pool was closed and then Redis, or closing the pool raised.
abbrev pub IsClosed : List Action → Type 0
IsClosed (Action.redis_closed r ∷ Action.pool_closed (ok _) ∷ rest) = Unit
IsClosed (Action.pool_closed (raised e) ∷ rest) = Unit
IsClosed _ = ⊥

module _ {W : Type 0} (clients : Clients W) where
  abbrev stop_all : Exec (Process W) (Unit {0})
  stop_all = do
    act clients.consumer_stop Action.consumer_stopped
    act clients.dlq_stop Action.dlq_stopped

  stop_all-IsStopped : (p : Process W) → IsStopped (stop_all p).1.actions
  unfolding act
  stop_all-IsStopped p = elim (Outcome-cases (clients.consumer_stop p.world).0) [
    | inl (a, e) ↦ rw e tt
    | inr (exc, e) ↦ rw e tt
  ]

  -- Once the DLQ producer has started, `run_consumer_loop` stops the consumer and then the DLQ
  -- producer, however it ends: after a failed start of the consumer, a Kafka error, a cancellation.
  -- Only if stopping the consumer raises is the DLQ producer left running.
  pub run_consumer_loop-IsStopped :
      (p : Process W)
      → (clients.dlq_start p.world).0 ≡ ok tt
      → IsStopped (run_consumer_loop clients p).1.actions
  unfolding run_consumer_loop act
  run_consumer_loop-IsStopped p started =
      rw started (rw (finished-state {S = Process W} {A = Unit {0}}) (stop_all-IsStopped _))

  abbrev close_all : Exec (Process W) (Unit {0})
  close_all = do close_pool clients; act clients.redis_close Action.redis_closed

  close_all-IsClosed : (p : Process W) → p.pool ≡ true → IsClosed (close_all p).1.actions
  unfolding close_pool act
  close_all-IsClosed p there = elim (Outcome-cases (clients.pool_close p.world).0) [
    | inl (a, e) ↦ rw (there, e) tt
    | inr (exc, e) ↦ rw (there, e) tt
  ]

  close_all-ok :
      (p : Process W)
      → p.pool ≡ true
      → ((w : W) → (clients.pool_close w).0 ≡ ok tt)
      → ((w : W) → (clients.redis_close w).0 ≡ ok tt)
      → (close_all p).0 ≡ ok tt
  unfolding close_pool act
  close_all-ok p there closed redis_closed =
      ground (arith, closed p.world, redis_closed (clients.pool_close p.world).1)

  -- No function sets the pool to None.
  abbrev SamePool : Process W → Process W → Type 0
  SamePool p q = q.pool ≡ p.pool

  SamePool-IsFrame : IsFrame SamePool
  SamePool-IsFrame = record { same = λ p. refl; step = λ p q r h g. g ∙ h }

  act-SamePool :
      (op : W → Outcome (Unit {0}) × W) (action : Outcome (Unit {0}) → Action)
      → Keeps SamePool (act op action)
  unfolding act
  act-SamePool op action = record { at = λ p. refl }

  run_consumer_loop-SamePool : Keeps SamePool (run_consumer_loop clients)
  unfolding run_consumer_loop
  run_consumer_loop-SamePool =
      search (keeps_rules, Keeps-finally_call, SamePool-IsFrame, act-SamePool) depth 10

  ping : Exec (Process W) (Unit {0})
  ping = try_except (act clients.redis_ping Action.redis_pinged) (except_exception λ exc. pure tt)

  ping-ok :
      (p : Process W)
      → is_cancelled (clients.redis_ping p.world).0 ≡ false
      → ((ping p).0 ≡ ok tt) × ((ping p).1.pool ≡ p.pool)
  unfolding ping act
  ping-ok p h = ground arith

  init_pool-ok :
      (p : Process W)
      → (clients.create_pool pool_options p.world).0 ≡ ok tt
      → ((init_pool clients p).0 ≡ ok tt) × ((init_pool clients p).1.pool ≡ true)
  unfolding init_pool act
  init_pool-ok p h = ground arith

  -- `main` behind `init_pool` and the ping.
  abbrev watch : Exec (Process W) (Unit {0})
  watch = finally_call (wait_for_consumer clients) close_all

  -- The metrics server was started, and then the pool was made.
  abbrev HasStarted : Process W → Type 0
  HasStarted p =
      let metrics = clients.start_http_server metrics_port p.world in
      (metrics.0 ≡ ok tt) × ((clients.create_pool pool_options metrics.1).0 ≡ ok tt)

  -- The state after the metrics server was started.
  abbrev metered : Process W → Process W
  metered p = (start_metrics_server clients p).1

  metered-ok :
      (p : Process W)
      → (clients.start_http_server metrics_port p.world).0 ≡ ok tt
      → (start_metrics_server clients p).0 ≡ ok tt
  unfolding start_metrics_server act
  metered-ok p h = h

  metered-world :
      (p : Process W) → (metered p).world ≡ (clients.start_http_server metrics_port p.world).1
  unfolding start_metrics_server act
  metered-world p = refl

  main-watch :
      (p : Process W)
      → HasStarted p
      → ((w : W) → is_cancelled (clients.redis_ping w).0 ≡ false)
      → (q : Process W) × (q.pool ≡ true) × (main clients p ≡ watch q)
  unfolding main ping
  main-watch p started pinged =
      let m = metered p in
      let first =
        init_pool-ok m
          (ap (λ w. (clients.create_pool pool_options w).0) (metered-world p) ∙ started.1) in
      let q = (init_pool clients m).1 in
      let second = ping-ok q (pinged q.world) in
      (
        (ping q).1,
        second.1 ∙ first.1,
        continue-ok (λ _. init_pool clients >> (ping >> watch)) (start_metrics_server clients p) tt
              (metered-ok p started.0)
            ∙ continue-ok (λ _. ping >> watch) (init_pool clients m) tt first.0
            ∙ continue-ok (λ _. watch) (ping q) tt second.0,
      )

  -- Once the metrics server was started and the pool was made, `main` closes the pool and then
  -- Redis, however the consumer loop ends; only if closing the pool raises is Redis left open. A
  -- ping of Redis that is cancelled is not considered.
  pub main-IsClosed :
      (p : Process W)
      → HasStarted p
      → ((w : W) → is_cancelled (clients.redis_ping w).0 ≡ false)
      → IsClosed (main clients p).1.actions
  unfolding wait_for_consumer
  main-IsClosed p started pinged =
      let (q, there, same) = main-watch p started pinged in
      rw same (
        rw (finished-state {S = Process W} {A = Unit {0}}) (
          close_all-IsClosed (wait_for_consumer clients q).1
            (run_consumer_loop-SamePool.at q ∙ there)))

  -- `main` tells nobody of a failure of the consumer: once the metrics server was started and the
  -- pool was made, where the ping is not cancelled and the clients close without an error, it
  -- returns, whatever `run_consumer_loop` raised, a fatal KafkaError among them.
  pub main_returns :
      (p : Process W)
      → HasStarted p
      → ((w : W) → is_cancelled (clients.redis_ping w).0 ≡ false)
      → ((w : W) → (clients.pool_close w).0 ≡ ok tt)
      → ((w : W) → (clients.redis_close w).0 ≡ ok tt)
      → (main clients p).0 ≡ ok tt
  unfolding wait_for_consumer
  main_returns p started pinged closed redis_closed =
      let (q, there, same) = main-watch p started pinged in
      let t = (wait_for_consumer clients q).1 in
      rw same (
        finished-result (ok tt) (close_all t)
          (close_all-ok t (run_consumer_loop-SamePool.at q ∙ there) closed redis_closed))
