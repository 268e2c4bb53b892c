-- ===== src/Ingestion/Lifespan/Releases.antt =====
-- What `lifespan` of apps/ingestion/main.py releases, and what `readyz` says of the producer.
use iotflow_distributed_syst.Base.{
  ◌≡◌, refl, ◌∙◌, Bool, true, false, List, ◌∷◌, arith, inl, inr, ◌⊎◌,
}
use iotflow_distributed_syst.Exec.{
  ok, raised, Exception, Outcome, continue, Exec, ◌>>◌, is_cancelled,
}
use iotflow_distributed_syst.Exec.Rules.{Outcome-cases, finished-state}
use iotflow_distributed_syst.Ingestion.Services.{Environment, State, Call, perform}
use iotflow_distributed_syst.Ingestion.Producer.{start, stop, producer_options}
use iotflow_distributed_syst.Ingestion.Lifespan.{readyz, lifespan, ping, start_metrics_server}
use iotflow_distributed_syst.Ingestion.Config.{metrics_port}

-- Of the latest calls: the producer was stopped and then Redis closed, or the stop raised.
abbrev pub IsReleased : List Call → Type 0
IsReleased (Call.redis_closed r ∷ Call.producer_stopped (ok _) ∷ rest) = Unit
IsReleased (Call.producer_stopped (raised e) ∷ rest) = Unit
IsReleased _ = ⊥

module _ {W : Type 0} (env : Environment W) where
  abbrev release_all : Exec (State W) (Unit {0})
  release_all = do stop env; perform env.redis_close Call.redis_closed

  release_all-IsReleased : (s : State W) → s.started ≡ true → IsReleased (release_all s).1.calls
  unfolding stop perform
  release_all-IsReleased s there = elim (Outcome-cases (env.producer_stop s.world).0) [
    | inl (a, e) ↦ rw (there, e) tt
    | inr (exc, e) ↦ rw (there, e) tt
  ]

  -- The state in which `serve` begins.
  abbrev pub begun : State W → State W
  begun s = (start env (start_metrics_server env s).1).1

  gathered-IsReleased :
      (out : Outcome (Unit {0}) × State W)
      → out.1.started ≡ true
      → IsReleased (continue (λ _. release_all) out).1.calls
        ⊎ ((exc : Exception) × (out.0 ≡ raised exc) × ((continue (λ _. release_all) out).1 ≡ out.1))
  gathered-IsReleased (ok a, s) there = inl (release_all-IsReleased s there)
  gathered-IsReleased (raised exc, s) there = inr (exc, refl, refl)

  -- Once the metrics server was started and the producer has started, `lifespan` stops the producer
  -- and then closes Redis, however the service ends, and only if the stop raises is Redis left open;
  -- unless something is raised while the cancelled tasks are gathered, as a cancellation of `lifespan`
  -- itself: then it makes no further call, and leaves both as they are.
  pub lifespan-IsReleased :
      (serve gather : Exec (State W) (Unit {0})) (s : State W)
      → ((t : State W) → (serve t).1.started ≡ t.started)
      → ((t : State W) → (gather t).1.started ≡ t.started)
      → (env.start_http_server metrics_port s.world).0 ≡ ok tt
      → (env.producer_start producer_options (env.start_http_server metrics_port s.world).1).0
        ≡ ok tt
      → let gathered = gather (serve (begun s)).1 in
        IsReleased (lifespan env serve gather s).1.calls
        ⊎ ((exc : Exception) × (gathered.0 ≡ raised exc)
            × ((lifespan env serve gather s).1 ≡ gathered.1))
  unfolding lifespan start start_metrics_server perform
  lifespan-IsReleased serve gather s keeps gather_keeps metrics started =
      rw (metrics, started)
        (rw (finished-state {S = State W} {A = Unit {0}})
          (gathered-IsReleased (gather _) (gather_keeps _ ∙ keeps _)))

  start-started : (s : State W) → (start env s).1.started ≡ true
  unfolding start perform
  start-started s = refl

  stop-started : (s : State W) → (stop env s).1.started ≡ s.started
  unfolding stop perform
  stop-started s = ground arith

  readyz-started :
      (redis_client : Bool) (s : State W)
      → s.started ≡ true
      → ((w : W) → is_cancelled (env.redis_ping w).0 ≡ false)
      → (redis : Bool) × ((readyz env redis_client s).0
          ≡ ok (record { http_code = 200; kafka_ok = true; redis_ok = redis }))
  unfolding readyz ping perform
  readyz-started false s there reached = (true, ground arith)
  readyz-started true s there reached = elim (Outcome-cases (env.redis_ping s.world).0) [
    | inl (a, e) ↦ (true, ground arith)
    | inr (exc, e) ↦ (false, ground (arith, reached s.world))
  ]

  -- `readyz` tells whether `start` was called, not whether it succeeded: after a start that raised,
  -- and after a stop too, it answers 200 and finds Kafka ok, whatever Redis answers to the ping,
  -- unless that is cancelled.
  pub readyz_after_start :
      (redis_client : Bool) (s : State W)
      → ((w : W) → is_cancelled (env.redis_ping w).0 ≡ false)
      → let begun = (start env s).1 in
        let ended = (stop env begun).1 in
        ((redis : Bool) × ((readyz env redis_client begun).0
            ≡ ok (record { http_code = 200; kafka_ok = true; redis_ok = redis })))
        × ((redis : Bool) × ((readyz env redis_client ended).0
              ≡ ok (record { http_code = 200; kafka_ok = true; redis_ok = redis })))
  readyz_after_start redis_client s reached =
      let begun = (start env s).1 in
      let ended = (stop env begun).1 in
      (
        readyz-started redis_client begun (start-started s) reached,
        readyz-started redis_client ended (stop-started begun ∙ start-started s) reached,
      )
