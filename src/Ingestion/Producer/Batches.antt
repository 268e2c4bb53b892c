-- ===== src/Ingestion/Producer/Batches.antt =====
-- What a batch that `produce_batch` of apps/ingestion/kafka_producer.py returns from has sent.
use iotflow_distributed_syst.Base.{
  false, refl, if◌then◌else◌, ◌≡◌, List, [], ◌∷◌, true, arith, ◌∙◌, ap, Bool,
}
use iotflow_distributed_syst.Exec.{ok, Outcome, continue, recover, raised, Exec}
use iotflow_distributed_syst.Ingestion.Services.{Environment, State, Message, Call, perform}
use iotflow_distributed_syst.Ingestion.Producer.{
  require_started, send_all, produce_batch, count_kafka_error, not_started,
}

-- The calls that send these messages, each buffered, before the calls that were there.
abbrev pub sent : List Message → List Call → List Call
sent [] calls = calls
sent (message ∷ rest) calls = sent rest (Call.send message (ok tt) ∷ calls)

module _ {W : Type 0} (env : Environment W) where
  next-sent :
      (rest : List Message) (out : Outcome (Unit {0}) × State W)
      → (continue (λ _. send_all env rest) out).0 ≡ ok tt
      → ((t : State W)
          → (send_all env rest t).0 ≡ ok tt
          → (send_all env rest t).1.calls ≡ sent rest t.calls)
      → (out.0 ≡ ok tt) × ((continue (λ _. send_all env rest) out).1.calls ≡ sent rest out.1.calls)
  next-sent rest (ok x, t) h all = (cc, all t h)
  next-sent rest (raised exc, t) h all = absurd (cc)

  send_all-sent :
      (messages : List Message) (s : State W)
      → (send_all env messages s).0 ≡ ok tt
      → (send_all env messages s).1.calls ≡ sent messages s.calls
  unfolding send_all perform
  send_all-sent [] s h = refl
  send_all-sent (message ∷ rest) s h =
      let r =
        next-sent rest (perform (env.send message) (Call.send message) s) h (send_all-sent rest) in
      r.1 ∙ ap (λ o. sent rest (Call.send message o ∷ s.calls)) r.0

  flushed-sent :
      (out : Outcome (Unit {0}) × State W) (s' : State W)
      → recover (count_kafka_error env) (continue (λ _. perform env.flush Call.flush) out)
        ≡ (ok tt, s')
      → (out.0 ≡ ok tt) × (s'.calls ≡ Call.flush (ok tt) ∷ out.1.calls)
  unfolding perform count_kafka_error
  flushed-sent (ok _, t) s' h = ground arith
  flushed-sent (raised exc, t) s' h = ground arith

  after_started :
      (b : Bool) (m : Exec (State W) (Unit {0})) (s s' : State W)
      → continue (λ _. m) (if b then (ok tt, s) else (raised not_started, s)) ≡ (ok tt, s')
      → (b ≡ true) × (m s ≡ (ok tt, s'))
  after_started true m s s' h = (refl, h)
  after_started false m s s' h = absurd (cc)

  -- When `produce_batch` returns, the producer had been started, each message of the batch was sent
  -- once and in the order of the list, and after the last of them the producer was flushed once.
  pub produce_batch-sent :
      (message : Message) (rest : List Message) (s s' : State W)
      → produce_batch env (message ∷ rest) s ≡ (ok tt, s')
      → (s.started ≡ true) × (s'.calls ≡ Call.flush (ok tt) ∷ sent (message ∷ rest) s.calls)
  unfolding produce_batch require_started
  produce_batch-sent message rest s s' h =
      let r = after_started s.started _ s s' h in
      let f = flushed-sent (send_all env (message ∷ rest) s) s' r.1 in
      (r.0, f.1 ∙ ap (λ calls. Call.flush (ok tt) ∷ calls) (send_all-sent (message ∷ rest) s f.0))
