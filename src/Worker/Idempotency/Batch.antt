-- ===== src/Worker/Idempotency/Batch.antt =====
-- `are_new_batch` of apps/worker/idempotency.py against `is_new`, called once for each identifier.
use iotflow_distributed_syst.Base.{
  ◌∙◌, ap, ◌≡◌, refl, Bool, true, false, List, [], ◌∷◌, arith, Bool-cases, inl, inr,
}
use iotflow_distributed_syst.Exec.{
  recover, Exception, Outcome, ok, raised, continue, Exec, pure, ◌>>=◌,
}
use iotflow_distributed_syst.Python.{Value}
use iotflow_distributed_syst.Worker.Config.{idempotency_ttl_seconds}
use iotflow_distributed_syst.Worker.Services.{Environment, State, perform, count, Call}
use iotflow_distributed_syst.Worker.Idempotency.{
  duplicate_seen, key, is_new, are_new_batch, outcomes, commands,
}
use iotflow_distributed_syst.Worker.Idempotency.Claims.{ClaimLaws}

module _ {W : Type 0} (env : Environment W) where
  -- The guard asked for one identifier after another.
  unfoldable pub singles : List Value → Exec (State W) (List Bool)
  singles [] = pure []
  singles (event_id ∷ ids) = do first ← is_new env event_id; rest ← singles ids; pure (first ∷ rest)

  -- A run answers and counts as another does, and the other leaves this world.
  record Agrees (w : W) (out out' : Outcome (List Bool) × State W) : Type 0 where
    answers : out.0 ≡ out'.0
    metrics : out.1.metrics ≡ out'.1.metrics
    world : w ≡ out'.1.world

  abbrev cons : Bool → Outcome (List Bool) × State W → Outcome (List Bool) × State W
  cons b out = continue (λ rest. pure (b ∷ rest)) out

  cons-Agrees :
      (b : Bool) (w : W) (out out' : Outcome (List Bool) × State W)
      → Agrees w out out'
      → Agrees w (cons b out) (cons b out')
  cons-Agrees b w (ok xs, t) (ok ys, u) h = ground arith
  cons-Agrees b w (ok xs, t) (raised e, u) h = absurd (ground arith)
  cons-Agrees b w (raised e, t) (ok ys, u) h = absurd (ground arith)
  cons-Agrees b w (raised e, t) (raised e', u) h = h

  cons-recover :
      (handler : Exception → Exec (State W) (List Bool)) (b : Bool)
      (out : Outcome (List Bool) × State W)
      → recover handler out ≡ out
      → recover handler (cons b out) ≡ cons b out
  cons-recover handler b (ok xs, t) h = refl
  cons-recover handler b (raised e, t) h = h

  -- Judging the replies raises nothing.
  outcomes-recover :
      (handler : Exception → Exec (State W) (List Bool)) (ids : List Value) (rs : List Bool)
      (t : State W)
      → recover handler (outcomes env ids rs t) ≡ outcomes env ids rs t
  unfolding outcomes
  outcomes-recover handler [] rs t = refl
  outcomes-recover handler (event_id ∷ ids) [] t = refl
  outcomes-recover handler (event_id ∷ ids) (true ∷ rs) t =
      cons-recover handler true (outcomes env ids rs t) (outcomes-recover handler ids rs t)
  outcomes-recover handler (event_id ∷ ids) (false ∷ rs) t =
      cons-recover handler false (outcomes env ids rs (count duplicate_seen t))
        (outcomes-recover handler ids rs (count duplicate_seen t))

  outcomes-world :
      (ids : List Value) (rs : List Bool) (t : State W) → (outcomes env ids rs t).1.world ≡ t.world
  unfolding outcomes
  outcomes-world [] rs t = refl
  outcomes-world (event_id ∷ ids) [] t = refl
  outcomes-world (event_id ∷ ids) (true ∷ rs) t = ground (arith, outcomes-world ids rs t)
  outcomes-world (event_id ∷ ids) (false ∷ rs) t =
      ground (arith, outcomes-world ids rs (count duplicate_seen t))

  module _ (laws : ClaimLaws env) where
    -- The replies that the pipeline would give from the world of `s`, judged from the counters of
    -- `t`, are what the single calls answer from `s`.
    outcomes-singles :
        (ids : List Value) (s t : State W)
        → t.metrics ≡ s.metrics
        → let replies = laws.replies (commands env ids) s.world in
          Agrees replies.1 (outcomes env ids replies.0 t) (singles ids s)
    unfolding outcomes singles is_new perform
    outcomes-singles [] s t same =
        rw laws.replies_end (record { answers = refl; metrics = same; world = refl })
    outcomes-singles (event_id ∷ ids) s t same =
        let k = key env event_id in
        elim (Bool-cases (laws.held k s.world)) [
          | inl there ↦
              rw (laws.replies_next, laws.set_nx_answers k idempotency_ttl_seconds s.world, there)
                (cons-Agrees false _ _ _
                  (outcomes-singles ids _ (count duplicate_seen t) (ap duplicate_seen same)))
          | inr free ↦
              rw (laws.replies_next, laws.set_nx_answers k idempotency_ttl_seconds s.world, free)
                (cons-Agrees true _ _ _ (outcomes-singles ids _ t same))
        ]

    -- The state when the pipeline has answered.
    abbrev piped : List Value → State W → State W
    piped ids s = record s {
      world = (laws.replies (commands env ids) s.world).1;
      calls =
          Call.pipeline (commands env ids) (ok (laws.replies (commands env ids) s.world).0)
          ∷ s.calls;
    }

    -- A batch answers for each identifier what the single calls answer one after another, so that
    -- an identifier which occurs twice in it is new once; it counts as many duplicates, and leaves
    -- Redis in the same state.
    pub are_new_batch-eq-singles :
        (ids : List Value) (s : State W)
        → ((are_new_batch env ids s).0 ≡ (singles ids s).0)
          × ((are_new_batch env ids s).1.metrics ≡ (singles ids s).1.metrics)
          × ((are_new_batch env ids s).1.world ≡ (singles ids s).1.world)
    unfolding are_new_batch singles perform
    are_new_batch-eq-singles [] s = (refl, refl, refl)
    are_new_batch-eq-singles (event_id ∷ ids) s =
        let all = event_id ∷ ids in
        let r = outcomes-singles all s (piped all s) refl in
        rw
          (
            laws.pipeline_runs (commands env all) s.world,
            outcomes-recover _ all (laws.replies (commands env all) s.world).0 (piped all s),
          )
          (
            r.answers,
            r.metrics,
            outcomes-world all (laws.replies (commands env all) s.world).0 (piped all s) ∙ r.world,
          )
