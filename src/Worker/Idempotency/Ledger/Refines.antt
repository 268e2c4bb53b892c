-- ===== src/Worker/Idempotency/Ledger/Refines.antt =====
-- The guard of apps/worker/idempotency.py implements the ledger, as long as Redis answers.
use iotflow_distributed_syst.Base.{
  ap, ◌∙◌, ◌≡◌, refl, ◌+◌, false, List, [], ◌∷◌, map, Text, fun_ext, arith, if◌then◌else◌, inl, inr,
}
use iotflow_distributed_syst.Worker.Services.{Environment, State, perform}
use iotflow_distributed_syst.Worker.Idempotency.{key, is_new, are_new_batch, release}
use iotflow_distributed_syst.Worker.Idempotency.Claims.{ClaimLaws, is_new-held, release-held}
use iotflow_distributed_syst.Worker.Idempotency.Batch.{singles, are_new_batch-eq-singles}
use iotflow_distributed_syst.Worker.Idempotency.Ledger.{
  Ledger, claim, free, claim_each, Request, serve, serve_all, promise, promise_all,
}
use iotflow_distributed_syst.Exec.{Outcome, is_cancelled, ok, raised, Exec, pure, continue}
use iotflow_distributed_syst.Exec.Rules.{continue-ok, Outcome-cases}
use iotflow_distributed_syst.Worker.Config.{idempotency_ttl_seconds}
use iotflow_distributed_syst.Python.{Value}

module _ {W : Type 0} (env : Environment W) (laws : ClaimLaws env) where
  -- What the ledger shows of Redis and of the counter.
  abbrev pub view : State W → Ledger
  view s = record { claimed = λ j. laws.held j s.world; refused = s.metrics.events_duplicate }

  -- A call returns this answer, and leaves a state that shows as this ledger.
  record Gives {A : Type 0} (promised : A × Ledger) (out : Outcome A × State W) : Type 0 where
    answers : out.0 ≡ ok promised.0
    follows : view out.1 ≡ promised.1

  is_new-duplicates :
      (v : Value) (s : State W)
      → (is_new env v s).1.metrics.events_duplicate ≡ (
          if laws.held (key env v) s.world
          then s.metrics.events_duplicate + 1
          else s.metrics.events_duplicate)
  unfolding is_new perform
  is_new-duplicates v s =
      ground (arith, laws.set_nx_answers (key env v) idempotency_ttl_seconds s.world)

  ledger_eq :
      (l m : Ledger) → ((j : Text) → l.claimed j ≡ m.claimed j) → l.refused ≡ m.refused → l ≡ m
  ledger_eq l m keys n i = record {
    claimed = fun_ext {f = l.claimed} {g = m.claimed} keys i;
    refused = n i;
  }

  is_new-Gives : (v : Value) (s : State W) → Gives (claim (key env v) (view s)) (is_new env v s)
  is_new-Gives v s =
      let (answer, keys) = is_new-held env laws v s in
      record { answers = answer; follows = ledger_eq _ _ keys (is_new-duplicates v s) }

  -- One answer and then the others.
  cons-Gives :
      {A : Type 0} (first : A) (promised : List A × Ledger) (out : Outcome (List A) × State W)
      → Gives promised out
      → Gives (first ∷ promised.0, promised.1) (continue (λ rest. pure (first ∷ rest)) out)
  cons-Gives first promised (ok xs, t) h = record { answers = cc; follows = h.follows }
  cons-Gives first promised (raised e, t) h = absurd (ground (arith, h.answers))

  continue-Gives :
      {A B : Type 0} (promised : A × Ledger) (g : Ledger → B × Ledger) (f : A → Exec (State W) B)
      (out : Outcome A × State W)
      → Gives promised out
      → ((t : State W) → Gives (g (view t)) (f promised.0 t))
      → Gives (g promised.1) (continue f out)
  continue-Gives promised g f out h next =
      let same = continue-ok f out promised.0 h.answers in
      record {
        answers = ap (λ x. x.0) same ∙ (next out.1).answers ∙ ap (λ l. ok (g l).0) h.follows;
        follows = ap (λ x. view x.1) same ∙ (next out.1).follows ∙ ap (λ l. (g l).1) h.follows;
      }

  singles-Gives :
      (vs : List Value) (s : State W)
      → Gives (claim_each (map (key env) vs) (view s)) (singles env vs s)
  unfolding singles
  singles-Gives [] s = record { answers = refl; follows = refl }
  singles-Gives (v ∷ vs) s =
      let k = key env v in
      continue-Gives (claim k (view s))
        (λ l.
          let (rest, last) = claim_each (map (key env) vs) l in ((claim k (view s)).0 ∷ rest, last))
        _ _ (is_new-Gives v s) (λ t. cons-Gives _ _ _ (singles-Gives vs t))

  are_new_batch-Gives :
      (vs : List Value) (s : State W)
      → Gives (claim_each (map (key env) vs) (view s)) (are_new_batch env vs s)
  are_new_batch-Gives vs s =
      let (answers, metrics, world) = are_new_batch-eq-singles env laws vs s in
      let h = singles-Gives vs s in
      record {
        answers = answers ∙ h.answers;
        follows =
            ledger_eq _ _ (λ j. ap (laws.held j) world) (ap (λ m. m.events_duplicate) metrics)
            ∙ h.follows;
      }

  module _ (deletes : (k : Text) (w : W) → is_cancelled (env.redis_delete k w).0 ≡ false) where
    release-returns :
        (v : Value) (s : State W)
        → ((release env v s).0 ≡ ok tt) × ((release env v s).1.metrics ≡ s.metrics)
    unfolding release perform
    release-returns v s = elim (Outcome-cases (env.redis_delete (key env v) s.world).0) [
      | inl (a, e) ↦ rw e (refl, refl)
      | inr (exc, e) ↦ ground (arith, deletes (key env v) s.world)
    ]

    release-Gives :
        (v : Value) (s : State W) → Gives (tt, free (key env v) (view s)) (release env v s)
    release-Gives v s =
        let (answer, same) = release-returns v s in
        record {
          answers = answer;
          follows = ledger_eq _ _ (release-held env laws v s) (ap (λ m. m.events_duplicate) same);
        }

    serve-Gives : (r : Request) (s : State W) → Gives (promise env r (view s)) (serve env r s)
    unfolding serve
    serve-Gives (Request.ask v) s =
        continue-Gives (claim (key env v) (view s)) (λ l. ((claim (key env v) (view s)).0 ∷ [], l))
          _ _ (is_new-Gives v s) (λ t. record { answers = refl; follows = refl })
    serve-Gives (Request.ask_batch vs) s = are_new_batch-Gives vs s
    serve-Gives (Request.give_back v) s =
        continue-Gives (tt, free (key env v) (view s)) (λ l. ([], l)) _ _ (release-Gives v s)
          (λ t. record { answers = refl; follows = refl })

    serve_all-Gives :
        (rs : List Request) (s : State W) → Gives (promise_all env rs (view s)) (serve_all env rs s)
    unfolding serve_all
    serve_all-Gives [] s = record { answers = refl; follows = refl }
    serve_all-Gives (r ∷ rs) s =
        continue-Gives (promise env r (view s))
          (λ l.
            let (rest, last) = promise_all env rs l in ((promise env r (view s)).0 ∷ rest, last))
          _ _ (serve-Gives r s) (λ t. cons-Gives _ _ _ (serve_all-Gives rs t))

    -- Whatever the worker asks of the guard, and in whatever order, claims, batches of claims and
    -- releases, it answers as the ledger of the claimed keys does, and then Redis holds the keys of
    -- the ledger and the counter of duplicates has its number of refusals: where Redis can be
    -- reached, no key expires and no DEL is cancelled.
    pub serve_all_refines :
        (rs : List Request) (s : State W)
        → ((serve_all env rs s).0 ≡ ok (promise_all env rs (view s)).0)
          × (view (serve_all env rs s).1 ≡ (promise_all env rs (view s)).1)
    serve_all_refines rs s = let h = serve_all-Gives rs s in (h.answers, h.follows)
