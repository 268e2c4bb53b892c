-- ===== src/Worker/Idempotency/Claims.antt =====
-- What the answers of the guard of apps/worker/idempotency.py say about Redis, and the claims that
-- it keeps there.
use iotflow_distributed_syst.Base.{
  sym, ◌∙◌, ℕ, ◌≡◌, ◌≢◌, refl, Bool, true, false, not, ◌&&◌, ◌||◌, List, [], ◌∷◌, ◌++◌, Text, str,
  text_eq, text_eq→eq, text_eq_refl, Any, arith, some,
}
use iotflow_distributed_syst.Exec.{ok}
use iotflow_distributed_syst.Python.{Value, text}
use iotflow_distributed_syst.Shared.Models.{validate_ulid}
use iotflow_distributed_syst.Worker.Config.{idempotency_ttl_seconds}
use iotflow_distributed_syst.Worker.Services.{Environment, State, perform}
use iotflow_distributed_syst.Worker.Services.Trace.{IsRefused}
use iotflow_distributed_syst.Worker.Idempotency.{key, is_new, release}

module _ {W : Type 0} (env : Environment W) where
  -- The guard answers False only if Redis said that the key was there.
  pub is_new-IsRefused :
      (event_id : Value) (s : State W)
      → (is_new env event_id s).0 ≡ ok false
      → Any (IsRefused (key env event_id)) (is_new env event_id s).1.calls
  unfolding is_new perform
  is_new-IsRefused event_id s h = ground arith

-- What Redis documents of SET NX, DEL and a pipeline, while it can be reached and no key expires:
-- SET NX sets a key that is not there, and says whether it did; DEL removes a key; and a pipeline
-- runs its commands in order, and gives their replies.
pub record ClaimLaws {W : Type 0} (env : Environment W) : Type 0 where
  pub held : Text → W → Bool
  pub set_nx_answers :
      (k : Text) (ttl : ℕ) (w : W) → (env.redis_set_nx k ttl w).0 ≡ ok (not (held k w))
  pub set_nx_holds :
      (j k : Text) (ttl : ℕ) (w : W)
      → held j (env.redis_set_nx k ttl w).1 ≡ (text_eq j k || held j w)
  pub delete_frees :
      (j k : Text) (w : W) → held j (env.redis_delete k w).1 ≡ (not (text_eq j k) && held j w)
  pub replies : List (Text × ℕ) → W → List Bool × W
  pub replies_end : (w : W) → replies [] w ≡ ([], w)
  pub replies_next :
      (k : Text) (ttl : ℕ) (cs : List (Text × ℕ)) (w : W)
      → replies ((k, ttl) ∷ cs) w ≡ (
        not (held k w) ∷ (replies cs (env.redis_set_nx k ttl w).1).0,
        (replies cs (env.redis_set_nx k ttl w).1).1,
      )
  pub pipeline_runs :
      (cs : List (Text × ℕ)) (w : W)
      → env.redis_pipeline cs w ≡ (ok (replies cs w).0, (replies cs w).1)

module _ {W : Type 0} (env : Environment W) (laws : ClaimLaws env) where
  pub is_new-held :
      (event_id : Value) (s : State W)
      → ((is_new env event_id s).0 ≡ ok (not (laws.held (key env event_id) s.world)))
        × ((j : Text)
            → laws.held j (is_new env event_id s).1.world
              ≡ (text_eq j (key env event_id) || laws.held j s.world))
  unfolding is_new perform
  is_new-held event_id s =
      let answer = laws.set_nx_answers (key env event_id) idempotency_ttl_seconds s.world in
      (
        ground (arith, answer),
        λ j.
            ground (
              arith,
              answer,
              laws.set_nx_holds j (key env event_id) idempotency_ttl_seconds s.world,
            ),
      )

  pub release-held :
      (event_id : Value) (s : State W) (j : Text)
      → laws.held j (release env event_id s).1.world
        ≡ (not (text_eq j (key env event_id)) && laws.held j s.world)
  unfolding release perform
  release-held event_id s j = ground (arith, laws.delete_frees j (key env event_id) s.world)

  -- Of two calls for one identifier the second answers False, whatever the first answered, and it
  -- answers True again after a release.
  pub is_new_exclusive :
      (event_id : Value) (s : State W)
      → let claimed = (is_new env event_id s).1 in
        ((is_new env event_id claimed).0 ≡ ok false)
        × ((is_new env event_id (release env event_id claimed).1).0 ≡ ok true)
  is_new_exclusive event_id s =
      let k = key env event_id in
      let claimed = (is_new env event_id s).1 in
      ground (
        arith,
        is_new-held event_id claimed,
        (is_new-held event_id s).1 k,
        is_new-held event_id (release env event_id claimed).1,
        release-held event_id claimed k,
        text_eq_refl k,
      )

  text_eq-append : (r s t : Text) → text_eq (r ++ s) (r ++ t) ≡ text_eq s t
  text_eq-append [] s t = refl
  text_eq-append (c ∷ r) s t = ground (arith, text_eq-append r s t)

  key-injective : (v u : Text) → text_eq (key env (text v)) (key env (text u)) ≡ true → v ≡ u
  unfolding key
  key-injective v u h = text_eq→eq v u (sym (text_eq-append (str "iotflow:idempotency:") v u) ∙ h)

  -- An identifier that the model changes, as one in lower case, is claimed as it came and released
  -- as the model made it. Then the claim stays: after the release the guard answers False for it, while
  -- Redis can be reached, the claim has not expired and no other client deletes it.
  pub release_upper-refused :
      (v u : Text) (s : State W)
      → validate_ulid v ≡ some u
      → v ≢ u
      → let claimed = (is_new env (text v) s).1 in
        (is_new env (text v) (release env (text u) claimed).1).0 ≡ ok false
  release_upper-refused v u s valid other =
      let k = key env (text v) in
      let claimed = (is_new env (text v) s).1 in
      ground (
        arith,
        (is_new-held (text v) s).1 k,
        release-held (text u) claimed k,
        is_new-held (text v) (release env (text u) claimed).1,
        text_eq_refl k,
        key-injective v u,
        other,
      )
