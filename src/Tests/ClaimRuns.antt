-- ===== src/Tests/ClaimRuns.antt =====
-- The theorems on the idempotency guard (apps/worker/idempotency.py) over a Redis of set keys.
use iotflow_distributed_syst.Base.{
  false, true, ◌≢◌, sym, ◌∙◌, ap, text_eq_refl, ℕ, ◌≡◌, refl, Bool, true, false, not, ◌&&◌, ◌||◌,
  List, [], ◌∷◌, Text, str, text_eq,
}
use iotflow_distributed_syst.Exec.{ok}
use iotflow_distributed_syst.Python.{Value, text}
use iotflow_distributed_syst.Shared.Models.{
  validate_ulid, all_match, matches_ulid_class, upper, upper_code,
}
use iotflow_distributed_syst.Worker.Services.{Environment, State}
use iotflow_distributed_syst.Worker.Idempotency.{is_new, release}
use iotflow_distributed_syst.Worker.Idempotency.Claims.{ClaimLaws, release_upper-refused}
use iotflow_distributed_syst.Tests.Samples.{runtime, worker_start}

-- A world says which keys are set.
abbrev set_key : Text → (Text → Bool) → Text → Bool
set_key k w j = text_eq j k || w j

abbrev run_commands : List (Text × ℕ) → (Text → Bool) → List Bool × (Text → Bool)
run_commands [] w = ([], w)
run_commands ((k, ttl) ∷ cs) w =
    (not (w k) ∷ (run_commands cs (set_key k w)).0, (run_commands cs (set_key k w)).1)

abbrev pub key_services : Environment (Text → Bool)
key_services = record {
  py = runtime;
  redis_set_nx = λ k ttl w. (ok (not (w k)), set_key k w);
  redis_pipeline = λ cs w. (ok (run_commands cs w).0, (run_commands cs w).1);
  redis_delete = λ k w. (ok tt, λ j. not (text_eq j k) && w j);
  pool_execute = λ statement w. (ok (str "INSERT 0 1"), w);
  send_and_wait = λ topic value key w. (ok tt, w);
  sleep = λ delay w. (ok tt, w);
  uniform = λ width w. (width, w);
  uuid4 = λ w. (str "id", w);
  now = λ w. (str "now", w);
}

abbrev pub key_laws : ClaimLaws key_services
key_laws = record {
  held = λ k w. w k;
  set_nx_answers = λ k ttl w. refl;
  set_nx_holds = λ j k ttl w. refl;
  delete_frees = λ j k w. refl;
  replies = run_commands;
  replies_end = λ w. refl;
  replies_next = λ k ttl cs w. refl;
  pipeline_runs = λ cs w. refl;
}

abbrev pub no_keys : State (Text → Bool)
no_keys = record { world = λ k. false; calls = []; pool = true; metrics = worker_start.metrics }

abbrev lower_id : Text
lower_id = str "01arz3ndektsv4rrffq69g5fav"

abbrev upper_id : Text
upper_id = str "01ARZ3NDEKTSV4RRFFQ69G5FAV"

false-true : false ≢ true
false-true h = absurd (cc)

lower_id-upper_id : lower_id ≢ upper_id
lower_id-upper_id same = false-true (ap (text_eq lower_id) (sym same) ∙ text_eq_refl lower_id)

release_upper-refused_example :
    let claimed = (is_new key_services (text lower_id) no_keys).1 in
    (is_new key_services (text lower_id) (release key_services (text upper_id) claimed).1).0
    ≡ ok false
unfolding validate_ulid all_match matches_ulid_class upper upper_code
release_upper-refused_example =
    release_upper-refused key_services key_laws lower_id upper_id no_keys refl lower_id-upper_id

-- The first identifier stands in the batch twice.
abbrev batch : List Value
batch = text (str "e1") ∷ text (str "e2") ∷ text (str "e1") ∷ []
