-- ===== src/Worker/Idempotency/Ledger.antt =====
-- What the guard of apps/worker/idempotency.py promises: a set of claimed keys, beside the number of
-- claims that it has refused. The requests are those that apps/worker makes of it.
pub mod Refines
use iotflow_distributed_syst.Base.{
  ℕ, ◌+◌, ◌≡◌, Bool, true, false, not, ◌&&◌, ◌||◌, List, [], ◌∷◌, map, Text, text_eq, if◌then◌else◌,
}
use iotflow_distributed_syst.Exec.{ok, Exec, pure, ◌>>=◌, ◌>>◌}
use iotflow_distributed_syst.Python.{Value}
use iotflow_distributed_syst.Worker.Services.{Environment, State}
use iotflow_distributed_syst.Worker.Idempotency.{key, is_new, are_new_batch, release}

pub record Ledger : Type 0 where
  pub claimed : Text → Bool
  pub refused : ℕ

abbrev pub with_key : Text → (Text → Bool) → Text → Bool
with_key k keys j = text_eq j k || keys j

abbrev pub without_key : Text → (Text → Bool) → Text → Bool
without_key k keys j = not (text_eq j k) && keys j

-- A claim succeeds if nobody has the key; the key is claimed after it in any case.
abbrev pub claim : Text → Ledger → Bool × Ledger
claim k l = (
  not (l.claimed k),
  record {
    claimed = with_key k l.claimed;
    refused = if l.claimed k then l.refused + 1 else l.refused;
  },
)

abbrev pub free : Text → Ledger → Ledger
free k l = record l { claimed = without_key k l.claimed }

abbrev pub claim_each : List Text → Ledger → List Bool × Ledger
claim_each [] l = ([], l)
claim_each (k ∷ ks) l =
    let (first, next) = claim k l in let (rest, last) = claim_each ks next in (first ∷ rest, last)

-- A call of the guard.
pub data Request : Type 0 where
  ask : Value → Request
  ask_batch : List Value → Request
  give_back : Value → Request

module _ {W : Type 0} (env : Environment W) where
  -- The guard's answers to a request.
  unfoldable pub serve : Request → Exec (State W) (List Bool)
  serve (Request.ask v) = do first ← is_new env v; pure (first ∷ [])
  serve (Request.ask_batch vs) = are_new_batch env vs
  serve (Request.give_back v) = do release env v; pure []

  unfoldable pub serve_all : List Request → Exec (State W) (List (List Bool))
  unfolding serve
  serve_all [] = pure []
  serve_all (r ∷ rs) = do first ← serve r; rest ← serve_all rs; pure (first ∷ rest)

  -- The answers that the ledger promises.
  abbrev pub promise : Request → Ledger → List Bool × Ledger
  promise (Request.ask v) l = claim_each (key env v ∷ []) l
  promise (Request.ask_batch vs) l = claim_each (map (key env) vs) l
  promise (Request.give_back v) l = ([], free (key env v) l)

  abbrev pub promise_all : List Request → Ledger → List (List Bool) × Ledger
  promise_all [] l = ([], l)
  promise_all (r ∷ rs) l =
      let (first, next) = promise r l in
      let (rest, last) = promise_all rs next in (first ∷ rest, last)
