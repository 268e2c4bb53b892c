-- ===== src/Shared/Pipeline.antt =====
-- libs/shared/pipeline.py: a chain of handlers around one context object.
pub mod Chain
use iotflow_distributed_syst.Base.{
  ℕ, zero, suc, ◌+◌, List, [], ◌∷◌, ◌++◌, Option, none, some, length, get_elem?, Text,
  if◌then◌else◌,
}
use iotflow_distributed_syst.Exec.{Exec, pure, gets, modify, ◌>>=◌, ◌>>◌, try_finally}
use iotflow_distributed_syst.Python.{is_empty_text}

-- A handler gets `next_call` and acts on `S`, which holds the context and all that is shared.
abbrev pub Handler : Type 0 → Type 0
Handler S = Exec S (Unit {0}) → Exec S (Unit {0})

-- The attribute `trace_id` of the context, and `uuid.uuid4()`.
pub record HasTraceId (S : Type 0) : Type 0 where
  pub trace_id : S → Text
  pub set_trace_id : Text → S → S
  pub uuid4 : Exec S Text

pub record Pipeline (S : Type 0) : Type 0 where
  pub handlers : List (Handler S)

module _ {S : Type 0} where
  abbrev pub new_pipeline : Pipeline S
  new_pipeline = record { handlers = [] }

  abbrev pub use_handler : Pipeline S → Handler S → Pipeline S
  use_handler p h = record { handlers = p.handlers ++ h ∷ [] }

  -- The body of `_dispatch` with `self._handlers[idx]` looked up, `none` where idx is not below the
  -- length. The timing in its `finally` block is kept nowhere.
  abbrev run_handler : Option (Handler S) → Exec S (Unit {0}) → Exec S (Unit {0})
  run_handler none next_call = pure tt
  run_handler (some handler) next_call = try_finally (handler next_call) (λ s. s)

  -- `_dispatch(idx)`. The number of calls that are left bounds the recursion: from index 0, as many
  -- as there are handlers are enough.
  unfoldable pub dispatch : List (Handler S) → ℕ → ℕ → Exec S (Unit {0})
  dispatch handlers zero idx = pure tt
  dispatch handlers (suc fuel) idx =
      run_handler (get_elem? handlers idx) (dispatch handlers fuel (idx + 1))

  -- The attribute is set where it is missing or empty.
  unfoldable pub ensure_trace_id : HasTraceId S → Exec S (Unit {0})
  ensure_trace_id traced = do
    current ← gets traced.trace_id
    (if is_empty_text current
        then (do new ← traced.uuid4; modify (traced.set_trace_id new))
        else pure tt)

  execute_handlers : HasTraceId S → List (Handler S) → Exec S (Unit {0})
  execute_handlers traced [] = pure tt
  execute_handlers traced (h ∷ hs) = do
    ensure_trace_id traced
    dispatch (h ∷ hs) (length (h ∷ hs)) 0

  -- `Pipeline.execute`
  unfoldable pub execute : HasTraceId S → Pipeline S → Exec S (Unit {0})
  unfolding dispatch ensure_trace_id execute_handlers
  execute traced p = execute_handlers traced p.handlers
