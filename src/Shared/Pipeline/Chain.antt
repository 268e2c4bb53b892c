-- ===== src/Shared/Pipeline/Chain.antt =====
-- `_dispatch` goes by an index; here it is shown to be the nesting of the handlers.
use iotflow_distributed_syst.Base.{
  ℕ, zero, suc, ◌+◌, ◌≤◌, ◌≡◌, refl, List, [], ◌∷◌, none, some, length, get_elem?, drop, arith, inl,
  inr, Option-cases,
}
use iotflow_distributed_syst.Exec.{Exec, pure, ◌>>◌}
use native.Mathlib.Numerals.{add-one}
use iotflow_distributed_syst.Shared.Pipeline.{
  Handler, HasTraceId, dispatch, ensure_trace_id, execute, execute_handlers,
}

module _ {S : Type 0} where
  -- Each handler is given the rest of the chain; behind the last one nothing happens.
  abbrev pub chain : List (Handler S) → Exec S (Unit {0})
  chain [] = pure tt
  chain (h ∷ hs) = h (chain hs)

  chain-drop_end : (hs : List (Handler S)) (i : ℕ) → length hs ≤ i → drop i hs ≡ []
  chain-drop_end [] zero h = refl
  chain-drop_end [] (suc i) h = refl
  chain-drop_end (x ∷ hs) zero h = absurd (omega arith)
  chain-drop_end (x ∷ hs) (suc i) h = chain-drop_end hs i (omega arith)

  drop-get_elem?-none : (hs : List (Handler S)) (i : ℕ) → get_elem? hs i ≡ none → drop i hs ≡ []
  drop-get_elem?-none [] zero e = refl
  drop-get_elem?-none [] (suc i) e = refl
  drop-get_elem?-none (h ∷ hs) zero e = cc
  drop-get_elem?-none (h ∷ hs) (suc i) e = drop-get_elem?-none hs i e

  drop-get_elem?-some :
      (hs : List (Handler S)) (i : ℕ) {h : Handler S}
      → get_elem? hs i ≡ some h
      → drop i hs ≡ h ∷ drop (suc i) hs
  drop-get_elem?-some [] i e = cc
  drop-get_elem?-some (x ∷ []) zero e = cc
  drop-get_elem?-some (x ∷ y ∷ hs) zero e = cc
  drop-get_elem?-some (x ∷ hs) (suc i) e = drop-get_elem?-some hs i e

  pub dispatch-eq-chain :
      (hs : List (Handler S)) (fuel idx : ℕ)
      → length hs ≤ fuel + idx
      → dispatch hs fuel idx ≡ chain (drop idx hs)
  unfolding dispatch
  dispatch-eq-chain hs zero idx h = rw (chain-drop_end hs idx (omega arith)) refl
  dispatch-eq-chain hs (suc fuel) idx h = elim (Option-cases (get_elem? hs idx)) [
    | inl e ↦ rw (e, drop-get_elem?-none hs idx e) refl
    | inr (x, e) ↦
        rw
          (
            e,
            drop-get_elem?-some hs idx e,
            dispatch-eq-chain hs fuel (idx + 1) (omega arith),
            add-one,
          )
          refl
  ]

  -- Executing a pipeline with handlers gives the context a trace id if it has none, and then runs
  -- the handlers in the order of their `use` calls, each around the rest of the chain; every
  -- handler is run by the given bound. A pipeline with no handler does nothing.
  pub execute-eq-chain :
      (traced : HasTraceId S) (h : Handler S) (hs : List (Handler S))
      → (execute traced (record { handlers = h ∷ hs }) ≡ (ensure_trace_id traced >> chain (h ∷ hs)))
        × (execute traced (record { handlers = [] }) ≡ pure tt)
  unfolding execute execute_handlers
  execute-eq-chain traced h hs =
      (rw (dispatch-eq-chain (h ∷ hs) (length (h ∷ hs)) 0 (omega arith)) refl, refl)
