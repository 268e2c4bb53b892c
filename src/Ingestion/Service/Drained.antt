-- ===== src/Ingestion/Service/Drained.antt =====
-- `_message_dispatcher` of apps/ingestion/main.py empties its queue, and never marks it done.
use mathlib.Core.Path.{subst}
use iotflow_distributed_syst.Base.{sym, ◌∙◌, ℕ, zero, suc, ◌≡◌, refl, List, [], ◌∷◌, length, arith}
use iotflow_distributed_syst.Ingestion.Services.{Environment}
use iotflow_distributed_syst.Ingestion.Handlers.{RawMessage}
use iotflow_distributed_syst.Ingestion.Service.{
  Service, Dispatcher, waiting, looping, cancelled, dispatch_from, dispatch_message,
}
use iotflow_distributed_syst.Ingestion.Service.Stalled.{process_mqtt_message-raises}

module _ {W : Type 0} (env : Environment W) where
  abbrev go_on :
      (Service W → Dispatcher × Service W) → Dispatcher × Service W → Dispatcher × Service W
  go_on loop (waiting, s) = (waiting, s)
  go_on loop (looping, s) = loop s
  go_on loop (cancelled, s) = (cancelled, s)

  -- `while True` of `_message_dispatcher` while no message arrives: at most so many rounds, until it
  -- waits for a message or is cancelled.
  pub run_dispatcher : ℕ → Service W → Dispatcher × Service W
  run_dispatcher zero s = (looping, s)
  run_dispatcher (suc rounds) s = go_on (run_dispatcher rounds) (dispatch_message env s)

  dispatch_from-next :
      (msg : RawMessage) (rest : List RawMessage) (s : Service W)
      → let out = dispatch_from env (msg ∷ rest) s in
        (out.0 ≡ looping)
        × (out.1.queue ≡ rest)
        × (out.1.unfinished_tasks ≡ s.unfinished_tasks)
        × (out.1.state.calls ≡ s.state.calls)
  unfolding dispatch_from
  dispatch_from-next msg rest s = ground (arith, process_mqtt_message-raises env msg s.state)

  abbrev Drains : Service W → Dispatcher × Service W → Type 0
  Drains s out =
      (out.0 ≡ waiting)
      × (out.1.queue ≡ [])
      × (out.1.unfinished_tasks ≡ s.unfinished_tasks)
      × (out.1.state.calls ≡ s.state.calls)

  go_on-looping :
      (loop : Service W → Dispatcher × Service W) (out : Dispatcher × Service W)
      → out.0 ≡ looping
      → go_on loop out ≡ loop out.1
  go_on-looping loop (waiting, s) e = absurd (cc)
  go_on-looping loop (looping, s) e = refl
  go_on-looping loop (cancelled, s) e = absurd (cc)

  run_dispatcher-Drains :
      (queue : List RawMessage) (s : Service W)
      → s.queue ≡ queue
      → Drains s (run_dispatcher (suc (length queue)) s)
  unfolding run_dispatcher dispatch_message dispatch_from
  run_dispatcher-Drains [] s e =
      subst (λ q. Drains s (go_on (run_dispatcher 0) (dispatch_from env q s))) (sym e)
        (refl, e, refl, refl)
  run_dispatcher-Drains (msg ∷ rest) s e =
      let out = dispatch_from env (msg ∷ rest) s in
      let first = dispatch_from-next msg rest s in
      let later = run_dispatcher-Drains rest out.1 first.1 in
      subst (λ q. Drains s (go_on (run_dispatcher (suc (length rest))) (dispatch_from env q s)))
        (sym e)
        (rw (go_on-looping (run_dispatcher (suc (length rest))) out first.0)
          (later.0, later.1, later.2 ∙ first.2, later.3 ∙ first.3))

  -- One round for each message and one more, and the dispatcher has emptied the queue and waits for
  -- the next message; but it has called no service, and all messages still count as unfinished, so
  -- that `join` on the queue would wait for ever.
  pub queue_drained :
      (s : Service W)
      → let out = run_dispatcher (suc (length s.queue)) s in
        (out.0 ≡ waiting)
        × (out.1.queue ≡ [])
        × (out.1.unfinished_tasks ≡ s.unfinished_tasks)
        × (out.1.state.calls ≡ s.state.calls)
  queue_drained s = run_dispatcher-Drains s.queue s refl
