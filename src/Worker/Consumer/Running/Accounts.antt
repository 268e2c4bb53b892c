-- ===== src/Worker/Consumer/Running/Accounts.antt =====
-- What a committed offset of apps/worker/consumer.py says of the event.
use iotflow_distributed_syst.Base.{
  Bool, if◌then◌else◌, ℕ, ◌+◌, ◌==◌, ◌≡◌, refl, ◌⊎◌, inl, inr, List, ◌∷◌, Option, none, some, Any,
  arith, get_elem?, true, false,
}
use iotflow_distributed_syst.Exec.{Outcome, ok, raised}
use iotflow_distributed_syst.Worker.Services.{Environment, State, Call}
use iotflow_distributed_syst.Worker.Processor.{process}
use iotflow_distributed_syst.Worker.Handlers.Settles.{Accounted}
use iotflow_distributed_syst.Worker.Processor.Accounts.{process-Accounted}
use iotflow_distributed_syst.Worker.Consumer.{
  Delivery, Consumer, start_task, finish_task, end_task, end_task_at,
}
use iotflow_distributed_syst.Worker.Consumer.Commits.{Justifies}
use iotflow_distributed_syst.Worker.Consumer.Running.{
  Node, start_node, traced, settle, untraced, run_task_of, run_task, Step, starts, ends, Reach,
  here, next,
}

module _ {W : Type 0} (env : Environment W) where
  -- The commit of this delivery gives the partition this offset, and its `process` accounted for the
  -- event in these calls.
  abbrev pub Covers : ℕ → ℕ → Delivery × List Call → Type 0
  Covers partition offset (d, calls) = Justifies partition offset d × Accounted env d.event calls

  abbrev pub IsCovered : Consumer → List (Delivery × List Call) → Type 0
  IsCovered c returned =
      (partition : ℕ)
      → (c.committed partition ≡ 0) ⊎ Any (Covers partition (c.committed partition)) returned

  -- One more delivery has returned.
  older :
      (p offset : ℕ) (x : Delivery × List Call) (returned : List (Delivery × List Call))
      → (offset ≡ 0) ⊎ Any (Covers p offset) returned
      → (offset ≡ 0) ⊎ Any (Covers p offset) (x ∷ returned)
  older p offset x returned (inl none_yet) = inl none_yet
  older p offset x returned (inr found) = inr (inr found)

  latest :
      (b : Bool) (p offset : ℕ) (d : Delivery) (calls : List Call)
      (returned : List (Delivery × List Call))
      → (b ≡ true → d.partition ≡ p)
      → Accounted env d.event calls
      → (offset ≡ 0) ⊎ Any (Covers p offset) returned
      → let committed = if b then d.offset + 1 else offset in
        (committed ≡ 0) ⊎ Any (Covers p committed) ((d, calls) ∷ returned)
  latest true p offset d calls returned same accounted h = inr (inl ((same refl, refl), accounted))
  latest false p offset d calls returned same accounted h = older p offset (d, calls) returned h

  start_task-committed :
      (x : Delivery) (c d : Consumer) (p : ℕ)
      → start_task x c ≡ some d
      → d.committed p ≡ c.committed p
  unfolding start_task
  start_task-committed x c d p e = ground arith

  finish_task-IsCovered :
      (d : Delivery) (r committing : Outcome (Unit {0})) (calls : List Call) (c : Consumer)
      (returned : List (Delivery × List Call))
      → (r ≡ ok tt → Accounted env d.event calls)
      → IsCovered c returned
      → IsCovered (finish_task d r committing c) (traced d r calls returned)
  unfolding finish_task
  finish_task-IsCovered d (ok _) (ok _) calls c returned accounted h p =
      latest (p == d.partition) p (c.committed p) d calls returned (λ same. ground arith)
        (accounted refl) (h p)
  finish_task-IsCovered d (ok _) (raised exc) calls c returned accounted h p =
      older p (c.committed p) (d, calls) returned (h p)
  finish_task-IsCovered d (raised exc) committing calls c returned accounted h p = h p

  settle-IsCovered :
      (d : Delivery) (i : ℕ) (committing : Outcome (Unit {0})) (out : Outcome (Unit {0}) × State W)
      (n : Node W)
      → get_elem? n.consumer.tasks i ≡ some d
      → (out.0 ≡ ok tt → Accounted env d.event out.1.calls)
      → IsCovered n.consumer n.returned
      → let m = settle d i committing out n in IsCovered m.consumer m.returned
  unfolding settle end_task end_task_at
  settle-IsCovered d i committing out n at accounted h =
      rw at (finish_task-IsCovered d out.0 committing out.1.calls _ n.returned accounted h)

  process-accounts :
      (d : Delivery) (s : State W)
      → let out = process env d.event (some d.partition) (some d.offset) (untraced s) in
        out.0 ≡ ok tt → Accounted env d.event out.1.calls
  process-accounts d s e =
      let out = process env d.event (some d.partition) (some d.offset) (untraced s) in
      process-Accounted env d.event (some d.partition) (some d.offset) s out.1 (λ i. (e i, out.1))

  run_task_of-IsCovered :
      (o : Option Delivery) (i : ℕ) (committing : Outcome (Unit {0})) (n : Node W)
      → get_elem? n.consumer.tasks i ≡ o
      → IsCovered n.consumer n.returned
      → let m = run_task_of env o i committing n in IsCovered m.consumer m.returned
  unfolding run_task_of
  run_task_of-IsCovered none i committing n at h = h
  run_task_of-IsCovered (some d) i committing n at h =
      settle-IsCovered d i committing
        (process env d.event (some d.partition) (some d.offset) (untraced n.state)) n at
        (process-accounts d n.state) h

  start_task-IsCovered :
      (x : Delivery) (c d : Consumer) (returned : List (Delivery × List Call))
      → start_task x c ≡ some d
      → IsCovered c returned
      → IsCovered d returned
  unfolding start_task
  start_task-IsCovered x c d returned e h p = rw (start_task-committed x c d p e) (h p)

  Step-IsCovered :
      {n m : Node W}
      → Step env n m
      → IsCovered n.consumer n.returned
      → IsCovered m.consumer m.returned
  unfolding run_task
  Step-IsCovered {n} (starts x c e same) h =
      rw same (start_task-IsCovered x n.consumer c n.returned e h)
  Step-IsCovered {n} (ends i committing e) h =
      rw e (run_task_of-IsCovered (get_elem? n.consumer.tasks i) i committing n refl h)

  -- However the tasks are interleaved and whatever the services answer, a committed offset stands for
  -- an event that is accounted for: each partition's offset is 0 still, or one more than that of a
  -- delivery of it whose `process` returned, having seen Redis refuse the event as a duplicate, or
  -- handed it to the DLQ topic, or parsed it and had its INSERT into `events` executed, whether that
  -- added a row or found one there.
  pub Reach-IsCovered :
      (s : State W) {n : Node W} → Reach env (start_node s) n → IsCovered n.consumer n.returned
  Reach-IsCovered s here = λ p. inl refl
  Reach-IsCovered s (next r step) = Step-IsCovered step (Reach-IsCovered s r)
