-- ===== src/Worker/Consumer/Progress.antt =====
-- The loop of apps/worker/consumer.py does not get stuck.
use iotflow_distributed_syst.Base.{
  ◌-◌, ◌++◌, ℕ, zero, suc, ◌+◌, ◌<◌, ◌≡◌, refl, ◌⊎◌, inl, inr, List, [], ◌∷◌, some, length,
  get_elem?, arith, Bool-cases, ltb,
}
use iotflow_distributed_syst.Exec.{Outcome, ok, raised}
use iotflow_distributed_syst.Worker.Config.{max_concurrent_tasks}
use iotflow_distributed_syst.Worker.Consumer.{
  Delivery, Consumer, initial, start_task, remove_at, finish_task, end_task, end_task_at,
}
use iotflow_distributed_syst.Worker.Consumer.Tasks.{Reach, in_flight_bounded}

-- How a task ends: `process`, and the commit after it.
abbrev pub Ending : Type 0
Ending = Outcome (Unit {0}) × Outcome (Unit {0})

abbrev pub CanStart : Delivery → Consumer → Type 0
CanStart x c = (d : Consumer) × (start_task x c ≡ some d)

finish_task-permits :
    (d : Delivery) (p q : Outcome (Unit {0})) (c : Consumer)
    → ((finish_task d p q c).permits ≡ c.permits + 1) × ((finish_task d p q c).tasks ≡ c.tasks)
unfolding finish_task
finish_task-permits d (ok _) (ok _) c = (refl, refl)
finish_task-permits d (ok _) (raised e) c = (refl, refl)
finish_task-permits d (raised e) q c = (refl, refl)

get_elem?-lt :
    (xs : List Delivery) (i : ℕ) → i < length xs → (d : Delivery) × (get_elem? xs i ≡ some d)
get_elem?-lt [] i h = absurd (omega arith)
get_elem?-lt (x ∷ xs) zero h = (x, refl)
get_elem?-lt (x ∷ xs) (suc i) h = get_elem?-lt xs i (omega arith)

-- A task that ends gives its permit back.
end_task-permits :
    (i : ℕ) (p q : Outcome (Unit {0})) (c : Consumer)
    → i < length c.tasks
    → ((end_task i p q c).permits ≡ c.permits + 1)
      × ((end_task i p q c).tasks ≡ remove_at i c.tasks)
unfolding end_task end_task_at
end_task-permits i p q c h =
    let (d, e) = get_elem?-lt c.tasks i h in
    rw e (finish_task-permits d p q (record c { tasks = remove_at i c.tasks }))

CanStart-permits : (x : Delivery) (c : Consumer) → 0 < c.permits → CanStart x c
unfolding start_task
CanStart-permits x c h =
    (record c { permits = c.permits - 1; tasks = c.tasks ++ x ∷ [] }, ground arith)

-- In every reachable state the next message can be started at once, or all 50 permits are out; and
-- then the end of any one of the running tasks, however it ends, lets the message start.
pub start_or_wait :
    (x : Delivery) (c : Consumer)
    → Reach initial c
    → CanStart x c
      ⊎ ((length c.tasks ≡ max_concurrent_tasks)
          × ((i : ℕ) (ending : Ending)
              → i < length c.tasks
              → CanStart x (end_task i ending.0 ending.1 c)))
start_or_wait x c r = elim (Bool-cases (ltb 0 c.permits)) [
  | inl free ↦ inl (CanStart-permits x c (ground arith))
  | inr out ↦ inr (
    ground (arith, in_flight_bounded c r),
    λ i ending inside.
        CanStart-permits x _ (omega (arith, end_task-permits i ending.0 ending.1 c inside)),
  )
]
