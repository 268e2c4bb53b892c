-- ===== src/Worker/Consumer/Tasks.antt =====
-- How many events the loop of apps/worker/consumer.py has in flight.
use iotflow_distributed_syst.Base.{
  ℕ, zero, suc, ◌+◌, ◌≤◌, ◌≡◌, refl, List, [], ◌∷◌, Option, none, some, length, get_elem?,
  length-append, arith, ap,
}
use iotflow_distributed_syst.Exec.{Outcome, ok, raised}
use iotflow_distributed_syst.Worker.Config.{max_concurrent_tasks}
use iotflow_distributed_syst.Worker.Consumer.{
  Delivery, Consumer, initial, start_task, remove_at, finish_task, end_task, end_task_at,
}

-- The loop starts a task, or some task ends: the event loop chooses.
pub data Step (c d : Consumer) : Type 0 where
  starts : (x : Delivery) → start_task x c ≡ some d → Step c d
  ends :
      (i : ℕ) (processed committing : Outcome (Unit {0}))
      → d ≡ end_task i processed committing c
      → Step c d

pub data Reach (c : Consumer) : Consumer → Type 0 where
  here : Reach c c
  next : {d e : Consumer} → Reach c d → Step d e → Reach c e

-- Every permit that is out belongs to a running task.
abbrev pub IsBalanced : Consumer → Type 0
IsBalanced c = c.permits + length c.tasks ≡ max_concurrent_tasks

length-remove_at :
    (xs : List Delivery) (i : ℕ) (d : Delivery)
    → get_elem? xs i ≡ some d
    → suc (length (remove_at i xs)) ≡ length xs
length-remove_at [] i d h = cc
length-remove_at (x ∷ xs) zero d h = refl
length-remove_at (x ∷ xs) (suc i) d h = ap suc (length-remove_at xs i d h)

start_task-IsBalanced :
    (x : Delivery) (c d : Consumer) → start_task x c ≡ some d → IsBalanced c → IsBalanced d
unfolding start_task
start_task-IsBalanced x c d h balanced = ground (arith, length-append c.tasks (x ∷ []))

end_task_at-IsBalanced :
    (o : Option Delivery) (i : ℕ) (processed committing : Outcome (Unit {0})) (c : Consumer)
    → get_elem? c.tasks i ≡ o
    → IsBalanced c
    → IsBalanced (end_task_at o i processed committing c)
unfolding end_task_at finish_task
end_task_at-IsBalanced none i processed committing c h balanced = balanced
end_task_at-IsBalanced (some d) i (ok _) (ok _) c h balanced =
    omega (arith, length-remove_at c.tasks i d h)
end_task_at-IsBalanced (some d) i (ok _) (raised exc) c h balanced =
    omega (arith, length-remove_at c.tasks i d h)
end_task_at-IsBalanced (some d) i (raised exc) committing c h balanced =
    omega (arith, length-remove_at c.tasks i d h)

Step-IsBalanced : {c d : Consumer} → Step c d → IsBalanced c → IsBalanced d
unfolding end_task
Step-IsBalanced {c} {d} (starts x e) balanced = start_task-IsBalanced x c d e balanced
Step-IsBalanced {c} (ends i processed committing e) balanced =
    rw e (end_task_at-IsBalanced (get_elem? c.tasks i) i processed committing c refl balanced)

Reach-IsBalanced : {c : Consumer} → Reach initial c → IsBalanced c
Reach-IsBalanced here = refl
Reach-IsBalanced (next r step) = Step-IsBalanced step (Reach-IsBalanced r)

-- However the tasks are interleaved and however they end, at most 50 events are in flight, and the
-- semaphore's free permits are exactly the others: no ending of a task leaks one or frees two.
pub in_flight_bounded :
    (c : Consumer)
    → Reach initial c
    → (length c.tasks ≤ max_concurrent_tasks) × (c.permits + length c.tasks ≡ max_concurrent_tasks)
in_flight_bounded c r = omega (arith, Reach-IsBalanced r)
