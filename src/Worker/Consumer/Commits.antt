-- ===== src/Worker/Consumer/Commits.antt =====
-- What the manual commits of apps/worker/consumer.py do to the events that are in flight.
use iotflow_distributed_syst.Base.{
  ℕ, zero, suc, ◌+◌, ◌<◌, ◌≡◌, refl, ◌⊎◌, inl, inr, List, [], ◌∷◌, Option, none, some, Any, arith,
  get_elem?, Bool, true, false, if◌then◌else◌,
}
use iotflow_distributed_syst.Exec.{Outcome, ok, raised}
use iotflow_distributed_syst.Worker.Consumer.{
  Delivery, Consumer, initial, start_task, remove_at, finish_task, end_task, end_task_at,
}
use iotflow_distributed_syst.Worker.Consumer.Tasks.{Step, starts, ends, Reach, here, next}

-- The delivery whose commit gives this partition this offset.
abbrev pub Justifies : ℕ → ℕ → Delivery → Type 0
Justifies partition offset d = (d.partition ≡ partition) × (offset ≡ d.offset + 1)

-- A partition has no commit yet, or its offset was committed for an event that was handled.
abbrev pub IsHandled : Consumer → Type 0
IsHandled c =
    (partition : ℕ)
    → (c.committed partition ≡ 0) ⊎ Any (Justifies partition (c.committed partition)) c.handled

finish_task-IsHandled :
    (d : Delivery) (processed committing : Outcome (Unit {0})) (c : Consumer)
    → IsHandled c
    → IsHandled (finish_task d processed committing c)
unfolding finish_task
finish_task-IsHandled d (ok _) (ok _) c h p = ground (arith, h p)
finish_task-IsHandled d (ok _) (raised exc) c h p = ground (arith, h p)
finish_task-IsHandled d (raised exc) committing c h p = h p

start_task-IsHandled :
    (x : Delivery) (c d : Consumer) → start_task x c ≡ some d → IsHandled c → IsHandled d
unfolding start_task
start_task-IsHandled x c d e h p = ground (arith, h p)

end_task_at-IsHandled :
    (o : Option Delivery) (i : ℕ) (processed committing : Outcome (Unit {0})) (c : Consumer)
    → IsHandled c
    → IsHandled (end_task_at o i processed committing c)
unfolding end_task_at
end_task_at-IsHandled none i processed committing c h = h
end_task_at-IsHandled (some d) i processed committing c h =
    finish_task-IsHandled d processed committing (record c { tasks = remove_at i c.tasks }) h

Step-IsHandled : {c d : Consumer} → Step c d → IsHandled c → IsHandled d
unfolding end_task
Step-IsHandled {c} {d} (starts x e) h = start_task-IsHandled x c d e h
Step-IsHandled {c} (ends i processed committing e) h =
    rw e (end_task_at-IsHandled (get_elem? c.tasks i) i processed committing c h)

-- However the tasks are interleaved, an offset is committed only for an event whose `process` has
-- returned: each partition's offset is 0 still, or one more than that of a handled delivery of it.
pub Reach-IsHandled : {c : Consumer} → Reach initial c → IsHandled c
Reach-IsHandled here = λ p. inl refl
Reach-IsHandled (next r step) = Step-IsHandled step (Reach-IsHandled r)

Any-get_elem? :
    (xs : List Delivery) (j : ℕ) (y : Delivery) → get_elem? xs j ≡ some y → Any (λ d. d ≡ y) xs
Any-get_elem? [] j y h = absurd (cc)
Any-get_elem? (d ∷ xs) zero y h = inl (cc)
Any-get_elem? (d ∷ xs) (suc j) y h = inr (Any-get_elem? xs j y h)

Any-remove_at :
    (xs : List Delivery) (i j : ℕ) (x y : Delivery)
    → get_elem? xs i ≡ some x
    → get_elem? xs j ≡ some y
    → y.offset < x.offset
    → Any (λ d. d ≡ y) (remove_at i xs)
Any-remove_at [] i j x y hi hj h = absurd (cc)
Any-remove_at (d ∷ xs) zero zero x y hi hj h = ground arith
Any-remove_at (d ∷ xs) zero (suc j) x y hi hj h = Any-get_elem? xs j y hj
Any-remove_at (d ∷ xs) (suc i) zero x y hi hj h = inl (cc)
Any-remove_at (d ∷ xs) (suc i) (suc j) x y hi hj h = inr (Any-remove_at xs i j x y hi hj h)

-- Whether `process` returned and so did the commit after it.
abbrev pub commits : Outcome (Unit {0}) → Outcome (Unit {0}) → Bool
commits (ok _) (ok _) = true
commits _ _ = false

finish_task-tasks :
    (d : Delivery) (p q : Outcome (Unit {0})) (c : Consumer) → (finish_task d p q c).tasks ≡ c.tasks
unfolding finish_task
finish_task-tasks d (ok _) (ok _) c = refl
finish_task-tasks d (ok _) (raised exc) c = refl
finish_task-tasks d (raised exc) q c = refl

finish_task-committed :
    (d : Delivery) (p q : Outcome (Unit {0})) (c : Consumer)
    → (finish_task d p q c).committed d.partition
      ≡ (if commits p q then d.offset + 1 else c.committed d.partition)
unfolding finish_task
finish_task-committed d (ok _) (ok _) c = ground arith
finish_task-committed d (ok _) (raised exc) c = refl
finish_task-committed d (raised exc) q c = refl

end_task-committed :
    (c : Consumer) (i : ℕ) (d : Delivery) (p q : Outcome (Unit {0}))
    → get_elem? c.tasks i ≡ some d
    → (end_task i p q c).committed d.partition
      ≡ (if commits p q then d.offset + 1 else c.committed d.partition)
unfolding end_task end_task_at
end_task-committed c i d p q at_i =
    rw at_i (finish_task-committed d p q (record c { tasks = remove_at i c.tasks }))

-- Of two deliveries of one partition in flight, let the later one end first, in any way. The earlier
-- one still runs; but if `process` and the commit of the later one have returned, the group's offset
-- is already the one behind the later: after a crash the earlier one is not delivered again. And in
-- whatever state the earlier one ends, when its `process` and its commit have returned, the offset is
-- the one behind the earlier, back before the later. A delivery that ends
-- otherwise leaves the offset as it was.
pub later_commit_passes_earlier :
    (c e : Consumer) (i j k : ℕ) (earlier later : Delivery) (p q p' q' : Outcome (Unit {0}))
    → get_elem? c.tasks i ≡ some later
    → get_elem? c.tasks j ≡ some earlier
    → earlier.partition ≡ later.partition
    → earlier.offset < later.offset
    → get_elem? e.tasks k ≡ some earlier
    → let d = end_task i p q c in
      Any (λ x. x ≡ earlier) d.tasks
      × (d.committed earlier.partition
          ≡ (if commits p q then later.offset + 1 else c.committed earlier.partition))
      × ((end_task k p' q' e).committed earlier.partition
          ≡ (if commits p' q' then earlier.offset + 1 else e.committed earlier.partition))
unfolding end_task end_task_at
later_commit_passes_earlier c e i j k earlier later p q p' q' at_i at_j same order at_k = (
  rw (at_i, finish_task-tasks later p q (record c { tasks = remove_at i c.tasks }))
      (Any-remove_at c.tasks i j later earlier at_i at_j order),
  rw same (end_task-committed c i later p q at_i),
  end_task-committed e k earlier p' q' at_k,
)
