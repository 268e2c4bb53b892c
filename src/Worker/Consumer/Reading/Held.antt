-- ===== src/Worker/Consumer/Reading/Held.antt =====
-- What a record that cannot be deserialized does to the loop of apps/worker/consumer.py.
use mathlib.Core.Path.{subst}
use iotflow_distributed_syst.Base.{
  ℕ, zero, suc, ◌<◌, ◌≤◌, ◌≡◌, Bool, true, false, List, [], ◌∷◌, ◌++◌, Option, none, some, All,
  get_elem?, arith, refl, if◌then◌else◌, sym,
}
use iotflow_distributed_syst.Exec.{Outcome, ok, raised}
use iotflow_distributed_syst.Python.{Dict}
use iotflow_distributed_syst.Worker.Consumer.{
  Delivery, Consumer, start_task, end_task, end_task_at, finish_task, remove_at,
}
use iotflow_distributed_syst.Worker.Consumer.Reading.{
  Record, Reader, delivery_of, spawned, received, read_from, read, task_ends, Step, reads, ends,
  Reach, here, next,
}

-- What lies before the record in its partition.
abbrev pub Precedes : Record → ℕ → ℕ → Type 0
Precedes x partition offset = partition ≡ x.partition → offset < x.offset

abbrev pub IsEarlier : Record → Delivery → Type 0
IsEarlier x d = Precedes x d.partition d.offset

abbrev pub ComesBefore : Record → Record → Type 0
ComesBefore x y = Precedes x y.partition y.offset

module _ {A : Type 0} (P : A → Type 0) where
  All-append : (xs : List A) (x : A) → All P xs → P x → All P (xs ++ x ∷ [])
  All-append [] x h p = (p, tt)
  All-append (y ∷ ys) x h p = (h.0, All-append ys x h.1 p)

  All-remove_at : (i : ℕ) (xs : List A) → All P xs → All P (remove_at i xs)
  All-remove_at i [] h = h
  All-remove_at zero (y ∷ ys) h = h.1
  All-remove_at (suc i) (y ∷ ys) h = (h.0, All-remove_at i ys h.1)

  All-get_elem? : (i : ℕ) (xs : List A) (x : A) → All P xs → get_elem? xs i ≡ some x → P x
  All-get_elem? i [] x h e = absurd (cc)
  All-get_elem? zero (y ∷ ys) x h e = subst P (cc) h.0
  All-get_elem? (suc i) (y ∷ ys) x h e = All-get_elem? i ys x h.1 e

module _ (deserialize : List ℕ → Option Dict) (x : Record) (after : List Record)
    (undecodable : deserialize x.value ≡ none) where
  -- The loop has not come past the record: no task has a later one of its partition, the committed
  -- offset is not past it, and it is still to come.
  pub record IsHeld (r : Reader) : Type 0 where
    pub tasks : All (IsEarlier x) r.consumer.tasks
    pub committed : r.consumer.committed x.partition ≤ x.offset
    pub before : List Record
    pub earlier : All (ComesBefore x) before
    pub to_come : r.to_come ≡ before ++ x ∷ after

  start_task-IsHeld :
      (d : Delivery) (c e : Consumer)
      → start_task d c ≡ some e
      → IsEarlier x d
      → All (IsEarlier x) c.tasks
      → All (IsEarlier x) e.tasks × (e.committed x.partition ≡ c.committed x.partition)
  unfolding start_task
  start_task-IsHeld d c e started earlier h =
      let same = All-append (IsEarlier x) c.tasks d h earlier in ground (arith, started, same)

  spawned-IsHeld :
      (d : Delivery) (later before : List Record) (r : Reader) (o : Option Consumer)
      → start_task d r.consumer ≡ o
      → IsEarlier x d
      → All (ComesBefore x) before
      → later ≡ before ++ x ∷ after
      → IsHeld r
      → IsHeld (spawned deserialize later r o)
  spawned-IsHeld d later before r none started earlier all rest h = h
  spawned-IsHeld d later before r (some e) started earlier all rest h =
      let (tasks, same) = start_task-IsHeld d r.consumer e started earlier h.tasks in
      record {
        tasks = tasks;
        committed = omega (arith, same, h.committed);
        before = before;
        earlier = all;
        to_come = rest;
      }

  received-IsHeld :
      (y : Record) (later before : List Record) (r : Reader) (o : Option Dict)
      → ComesBefore x y
      → All (ComesBefore x) before
      → later ≡ before ++ x ∷ after
      → IsHeld r
      → IsHeld (received deserialize y later r o)
  received-IsHeld y later before r none first all rest h = record {
    tasks = h.tasks;
    committed = h.committed;
    before = h.before;
    earlier = h.earlier;
    to_come = h.to_come;
  }
  received-IsHeld y later before r (some event) first all rest h =
      spawned-IsHeld (delivery_of y event) later before r _ refl first all rest h

  -- The record itself ends the loop.
  read_from-IsHeld :
      (before : List Record) (r : Reader)
      → All (ComesBefore x) before
      → IsHeld r
      → IsHeld (read_from deserialize (before ++ x ∷ after) r)
  unfolding read_from
  read_from-IsHeld [] r all h = rw undecodable (record {
    tasks = h.tasks;
    committed = h.committed;
    before = h.before;
    earlier = h.earlier;
    to_come = h.to_come;
  })
  read_from-IsHeld (y ∷ before) r all h =
      received-IsHeld y (before ++ x ∷ after) before r (deserialize y.value) all.0 all.1 refl h

  read-IsHeld : (r : Reader) → IsHeld r → IsHeld (read deserialize r)
  unfolding read
  read-IsHeld r h = either r.failed h (
      subst (λ rest. IsHeld (read_from deserialize rest r)) (sym h.to_come)
        (read_from-IsHeld h.before r h.earlier h))
    where
      either : (b : Bool) {s t : Reader} → IsHeld s → IsHeld t → IsHeld (if b then s else t)
      either true h g = h
      either false h g = g

  end_task-IsHeld :
      (o : Option Delivery) (i : ℕ) (processed committing : Outcome (Unit {0})) (c : Consumer)
      → get_elem? c.tasks i ≡ o
      → All (IsEarlier x) c.tasks
      → c.committed x.partition ≤ x.offset
      → let d = end_task_at o i processed committing c in
        All (IsEarlier x) d.tasks × (d.committed x.partition ≤ x.offset)
  unfolding end_task_at finish_task
  end_task-IsHeld none i processed committing c found tasks below = (tasks, below)
  end_task-IsHeld (some d) i (ok _) (ok _) c found tasks below =
      let earlier = All-get_elem? (IsEarlier x) i c.tasks d tasks found in
      (All-remove_at (IsEarlier x) i c.tasks tasks, ground (arith, below, earlier))
  end_task-IsHeld (some d) i (ok _) (raised exc) c found tasks below =
      (All-remove_at (IsEarlier x) i c.tasks tasks, below)
  end_task-IsHeld (some d) i (raised exc) committing c found tasks below =
      (All-remove_at (IsEarlier x) i c.tasks tasks, below)

  Step-IsHeld : {r s : Reader} → Step deserialize r s → IsHeld r → IsHeld s
  unfolding task_ends end_task
  Step-IsHeld {r} (reads e) h = rw e (read-IsHeld r h)
  Step-IsHeld {r} (ends i processed committing e) h =
      let (tasks, below) =
        end_task-IsHeld (get_elem? r.consumer.tasks i) i processed committing r.consumer refl
          h.tasks h.committed in
      rw e (record {
        tasks = tasks;
        committed = below;
        before = h.before;
        earlier = h.earlier;
        to_come = h.to_come;
      })

  -- A record whose value cannot be deserialized is never passed: however the tasks are interleaved
  -- and end, if the records before it in its partition have lower offsets and no task or commit was
  -- past it at the start, then no task gets a record of its partition from it on, the committed offset
  -- is never beyond it, so that Kafka delivers it again after a restart, and it stays the next record
  -- to come after those before it.
  pub Reach-IsHeld : {r s : Reader} → Reach deserialize r s → IsHeld r → IsHeld s
  Reach-IsHeld here h = h
  Reach-IsHeld (next r step) h = Step-IsHeld step (Reach-IsHeld r h)
