-- ===== src/Kernel/Scheduling/Live.antt =====
-- kernel/src/scheduling/executor.rs: over every run, wakers are kept for living tasks only, and ids are
-- not used twice.
use yacuri.Base.{
  ℕ, ◌+◌, ◌%◌, ◌^◌, ◌≤◌, ◌<◌, ◌≡◌, ◌↔◌, refl, ap, subst, Bool, true, false, ◌||◌, Option, none,
  some, List, [], ◌∷◌, ◌++◌, if◌then◌else◌, length, length-append, ltb, ◌==◌, arith, Bool-cases,
  inl, inr,
}
use yacuri.Kernel.Scheduling.{
  Polled, Executor, queue_capacity, contains, insert_waker, remove_waker, get, insert, remove,
  new_task, wake_task, spawn_over, spawn, wake_all, and_then, finish, finish_all, poll_task,
  run_popped, run_ready_task, Reached, start, spawned, woken, ran,
}

abbrev pub is_some : {A : Type 0} → Option A → Bool
is_some none = false
is_some (some a) = true

module _ {F : Type 0} where
  -- Whether a task is in the map
  abbrev pub has : List (ℕ × F) → ℕ → Bool
  has tasks id = is_some (get tasks id)

  has-insert :
      (id : ℕ) (f : F) (tasks : List (ℕ × F)) (k : ℕ)
      → has (insert id f tasks) k ≡ (id == k || has tasks k)
  has-insert id f [] k = ground arith
  has-insert id f ((j, g) ∷ tasks) k = ground (arith, has-insert id f tasks k)

  has-remove :
      (id : ℕ) (tasks : List (ℕ × F)) (k : ℕ)
      → has (remove id tasks) k ≡ (if id == k then false else has tasks k)
  has-remove id [] k = ground arith
  has-remove id ((j, g) ∷ tasks) k = ground (arith, has-remove id tasks k)

contains-insert_waker :
    (id : ℕ) (ks : List ℕ) (k : ℕ) → contains (insert_waker id ks) k ≡ (id == k || contains ks k)
contains-insert_waker id ks k = elim (Bool-cases (contains ks id)) [
  | inl e ↦ rw e (ground arith)
  | inr e ↦ rw e refl
]

contains-remove_waker :
    (id : ℕ) (ks : List ℕ) (k : ℕ)
    → contains (remove_waker id ks) k ≡ (if id == k then false else contains ks k)
contains-remove_waker id [] k = ground arith
contains-remove_waker id (j ∷ ks) k = ground (arith, contains-remove_waker id ks k)

module _ {F : Type 0} where
  -- Wakers are of tasks in the map, ids in the map were handed out, and the queue is no longer than the
  -- array behind it.
  record Inv (ex : Executor F) : Type 0 where
    wakers : (k : ℕ) → contains ex.waker_cache k ≡ true → has ex.tasks k ≡ true
    below : (k : ℕ) → has ex.tasks k ≡ true → k < ex.next_id
    room : length ex.task_queue ≤ 100

  Holds : (Executor F → Type 0) → Option (Executor F) → Type 0
  Holds P none = Unit
  Holds P (some ex) = P ex

  Holds-inv :
      (P : Executor F → Type 0) (o : Option (Executor F)) (ex : Executor F)
      → Holds P o
      → o ≡ some ex
      → P ex
  unfolding Holds
  Holds-inv P none ex h e = absurd (cc)
  Holds-inv P (some a) ex h e = subst P (cc) h

  Inv-queue :
      (ex : Executor F) (queue : List ℕ)
      → length queue ≤ 100
      → Inv ex
      → Inv (record ex { task_queue = queue })
  Inv-queue ex queue l h = record { wakers = h.wakers; below = h.below; room = l }

  wake_task-Inv : (id : ℕ) (ex : Executor F) → Inv ex → Holds Inv (wake_task id ex)
  unfolding wake_task Holds
  wake_task-Inv id ex h = pushed (ltb (length ex.task_queue) queue_capacity) refl
    where
      pushed :
          (b : Bool)
          → ltb (length ex.task_queue) queue_capacity ≡ b
          → Holds Inv
              (if b then some (record ex { task_queue = ex.task_queue ++ id ∷ [] }) else none)
      pushed true e = Inv-queue ex _ (ground (arith, length-append ex.task_queue (id ∷ []))) h
      pushed false e = tt

  and_then-Holds :
      (o : Option (Executor F)) (f : Executor F → Option (Executor F))
      → Holds Inv o
      → ((ex : Executor F) → Inv ex → Holds Inv (f ex))
      → Holds Inv (and_then o f)
  unfolding Holds
  and_then-Holds none f h k = tt
  and_then-Holds (some ex) f h k = k ex h

  wake_all-Inv : (ids : List ℕ) (ex : Executor F) → Inv ex → Holds Inv (wake_all ids ex)
  unfolding Holds
  wake_all-Inv [] ex h = h
  wake_all-Inv (id ∷ ids) ex h =
      and_then-Holds (wake_task id ex) _ (wake_task-Inv id ex h) λ ex' h'. wake_all-Inv ids ex' h'

  finish-Inv : (id : ℕ) (ready : Bool) (ex : Executor F) → Inv ex → Inv (finish id ready ex)
  finish-Inv id false ex h = h
  finish-Inv id true ex h = record {
    wakers = λ k e.
        ground (
          arith,
          e,
          has-remove id ex.tasks k,
          contains-remove_waker id ex.waker_cache k,
          h.wakers k,
        );
    below = λ k e. ground (arith, e, has-remove id ex.tasks k, h.below k);
    room = h.room;
  }

  finish_all-Inv :
      (id : ℕ) (ready : Bool) (o : Option (Executor F))
      → Holds Inv o
      → Holds Inv (finish_all id ready o)
  unfolding Holds
  finish_all-Inv id ready none h = tt
  finish_all-Inv id ready (some ex) h = finish-Inv id ready ex h

  -- A task that is polled is put back, and has a waker.
  polled-Inv :
      (id : ℕ) (f : F) (ex : Executor F)
      → has ex.tasks id ≡ true
      → Inv ex
      → Inv
          (record ex { tasks = insert id f ex.tasks; waker_cache = insert_waker id ex.waker_cache })
  polled-Inv id f ex there h = record {
    wakers = λ k e. ground (
      arith,
      e,
      has-insert id f ex.tasks k,
      contains-insert_waker id ex.waker_cache k,
      h.wakers k,
    );
    below =
        λ k e. ground (arith, e, there, has-insert id f ex.tasks k, h.below k, h.below id there);
    room = h.room;
  }

  module _ (poll : ℕ → F → Polled F) where
    poll_task-Inv :
        (id : ℕ) (ex : Executor F) (o : Option F)
        → get ex.tasks id ≡ o
        → Inv ex
        → Holds Inv (poll_task poll id ex o)
    unfolding Holds
    poll_task-Inv id ex none e h = h
    poll_task-Inv id ex (some f) e h =
        finish_all-Inv id (poll id f).ready _
          (wake_all-Inv (poll id f).wakes _ (polled-Inv id (poll id f).future ex (ap is_some e) h))

    run_popped-Inv :
        (queue : List ℕ) (ex : Executor F)
        → ex.task_queue ≡ queue
        → Inv ex
        → Holds Inv (run_popped poll queue ex)
    unfolding Holds
    run_popped-Inv [] ex e h = h
    run_popped-Inv (id ∷ rest) ex e h =
        poll_task-Inv id (record ex { task_queue = rest }) (get ex.tasks id) refl
          (Inv-queue ex rest (omega (arith, h.room, ap length e)) h)

    run_ready_task-Inv : (ex : Executor F) → Inv ex → Holds Inv (run_ready_task poll ex)
    unfolding run_ready_task
    run_ready_task-Inv ex h = run_popped-Inv ex.task_queue ex refl h

  -- A task of the next id is no task in the map.
  fresh : (ex : Executor F) → Inv ex → get ex.tasks ex.next_id ≡ none
  fresh ex h = absent (get ex.tasks ex.next_id) refl
    where
      absent : (o : Option F) → get ex.tasks ex.next_id ≡ o → o ≡ none
      absent none e = refl
      absent (some f) e = absurd (omega (arith, h.below ex.next_id (ap is_some e)))

  -- A spawn of a new task is the push of its id, onto a queue with the task in the map.
  spawn-new_task :
      (future : F) (ex : Executor F)
      → Inv ex
      → spawn (new_task future ex).0 (new_task future ex).1
        ≡ wake_task ex.next_id (record ex {
          tasks = insert ex.next_id future ex.tasks;
          next_id = (ex.next_id + 1) % 2 ^ 64;
        })
  unfolding spawn new_task
  spawn-new_task future ex h =
      ap
        (λ o.
          spawn_over (record { id = ex.next_id; future = future })
            (record ex { next_id = (ex.next_id + 1) % 2 ^ 64 }) o)
        (fresh ex h)

  new_task-Inv :
      (future : F) (ex : Executor F)
      → ex.next_id + 1 < 2 ^ 64
      → Inv ex
      → Inv (record ex {
        tasks = insert ex.next_id future ex.tasks;
        next_id = (ex.next_id + 1) % 2 ^ 64;
      })
  new_task-Inv future ex lt h = record {
    wakers = λ k e. ground (arith, e, has-insert ex.next_id future ex.tasks k, h.wakers k e);
    below = λ k e.
        let m : (ex.next_id + 1) % 2 ^ 64 ≡ ex.next_id + 1 = omega arith in
        ground (arith, m, e, has-insert ex.next_id future ex.tasks k, h.below k);
    room = h.room;
  }

  spawn-Inv :
      (future : F) (ex : Executor F)
      → ex.next_id + 1 < 2 ^ 64
      → Inv ex
      → Holds Inv (spawn (new_task future ex).0 (new_task future ex).1)
  spawn-Inv future ex lt h =
      rw (spawn-new_task future ex h) (wake_task-Inv ex.next_id _ (new_task-Inv future ex lt h))

  Inv-Reached : (poll : ℕ → F → Polled F) (ex : Executor F) → Reached poll ex → Inv ex
  Inv-Reached poll ex start = record {
    wakers = λ k e. absurd (cc);
    below = λ k e. absurd (cc);
    room = omega arith;
  }
  Inv-Reached poll ex (spawned future ex₀ ex' r lt e) =
      Holds-inv Inv _ ex (spawn-Inv future ex₀ lt (Inv-Reached poll ex₀ r)) e
  Inv-Reached poll ex (woken id ex₀ ex' r e) =
      Holds-inv Inv _ ex (wake_task-Inv id ex₀ (Inv-Reached poll ex₀ r)) e
  Inv-Reached poll ex (ran ex₀ ex' r e) =
      Holds-inv Inv _ ex (run_ready_task-Inv poll ex₀ (Inv-Reached poll ex₀ r)) e

  wake_task-none :
      (id : ℕ) (ex : Executor F)
      → length ex.task_queue ≤ 100
      → (wake_task id ex ≡ none) ↔ (length ex.task_queue ≡ 100)
  unfolding wake_task
  wake_task-none id ex h = ground arith

  -- In every order of spawns, wakes and rounds of the loop, whatever the futures do, a waker is kept only
  -- for a task that is in the map, and a spawn of a new task panics exactly where 100 ids are in the queue:
  -- its id is never that of another task in the map.
  pub Reached-live :
      (poll : ℕ → F → Polled F) (ex : Executor F)
      → Reached poll ex
      → ((k : ℕ) → contains ex.waker_cache k ≡ true → has ex.tasks k ≡ true)
        × ((future : F)
            → (spawn (new_task future ex).0 (new_task future ex).1 ≡ none)
              ↔ (length ex.task_queue ≡ 100))
  Reached-live poll ex r =
      let h = Inv-Reached poll ex r in
      (h.wakers, (λ future. rw (spawn-new_task future ex h) (wake_task-none ex.next_id _ h.room)))
