-- ===== src/Kernel/Scheduling.antt =====
-- kernel/src/scheduling: executor.rs, task.rs and waker.rs. A future is a value of a parameter type, and
-- polling it a parameter too: the future afterwards, whether it is ready, and the tasks that were woken
-- meanwhile, by it or by an interrupt. The maps and the queue are of the standard library and the crate
-- crossbeam.
use yacuri.Base.{
  ℕ, zero, suc, ◌+◌, ◌%◌, ◌^◌, ◌<◌, ◌≡◌, Bool, true, false, ◌||◌, Option, none, some, List, [], ◌∷◌,
  ◌++◌, if◌then◌else◌, length, ltb, ◌==◌,
}
pub mod Live
mod Tests

-- `Poll<()>` with what the poll leaves
pub record Polled (F : Type 0) : Type 0 where
  pub future : F
  pub ready : Bool
  pub wakes : List ℕ

pub record Task (F : Type 0) : Type 0 where
  pub id : ℕ
  pub future : F

-- `Executor`, with the counter `NEXT_ID` of the task ids; of a waker only its task matters.
pub record Executor (F : Type 0) : Type 0 where
  pub tasks : List (ℕ × F)
  pub task_queue : List ℕ
  pub waker_cache : List ℕ
  pub next_id : ℕ

abbrev pub queue_capacity : ℕ
queue_capacity = 100

abbrev pub contains : List ℕ → ℕ → Bool
contains [] id = false
contains (k ∷ ks) id = k == id || contains ks id

abbrev pub insert_waker : ℕ → List ℕ → List ℕ
insert_waker id ks = if contains ks id then ks else id ∷ ks

abbrev pub remove_waker : ℕ → List ℕ → List ℕ
remove_waker id [] = []
remove_waker id (k ∷ ks) = let rest = remove_waker id ks in if k == id then rest else k ∷ rest

module _ {F : Type 0} where
  abbrev pub get : List (ℕ × F) → ℕ → Option F
  get [] id = none
  get ((k, f) ∷ tasks) id = if k == id then some f else get tasks id

  -- `BTreeMap::insert`, of a key that may be there
  abbrev pub insert : ℕ → F → List (ℕ × F) → List (ℕ × F)
  insert id f [] = (id, f) ∷ []
  insert id f ((k, g) ∷ tasks) =
      let rest = (k, g) ∷ insert id f tasks in if k == id then (k, f) ∷ tasks else rest

  abbrev pub remove : ℕ → List (ℕ × F) → List (ℕ × F)
  remove id [] = []
  remove id ((k, f) ∷ tasks) = let rest = remove id tasks in if k == id then rest else (k, f) ∷ rest

  -- `Task::new`
  unfoldable pub new_task : F → Executor F → Task F × Executor F
  new_task future ex = (
    record { id = ex.next_id; future = future },
    record ex { next_id = (ex.next_id + 1) % 2 ^ 64 },
  )

  -- `task_queue.push(id).expect("queue full")`, of `spawn` and of `TaskWaker::wake_task`; `none` is a
  -- panic.
  unfoldable pub wake_task : ℕ → Executor F → Option (Executor F)
  wake_task id ex =
      if ltb (length ex.task_queue) queue_capacity
      then some (record ex { task_queue = ex.task_queue ++ id ∷ [] })
      else none

  abbrev pub spawn_over : Task F → Executor F → Option F → Option (Executor F)
  spawn_over task ex (some old) = none
  spawn_over task ex none =
      wake_task task.id (record ex { tasks = insert task.id task.future ex.tasks })

  unfoldable pub spawn : Task F → Executor F → Option (Executor F)
  spawn task ex = spawn_over task ex (get ex.tasks task.id)

  abbrev pub and_then :
      Option (Executor F) → (Executor F → Option (Executor F)) → Option (Executor F)
  and_then none f = none
  and_then (some ex) f = f ex

  -- The wakes of a poll
  abbrev pub wake_all : List ℕ → Executor F → Option (Executor F)
  wake_all [] ex = some ex
  wake_all (id ∷ ids) ex = and_then (wake_task id ex) λ ex'. wake_all ids ex'

  abbrev pub finish : ℕ → Bool → Executor F → Executor F
  finish id false ex = ex
  finish id true ex = record ex {
    tasks = remove id ex.tasks;
    waker_cache = remove_waker id ex.waker_cache;
  }

  abbrev pub finish_all : ℕ → Bool → Option (Executor F) → Option (Executor F)
  finish_all id ready none = none
  finish_all id ready (some ex) = some (finish id ready ex)

  module _ (poll : ℕ → F → Polled F) where
    abbrev pub poll_task : ℕ → Executor F → Option F → Option (Executor F)
    poll_task id ex none = some ex
    poll_task id ex (some f) =
        let p = poll id f in
        finish_all id p.ready (
          wake_all p.wakes (record ex {
            tasks = insert id p.future ex.tasks;
            waker_cache = insert_waker id ex.waker_cache;
          }))

    abbrev pub run_popped : List ℕ → Executor F → Option (Executor F)
    run_popped [] ex = some ex
    run_popped (id ∷ rest) ex = poll_task id (record ex { task_queue = rest }) (get ex.tasks id)

    -- One round of the loop of `run_ready_tasks`; nothing is done on an empty queue.
    unfoldable pub run_ready_task : Executor F → Option (Executor F)
    run_ready_task ex = run_popped ex.task_queue ex

abbrev pub new : {F : Type 0} → Executor F
new = record { tasks = []; task_queue = []; waker_cache = []; next_id = 0 }

-- The executor with spawns of new tasks, wakes from outside, and rounds of its loop, in any order.
pub data Reached {F : Type 0} (poll : ℕ → F → Polled F) : Executor F → Type 0 where
  start : Reached poll new
  spawned :
      (future : F) (ex ex' : Executor F)
      → Reached poll ex
      → ex.next_id + 1 < 2 ^ 64
      → spawn (new_task future ex).0 (new_task future ex).1 ≡ some ex'
      → Reached poll ex'
  woken :
      (id : ℕ) (ex ex' : Executor F)
      → Reached poll ex
      → wake_task id ex ≡ some ex'
      → Reached poll ex'
  ran :
      (ex ex' : Executor F) → Reached poll ex → run_ready_task poll ex ≡ some ex' → Reached poll ex'
