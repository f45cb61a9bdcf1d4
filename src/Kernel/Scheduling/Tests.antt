-- ===== src/Kernel/Scheduling/Tests.antt =====
-- Two tasks; a future is the number of polls it still needs, and it wakes its task while it needs more.
use yacuri.Base.{ℕ, zero, suc, ◌≡◌, ◌↔◌, refl, true, false, some, none, [], ◌∷◌, length, arith}
use yacuri.Kernel.Scheduling.{
  Polled, Executor, contains, new_task, wake_task, spawn, run_ready_task, new, Reached, start,
  spawned, ran,
}
use yacuri.Kernel.Scheduling.Live.{has, Reached-live}

abbrev countdown : ℕ → ℕ → Polled ℕ
countdown id zero = record { future = zero; ready = true; wakes = [] }
countdown id (suc n) = record { future = n; ready = false; wakes = id ∷ [] }

abbrev one : Executor ℕ
one = record { tasks = (0, 1) ∷ []; task_queue = 0 ∷ []; waker_cache = []; next_id = 1 }

abbrev two : Executor ℕ
two = record {
  tasks = (0, 1) ∷ (1, 0) ∷ [];
  task_queue = 0 ∷ 1 ∷ [];
  waker_cache = [];
  next_id = 2;
}

-- The first task was polled, and woke itself.
abbrev polled_once : Executor ℕ
polled_once = record {
  tasks = (0, 0) ∷ (1, 0) ∷ [];
  task_queue = 1 ∷ 0 ∷ [];
  waker_cache = 0 ∷ [];
  next_id = 2;
}

-- The second task is done.
abbrev one_left : Executor ℕ
one_left = record { tasks = (0, 0) ∷ []; task_queue = 0 ∷ []; waker_cache = 0 ∷ []; next_id = 2 }

first_spawn : spawn (new_task 1 new).0 (new_task 1 new).1 ≡ some one
unfolding spawn new_task wake_task
first_spawn = refl

second_spawn : spawn (new_task 0 one).0 (new_task 0 one).1 ≡ some two
unfolding spawn new_task wake_task
second_spawn = refl

first_round : run_ready_task countdown two ≡ some polled_once
unfolding run_ready_task wake_task
first_round = refl

second_round : run_ready_task countdown polled_once ≡ some one_left
unfolding run_ready_task wake_task
second_round = refl

runs : Reached countdown one_left
runs =
    ran polled_once one_left
      (ran two polled_once
        (spawned 0 one two (spawned 1 new one start (omega arith) first_spawn) (omega arith)
          second_spawn)
        first_round)
      second_round

Reached-live_example :
    ((k : ℕ) → contains one_left.waker_cache k ≡ true → has one_left.tasks k ≡ true)
    × ((future : ℕ)
        → (spawn (new_task future one_left).0 (new_task future one_left).1 ≡ none)
          ↔ (length one_left.task_queue ≡ 100))
Reached-live_example = Reached-live countdown one_left runs
