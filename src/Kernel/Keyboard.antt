-- ===== src/Kernel/Keyboard.antt =====
-- kernel/src/drivers/keyboard.rs: the queue of scancodes between the interrupt handler and the stream
-- that the shell reads. The queue and the waker are of the crates crossbeam and futures; an interrupt may
-- come between any two of their calls.
use yacuri.Base.{ℕ, ◌≡◌, Bool, true, false, List, [], ◌∷◌, ◌++◌, if◌then◌else◌, length, ltb}
pub mod Waking
mod Tests

-- Where the task of the stream stands: before the first `pop` of `poll_next`, before `register`, before
-- the second `pop`, and after `Poll::Pending`.
pub data Place : Type 0 where
  polling found_empty registered pending : Place

-- `SCANCODE_QUEUE` and `WAKER`, whether a wake of the task is under way, and two records of the run: the
-- scancodes that the queue took, and those that the stream gave.
pub record State : Type 0 where
  pub queue : List ℕ
  pub waker : Bool
  pub woken : Bool
  pub place : Place
  pub accepted : List ℕ
  pub given : List ℕ

abbrev pub capacity : ℕ
capacity = 100

-- `AtomicWaker::wake` wakes the task that is registered, and forgets it.
abbrev pub wake : State → State
wake st = if st.waker then record st { waker = false; woken = true } else st

-- `add_scancode`, with the queue set up; a full queue drops the scancode.
unfoldable pub add_scancode : ℕ → State → State
add_scancode scancode st =
    if ltb (length st.queue) capacity
    then wake
        (record st { queue = st.queue ++ scancode ∷ []; accepted = st.accepted ++ scancode ∷ [] })
    else st

-- `Poll::Ready(Some(scancode))`, after which the shell asks for the next one.
abbrev pub give : ℕ → List ℕ → State → State
give scancode rest st = record st {
  queue = rest;
  given = st.given ++ scancode ∷ [];
  place = polling;
}

-- One call of `poll_next` on the queue or the waker, from the place that it has come to.
abbrev pub pop_first : List ℕ → State → State
pop_first [] st = record st { place = found_empty }
pop_first (c ∷ cs) st = give c cs st

-- A second `pop` that finds a scancode takes the waker back.
abbrev pub pop_second : List ℕ → State → State
pop_second [] st = record st { place = pending }
pop_second (c ∷ cs) st = give c cs (record st { waker = false })

-- The executor polls a pending task when it was woken.
abbrev pub repoll : Bool → State → State
repoll true st = record st { woken = false; place = polling }
repoll false st = st

abbrev pub poll_at : Place → State → State
poll_at polling st = pop_first st.queue st
poll_at found_empty st = record st { waker = true; place = registered }
poll_at registered st = pop_second st.queue st
poll_at pending st = repoll st.woken st

unfoldable pub poll_next : State → State
poll_next st = poll_at st.place st

-- `ScancodeStream::new`
abbrev pub new : State
new = record {
  queue = [];
  waker = false;
  woken = false;
  place = polling;
  accepted = [];
  given = [];
}

pub data Step : State → State → Type 0 where
  interrupt : (scancode : ℕ) (st : State) → Step st (add_scancode scancode st)
  poll : (st : State) → Step st (poll_next st)

pub data Reached : State → Type 0 where
  start : Reached new
  then_ : {st st' : State} → Reached st → Step st st' → Reached st'
