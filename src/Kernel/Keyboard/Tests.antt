-- ===== src/Kernel/Keyboard/Tests.antt =====
-- An interrupt between the first `pop` and `register`, and another while the task sleeps.
use yacuri.Base.{◌≤◌, ◌≡◌, ◌≢◌, refl, true, [], ◌∷◌, ◌++◌, length}
use yacuri.Kernel.Keyboard.{
  State, pending, new, poll_next, add_scancode, Reached, start, then_, interrupt, poll,
}
use yacuri.Kernel.Keyboard.Waking.{Reached-woken}

abbrev found_nothing : State
found_nothing = poll_next new

abbrev asleep : State
asleep = poll_next (poll_next (poll_next (add_scancode 30 found_nothing)))

abbrev last : State
last = add_scancode 31 (poll_next (poll_next (poll_next asleep)))

run : Reached last
run =
    then_
      (then_
        (then_
          (then_
            (then_ (then_ (then_ (then_ (then_ start (poll _)) (interrupt 30 _)) (poll _)) (poll _))
              (poll _))
            (poll _))
          (poll _))
        (poll _))
      (interrupt 31 _)

Reached-woken_example :
    (last.place ≡ pending → last.queue ≢ [] → last.woken ≡ true)
    × (last.accepted ≡ last.given ++ last.queue)
    × (length last.queue ≤ 100)
Reached-woken_example = Reached-woken run

-- The task sleeps, and the second scancode woke it.
last_sleeps : last.place ≡ pending
unfolding poll_next add_scancode
last_sleeps = refl

last_waits : last.queue ≡ 31 ∷ []
unfolding poll_next add_scancode
last_waits = refl
