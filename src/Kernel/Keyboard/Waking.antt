-- ===== src/Kernel/Keyboard/Waking.antt =====
-- kernel/src/drivers/keyboard.rs: no scancode waits in the queue while the task sleeps.
use yacuri.Base.{
  ℕ, ◌≤◌, ◌≡◌, ◌≢◌, ◌⊎◌, inl, inr, refl, sym, ap, subst, ◌∙◌, Bool, true, false, List, [], ◌∷◌,
  ◌++◌, append_assoc, if◌then◌else◌, length, length-append, ltb, arith,
}
use yacuri.Kernel.Keyboard.{
  Place, polling, found_empty, registered, pending, State, capacity, add_scancode, give, pop_first,
  pop_second, repoll, poll_at, poll_next, Step, interrupt, poll, Reached, start, then_,
}

-- What holds at each place: from `register` on the waker is there or was used, and a task that sleeps
-- with its waker unused sleeps on an empty queue.
abbrev Awake : Place → (waker woken : Bool) → List ℕ → Type 0
Awake polling waker woken queue = Unit
Awake found_empty waker woken queue = Unit
Awake registered waker woken queue = (woken ≡ true) ⊎ (waker ≡ true)
Awake pending waker woken queue = (woken ≡ true) ⊎ ((waker ≡ true) × (queue ≡ []))

-- The scancodes taken are those given and those still in the queue, in order.
record Inv (st : State) : Type 0 where
  awake : Awake st.place st.waker st.woken st.queue
  order : st.accepted ≡ st.given ++ st.queue
  room : length st.queue ≤ capacity

Awake-woken : (place : Place) (waker : Bool) (queue : List ℕ) → Awake place waker true queue
Awake-woken polling waker queue = tt
Awake-woken found_empty waker queue = tt
Awake-woken registered waker queue = inl refl
Awake-woken pending waker queue = inl refl

-- With no waker there, what is in the queue does not matter.
Awake-no_waker :
    (place : Place) (waker woken : Bool) (queue queue' : List ℕ)
    → waker ≡ false
    → Awake place waker woken queue
    → Awake place waker woken queue'
Awake-no_waker polling waker woken queue queue' e h = tt
Awake-no_waker found_empty waker woken queue queue' e h = tt
Awake-no_waker registered waker woken queue queue' e h = h
Awake-no_waker pending waker woken queue queue' e (inl h) = inl h
Awake-no_waker pending waker woken queue queue' e (inr (h, k)) = absurd (cc)

Inv-push :
    (scancode : ℕ) (st : State) (waker full : Bool)
    → st.waker ≡ waker
    → ltb (length st.queue) capacity ≡ full
    → Inv st
    → Inv (
        if full
        then if waker
          then record st {
            queue = st.queue ++ scancode ∷ [];
            accepted = st.accepted ++ scancode ∷ [];
            waker = false;
            woken = true;
          }
          else record st {
            queue = st.queue ++ scancode ∷ [];
            accepted = st.accepted ++ scancode ∷ [];
          }
        else st)
Inv-push scancode st waker false e f h = h
Inv-push scancode st true true e f h = record {
  awake = Awake-woken st.place false _;
  order = ap (λ l. l ++ scancode ∷ []) h.order ∙ append_assoc st.given st.queue (scancode ∷ []);
  room = ground (arith, length-append st.queue (scancode ∷ []));
}
Inv-push scancode st false true e f h = record {
  awake = Awake-no_waker st.place st.waker st.woken st.queue _ e h.awake;
  order = ap (λ l. l ++ scancode ∷ []) h.order ∙ append_assoc st.given st.queue (scancode ∷ []);
  room = ground (arith, length-append st.queue (scancode ∷ []));
}

Inv-interrupt : (scancode : ℕ) (st : State) → Inv st → Inv (add_scancode scancode st)
unfolding add_scancode
Inv-interrupt scancode st h =
    Inv-push scancode st st.waker (ltb (length st.queue) capacity) refl refl h

Inv-give :
    (c : ℕ) (cs : List ℕ) (st : State) (waker : Bool)
    → Inv st
    → st.queue ≡ c ∷ cs
    → Inv (give c cs (record st { waker = waker }))
Inv-give c cs st waker h e = record {
  awake = tt;
  order = h.order ∙ ap (λ l. st.given ++ l) e ∙ sym (append_assoc st.given (c ∷ []) cs);
  room = omega (arith, h.room, ap length e);
}

Inv-first : (queue : List ℕ) (st : State) → Inv st → st.queue ≡ queue → Inv (pop_first queue st)
Inv-first [] st h e = record { awake = tt; order = h.order; room = h.room }
Inv-first (c ∷ cs) st h e = Inv-give c cs st st.waker h e

Inv-second :
    (queue : List ℕ) (st : State)
    → Inv st
    → Awake registered st.waker st.woken st.queue
    → st.queue ≡ queue
    → Inv (pop_second queue st)
Inv-second [] st h a e = record {
  awake = elim a [ inl w ↦ inl w | inr w ↦ inr (w, e) ];
  order = h.order;
  room = h.room;
}
Inv-second (c ∷ cs) st h a e = Inv-give c cs st false h e

Inv-repoll : (woken : Bool) (st : State) → Inv st → st.woken ≡ woken → Inv (repoll woken st)
Inv-repoll true st h e = record { awake = tt; order = h.order; room = h.room }
Inv-repoll false st h e = h

Inv-at : (place : Place) (st : State) → Inv st → st.place ≡ place → Inv (poll_at place st)
Inv-at polling st h e = Inv-first st.queue st h refl
Inv-at found_empty st h e = record { awake = inr refl; order = h.order; room = h.room }
Inv-at registered st h e =
    Inv-second st.queue st h (subst (λ p. Awake p st.waker st.woken st.queue) e h.awake) refl
Inv-at pending st h e = Inv-repoll st.woken st h refl

Inv-poll : (st : State) → Inv st → Inv (poll_next st)
unfolding poll_next
Inv-poll st h = Inv-at st.place st h refl

Inv-Step : {st st' : State} → Step st st' → Inv st → Inv st'
Inv-Step (interrupt scancode st) h = Inv-interrupt scancode st h
Inv-Step (poll st) h = Inv-poll st h

Inv-Reached : {st : State} → Reached st → Inv st
Inv-Reached start = record { awake = tt; order = refl; room = omega arith }
Inv-Reached (then_ r step) = Inv-Step step (Inv-Reached r)

sleeping :
    (place : Place) (waker woken : Bool) (queue : List ℕ)
    → place ≡ pending
    → Awake place waker woken queue
    → queue ≢ []
    → woken ≡ true
sleeping place waker woken queue e h ne = elim (subst (λ p. Awake p waker woken queue) e h) [
  | inl w ↦ w
  | inr (w, q) ↦ absurd (ne q)
]

-- In every order of interrupts and of the calls of `poll_next`, a task that sleeps while a scancode is in
-- the queue has been woken; the scancodes that the queue took are those that the stream gave, in order,
-- before those still in the queue; and the queue never holds more than 100.
pub Reached-woken :
    {st : State}
    → Reached st
    → (st.place ≡ pending → st.queue ≢ [] → st.woken ≡ true)
      × (st.accepted ≡ st.given ++ st.queue)
      × (length st.queue ≤ 100)
Reached-woken r =
    let h = Inv-Reached r in ((λ e ne. sleeping _ _ _ _ e h.awake ne), h.order, h.room)
