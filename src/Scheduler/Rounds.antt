-- ===== src/Scheduler/Rounds.antt =====
-- What a thread's fibers are after one of them has run.
use seaice.Prelude.{
  ℕ, ◌<◌, ◌≡◌, ◌≢◌, refl, ◌∙◌, ap, sym, List, ◌∷◌, Bool, true, ◌||◌, none, some, arith, Bool-cases,
  inl, inr, length, get_or, get_or-set_same, get_or-set_other, get_or_past, length-set, ltb, ltb→lt,
  ltb→le,
}
use mathlib.Core.Bool.{true≢false}
use seaice.Scheduler.{
  Activation, Ending, holds, readies, returns, throws, Loop, schedule_all, give_back, run_fiber,
  run_callback,
}
use seaice.Scheduler.Fibers.{
  State, Fiber, Thread, init, ready, exec, hold, term, except, is_state, state_of, set_state,
  no_fiber, swap_in, swap_out, yield_to_hold, yield_to_ready, finish, throw,
}

pub state_of-set_state_same :
    (fibers : List Fiber) (i : ℕ) (s : State)
    → i < length fibers
    → state_of (set_state i s fibers) i ≡ s
state_of-set_state_same fibers i s h =
    ap (λ (f : Fiber). f.state)
      (get_or-set_same fibers i (record (get_or fibers i no_fiber) { state = s }) no_fiber h)

pub state_of-set_state_other :
    (fibers : List Fiber) (i j : ℕ) (s : State)
    → i ≢ j
    → state_of (set_state i s fibers) j ≡ state_of fibers j
state_of-set_state_other fibers i j s h =
    ap (λ (f : Fiber). f.state)
      (get_or-set_other fibers i j (record (get_or fibers i no_fiber) { state = s }) no_fiber h)

-- A fiber that can be swapped in.
abbrev pub can_enter : State → Bool
can_enter s = is_state hold s || is_state init s || is_state ready s

-- A number that no fiber has is as the number of a fiber that ended.
pub can_enter-lt_length :
    (fibers : List Fiber) (i : ℕ) → can_enter (state_of fibers i) ≡ true → i < length fibers
can_enter-lt_length fibers i h = elim (Bool-cases (ltb i (length fibers))) [
  | inl inside ↦ ltb→lt i (length fibers) inside
  | inr past ↦
      let gone : get_or fibers i no_fiber ≡ no_fiber =
        get_or_past fibers i no_fiber (ltb→le i (length fibers) past) in
      absurd (true≢false (sym h ∙ ap (λ (f : Fiber). can_enter f.state) gone))
]

abbrev pub left : Ending → State
left holds = hold
left readies = ready
left returns = term
left throws = except

-- The fibers after one has run and has given the thread back.
abbrev pub ran : ℕ → Ending → List Fiber → List Fiber
ran i ending fibers = set_state i (left ending) (set_state i exec fibers)

give_back_lem :
    (i : ℕ) (ending : Ending) (fibers : List Fiber)
    → i < length fibers
    → give_back ending (record { main = hold; current = some i; fibers = set_state i exec fibers })
      ≡ some (record { main = exec; current = none; fibers = ran i ending fibers })
unfolding yield_to_hold yield_to_ready swap_out finish throw
give_back_lem i holds fibers h = refl
give_back_lem i readies fibers h = refl
give_back_lem i returns fibers h = rw (state_of-set_state_same fibers i exec h) refl
give_back_lem i throws fibers h = rw (state_of-set_state_same fibers i exec h) refl

-- A thread that runs its main fiber.
abbrev pub main_runs : List Fiber → Thread
main_runs fibers = record { main = exec; current = none; fibers = fibers }

-- What a round knows of a thread: its main fiber runs.
abbrev pub after_run : ℕ → Activation → List Fiber → Loop → Loop
after_run i a fibers l = record l {
  thread = main_runs (ran i a.ending fibers);
  queue = schedule_all a.schedules l.queue;
  log = i ∷ l.log;
}

pub run_fiber_lem :
    (act : ℕ → List ℕ → Activation) (i : ℕ) (fibers : List Fiber) (l : Loop)
    → can_enter (state_of fibers i) ≡ true
    → run_fiber act i (record l { thread = main_runs fibers })
      ≡ some (after_run i (act i l.log) fibers l)
unfolding run_fiber swap_in run_callback schedule_all
run_fiber_lem act i fibers l h =
    rw (h, give_back_lem i (act i l.log).ending fibers (can_enter-lt_length fibers i h)) refl

pub ran_other :
    (i j : ℕ) (ending : Ending) (fibers : List Fiber)
    → i ≢ j
    → state_of (ran i ending fibers) j ≡ state_of fibers j
ran_other i j ending fibers h =
    state_of-set_state_other (set_state i exec fibers) i j (left ending) h
    ∙ state_of-set_state_other fibers i j exec h

pub length-ran :
    (i : ℕ) (ending : Ending) (fibers : List Fiber) → length (ran i ending fibers) ≡ length fibers
length-ran i ending fibers = length-set (set_state i exec fibers) i _ ∙ length-set fibers i _

pub ran_same :
    (i : ℕ) (ending : Ending) (fibers : List Fiber)
    → i < length fibers
    → state_of (ran i ending fibers) i ≡ left ending
ran_same i ending fibers h =
    state_of-set_state_same (set_state i exec fibers) i (left ending)
      (omega (arith, length-set fibers i (record (get_or fibers i no_fiber) { state = exec })))
