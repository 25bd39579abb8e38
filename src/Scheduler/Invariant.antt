-- ===== src/Scheduler/Invariant.antt =====
-- Between two tasks the thread runs its main fiber, and no other fiber.
use seaice.Prelude.{
  ℕ, ◌<◌, ◌≡◌, ◌≢◌, refl, ◌∙◌, ap, sym, subst, List, true, false, Option, none, some, arith, All,
  All-append, length,
}
use native.Mathlib.Decide.{ℕ_discrete}
use mathlib.Core.Bool.{true≢false}
use seaice.Scheduler.{
  Body, fiber, callback, FiberAndThread, Activation, Ending, holds, readies, returns, throws, Loop,
}
use seaice.Scheduler.Queue.{schedule_all_lem}
use seaice.Scheduler.Fibers.{Fiber, exec, term, is_state, state_of}
use seaice.Scheduler.Rounds.{
  can_enter, can_enter-lt_length, left, ran, main_runs, after_run, ran_other, ran_same, length-ran,
}

abbrev pub NotIdle : ℕ → Body → Type 0
NotIdle idle (fiber i) = i ≢ idle
NotIdle idle (callback c) = Unit

abbrev pub NoIdle : ℕ → List FiberAndThread → Type 0
NoIdle idle fts = All (λ ft. NotIdle idle ft.body) fts

-- The fiber kept for callbacks has ended.
abbrev pub Ended : Option ℕ → ℕ → List Fiber → Type 0
Ended none idle fibers = Unit
Ended (some i) idle fibers = (state_of fibers i ≡ term) × (i < length fibers) × (i ≢ idle)

pub record Ready (l : Loop) : Type 0 where
  pub main : l.thread ≡ main_runs l.thread.fibers
  pub quiet : (i : ℕ) → is_state exec (state_of l.thread.fibers i) ≡ false
  pub idle_waits : can_enter (state_of l.thread.fibers l.idle) ≡ true
  pub ended : Ended l.cb_fiber l.idle l.thread.fibers
  pub no_idle : NoIdle l.idle l.queue
  pub on : l.running ≡ true

left_quiet : (ending : Ending) → is_state exec (left ending) ≡ false
left_quiet holds = refl
left_quiet readies = refl
left_quiet returns = refl
left_quiet throws = refl

pub ran_quiet :
    (i : ℕ) (ending : Ending) (fibers : List Fiber)
    → i < length fibers
    → ((j : ℕ) → is_state exec (state_of fibers j) ≡ false)
    → (j : ℕ) → is_state exec (state_of (ran i ending fibers) j) ≡ false
ran_quiet i ending fibers h q j = elim (ℕ_discrete i j) [
  | yes same ↦
      subst (λ (k : ℕ). is_state exec (state_of (ran i ending fibers) k) ≡ false) same
        (rw (ran_same i ending fibers h) (left_quiet ending))
  | no other ↦ rw (ran_other i j ending fibers other) (q j)
]

pub ran-Ended :
    (i : ℕ) (ending : Ending) (fibers : List Fiber) (cb : Option ℕ) (idle : ℕ)
    → can_enter (state_of fibers i) ≡ true
    → Ended cb idle fibers
    → Ended cb idle (ran i ending fibers)
ran-Ended i ending fibers none idle h e = tt
ran-Ended i ending fibers (some j) idle h (t, inside, other) =
    let apart : i ≢ j =
      λ p. true≢false (sym h ∙ ap (λ (k : ℕ). can_enter (state_of fibers k)) p ∙ ap can_enter t) in
    (ran_other i j ending fibers apart ∙ t, omega (arith, length-ran i ending fibers), other)

-- A fiber that is not the idle one has run.
pub after_run-Ready :
    (i : ℕ) (a : Activation) (l : Loop)
    → Ready l
    → i ≢ l.idle
    → can_enter (state_of l.thread.fibers i) ≡ true
    → NoIdle l.idle a.schedules
    → Ready (after_run i a l.thread.fibers l)
after_run-Ready i a l r other h n =
    let inside = can_enter-lt_length l.thread.fibers i h in
    record {
      main = refl;
      quiet = ran_quiet i a.ending l.thread.fibers inside r.quiet;
      idle_waits = rw (ran_other i l.idle a.ending l.thread.fibers other) r.idle_waits;
      ended = ran-Ended i a.ending l.thread.fibers l.cb_fiber l.idle h r.ended;
      no_idle =
          subst (NoIdle l.idle) (sym (schedule_all_lem a.schedules l.queue))
            (All-append (λ ft. NotIdle l.idle ft.body) l.queue a.schedules r.no_idle n);
      on = r.on;
    }
