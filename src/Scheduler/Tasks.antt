-- ===== src/Scheduler/Tasks.antt =====
-- What the part of `mainFun` for a task does: the thread is as before, unless an assertion fails.
use seaice.Prelude.{
  ℕ, zero, suc, ◌<◌, ◌≡◌, ◌≢◌, refl, ◌∙◌, ap, sym, subst, List, [], ◌∷◌, ◌++◌, Bool, true, false,
  Option, none, some, arith, append-nil, if◌then◌else◌, length, set, get_or-set_same,
  get_or-set_other, get_or-append_lt, get_or-append_at,
}
use mathlib.Core.Bool.{true≢false}
use seaice.Scheduler.{Body, fiber, callback, FiberAndThread, Activation, Loop}
use seaice.Scheduler.Queue.{schedule_all_lem}
use seaice.Scheduler.Fibers.{
  State, Fiber, Thread, init, ready, exec, hold, term, except, is_state, state_of, no_fiber,
}
use seaice.Scheduler.Rounds.{can_enter, can_enter-lt_length, main_runs, after_run, length-ran}
use seaice.Scheduler.{
  run_task_fiber, run_cb_fiber, take_cb_fiber, keep_cb_fiber, run_task, run_fiber, main_start,
}
use seaice.Scheduler.Fibers.{new_fiber, reset}
use seaice.Scheduler.Rounds.{run_fiber_lem}
use seaice.Scheduler.Invariant.{NotIdle, NoIdle, Ended, Ready, after_run-Ready}

-- A fiber that has thrown.
abbrev pub threw : List Fiber → Body → Bool
threw fibers (fiber i) = is_state except (state_of fibers i)
threw fibers (callback c) = false

-- The thread and its idle fiber are the same, and the queue has at most grown.
pub record Extends (l l' : Loop) : Type 0 where
  pub idle : l'.idle ≡ l.idle
  pub me : l'.me ≡ l.me
  pub new : List FiberAndThread
  pub queue : l'.queue ≡ l.queue ++ new

-- What a task leaves: a thread as before, or an assertion fails, for a fiber that has thrown.
pub data After (l : Loop) (body : Body) : Option Loop → Type 0 where
  ran_on : (l' : Loop) → Ready l' → Extends l l' → After l body (some l')
  failed : threw l.thread.fibers body ≡ true → After l body none

pub same-Extends : (l : Loop) → Extends l l
same-Extends l = record { idle = refl; me = refl; new = []; queue = sym (append-nil l.queue) }

pub ran-Extends :
    (i : ℕ) (a : Activation) (fibers : List Fiber) (l : Loop) → Extends l (after_run i a fibers l)
ran-Extends i a fibers l = record {
  idle = refl;
  me = refl;
  new = a.schedules;
  queue = schedule_all_lem a.schedules l.queue;
}

pub run_fiber-Ready :
    (act : ℕ → List ℕ → Activation) (i : ℕ) (l : Loop)
    → Ready l
    → can_enter (state_of l.thread.fibers i) ≡ true
    → run_fiber act i l ≡ some (after_run i (act i l.log) l.thread.fibers l)
run_fiber-Ready act i l r h =
    subst
      (λ (t : Thread).
        run_fiber act i (record l { thread = t })
        ≡ some (after_run i (act i l.log) l.thread.fibers l))
      (sym r.main) (run_fiber_lem act i l.thread.fibers l h)

module _ (act : ℕ → List ℕ → Activation) (l : Loop) (r : Ready l)
    (n : (j : ℕ) (log : List ℕ) → NoIdle l.idle (act j log).schedules) where
  enters :
      (i : ℕ)
      → i ≢ l.idle
      → can_enter (state_of l.thread.fibers i) ≡ true
      → run_task_fiber act i l ≡ run_fiber act i l
      → After l (fiber i) (run_task_fiber act i l)
  enters i o h e = subst (After l (fiber i)) (sym (e ∙ run_fiber-Ready act i l r h)) (
      ran_on _ (after_run-Ready i (act i l.log) l r o h (n i l.log))
        (ran-Extends i (act i l.log) l.thread.fibers l))

  After-fiber :
      (i : ℕ) (s : State)
      → i ≢ l.idle
      → state_of l.thread.fibers i ≡ s
      → After l (fiber i) (run_task_fiber act i l)
  unfolding run_task_fiber
  After-fiber i init o e = enters i o (rw e refl) (rw e refl)
  After-fiber i ready o e = enters i o (rw e refl) (rw e refl)
  After-fiber i exec o e = absurd (true≢false (sym (ap (is_state exec) e) ∙ r.quiet i))
  After-fiber i hold o e = enters i o (rw e refl) (rw e refl)
  After-fiber i term o e = subst (After l (fiber i)) (rw e refl) (ran_on l r (same-Extends l))
  After-fiber i except o e = subst (After l (fiber i)) (rw e refl) (failed (ap (is_state except) e))

abbrev begun : ℕ → Fiber
begun c = record { state = init; cb = c }

pub append_quiet :
    (fibers : List Fiber) (c : ℕ)
    → ((j : ℕ) → is_state exec (state_of fibers j) ≡ false)
    → (j : ℕ) → is_state exec (state_of (fibers ++ begun c ∷ []) j) ≡ false
append_quiet [] c q zero = refl
append_quiet [] c q (suc j) = refl
append_quiet (f ∷ fibers) c q zero = q zero
append_quiet (f ∷ fibers) c q (suc j) = append_quiet fibers c (λ k. q (suc k)) j

set_quiet :
    (fibers : List Fiber) (i c : ℕ)
    → ((j : ℕ) → is_state exec (state_of fibers j) ≡ false)
    → (j : ℕ) → is_state exec (state_of (set fibers i (begun c)) j) ≡ false
set_quiet [] i c q j = refl
set_quiet (f ∷ fibers) zero c q zero = refl
set_quiet (f ∷ fibers) zero c q (suc j) = q (suc j)
set_quiet (f ∷ fibers) (suc i) c q zero = q zero
set_quiet (f ∷ fibers) (suc i) c q (suc j) = set_quiet fibers i c (λ k. q (suc k)) j

-- The fiber for a callback has been made, or reset.
record Taken (i : ℕ) (l : Loop) (fibers : List Fiber) : Type 0 where
  ready : Ready (record l { thread = main_runs fibers; cb_fiber = none })
  enter : can_enter (state_of fibers i) ≡ true
  apart : i ≢ l.idle

new-Taken :
    (c : ℕ) (l : Loop)
    → Ready l
    → Taken (length l.thread.fibers) l (l.thread.fibers ++ begun c ∷ [])
new-Taken c l r =
    let fibers = l.thread.fibers in
    let inside = can_enter-lt_length fibers l.idle r.idle_waits in
    let same : state_of (fibers ++ begun c ∷ []) l.idle ≡ state_of fibers l.idle =
      ap (λ (f : Fiber). f.state) (get_or-append_lt fibers (begun c ∷ []) l.idle no_fiber inside) in
    record {
      ready = record {
        main = refl;
        quiet = append_quiet fibers c r.quiet;
        idle_waits = rw same r.idle_waits;
        ended = tt;
        no_idle = r.no_idle;
        on = r.on;
      };
      enter = ap (λ (f : Fiber). can_enter f.state) (get_or-append_at fibers (begun c) [] no_fiber);
      apart = λ p. omega (arith, p);
    }

reset-Taken :
    (c i : ℕ) (l : Loop)
    → Ready l
    → i < length l.thread.fibers
    → i ≢ l.idle
    → Taken i l (set l.thread.fibers i (begun c))
reset-Taken c i l r inside apart =
    let fibers = l.thread.fibers in
    let same : state_of (set fibers i (begun c)) l.idle ≡ state_of fibers l.idle =
      ap (λ (f : Fiber). f.state) (get_or-set_other fibers i l.idle (begun c) no_fiber apart) in
    record {
      ready = record {
        main = refl;
        quiet = set_quiet fibers i c r.quiet;
        idle_waits = rw same r.idle_waits;
        ended = tt;
        no_idle = r.no_idle;
        on = r.on;
      };
      enter =
          ap (λ (f : Fiber). can_enter f.state)
            (get_or-set_same fibers i (begun c) no_fiber inside);
      apart = apart;
    }

keep_fiber-Ended :
    (i idle : ℕ) (fibers : List Fiber) (s : State)
    → state_of fibers i ≡ s
    → i < length fibers
    → i ≢ idle
    → Ended (if is_state term s then some i else none) idle fibers
keep_fiber-Ended i idle fibers init e h o = tt
keep_fiber-Ended i idle fibers ready e h o = tt
keep_fiber-Ended i idle fibers exec e h o = tt
keep_fiber-Ended i idle fibers hold e h o = tt
keep_fiber-Ended i idle fibers term e h o = (e, h, o)
keep_fiber-Ended i idle fibers except e h o = tt

-- The loop after a callback.
abbrev kept : ℕ → Loop → Loop
kept i l = record l {
  cb_fiber = if is_state term (state_of l.thread.fibers i) then some i else none;
}

kept-Ready :
    (i : ℕ) (l : Loop)
    → Ready (record l { cb_fiber = none })
    → i < length l.thread.fibers
    → i ≢ l.idle
    → Ready (kept i l)
kept-Ready i l r h o = record {
  main = r.main;
  quiet = r.quiet;
  idle_waits = r.idle_waits;
  ended = keep_fiber-Ended i l.idle l.thread.fibers _ refl h o;
  no_idle = r.no_idle;
  on = r.on;
}

module _ (act : ℕ → List ℕ → Activation) (l : Loop) (r : Ready l)
    (n : (j : ℕ) (log : List ℕ) → NoIdle l.idle (act j log).schedules) where
  After-Taken :
      (c i : ℕ) (fibers : List Fiber)
      → Taken i l fibers
      → After l (callback c) (run_cb_fiber act l (some (i, main_runs fibers)))
  unfolding run_cb_fiber run_fiber
  After-Taken c i fibers t =
      let a = act i l.log in
      let l0 : Loop = record l { thread = main_runs fibers } in
      let l1 : Loop = after_run i a fibers l0 in
      let step = run_fiber_lem act i fibers l t.enter in
      let inside = can_enter-lt_length fibers i t.enter in
      let again =
        after_run-Ready i a (record l { thread = main_runs fibers; cb_fiber = none }) t.ready
          t.apart t.enter (n i l.log) in
      subst (After l (callback c)) (sym (ap (keep_cb_fiber i) step)) (
        ran_on (kept i l1)
          (kept-Ready i l1 again (omega (arith, length-ran i a.ending fibers)) t.apart)
          (record {
            idle = refl;
            me = refl;
            new = a.schedules;
            queue = schedule_all_lem a.schedules l.queue;
          }))

  take_none :
      (c : ℕ)
      → l.cb_fiber ≡ none
      → take_cb_fiber c l
        ≡ some (length l.thread.fibers, main_runs (l.thread.fibers ++ begun c ∷ []))
  unfolding take_cb_fiber new_fiber reset
  take_none c e = λ j. take_cb_fiber c (record l { thread = r.main j; cb_fiber = e j })

  take_some :
      (c i : ℕ)
      → l.cb_fiber ≡ some i
      → state_of l.thread.fibers i ≡ term
      → take_cb_fiber c l ≡ some (i, main_runs (set l.thread.fibers i (begun c)))
  unfolding take_cb_fiber new_fiber reset
  take_some c i e t =
      (λ j. take_cb_fiber c (record l { thread = r.main j; cb_fiber = e j }))
      ∙ rw (t, take_cb_fiber) refl

  After-callback :
      (c : ℕ) (cb : Option ℕ)
      → l.cb_fiber ≡ cb
      → After l (callback c) (run_cb_fiber act l (take_cb_fiber c l))
  After-callback c none e =
      subst (λ (o : Option (ℕ × Thread)). After l (callback c) (run_cb_fiber act l o))
        (sym (take_none c e))
        (After-Taken c (length l.thread.fibers) (l.thread.fibers ++ begun c ∷ []) (new-Taken c l r))
  After-callback c (some i) e =
      let ended : Ended (some i) l.idle l.thread.fibers =
        subst (λ (cb : Option ℕ). Ended cb l.idle l.thread.fibers) e r.ended in
      subst (λ (o : Option (ℕ × Thread)). After l (callback c) (run_cb_fiber act l o))
        (sym (take_some c i e ended.0))
        (After-Taken c i (set l.thread.fibers i (begun c)) (reset-Taken c i l r ended.1 ended.2))

  After-body :
      (body : Body) (thread : Option ℕ)
      → NotIdle l.idle body
      → After l body (run_task act (some (record { body = body; thread = thread })) l)
  unfolding run_task
  After-body (fiber i) thread o = After-fiber act l r n i _ o refl
  After-body (callback c) thread o = After-callback c l.cb_fiber refl

  -- What a task that `mainFun` takes leaves.
  pub run_task-After :
      (ft : FiberAndThread) → NotIdle l.idle ft.body → After l ft.body (run_task act (some ft) l)
  run_task-After ft o = After-body ft.body ft.thread o

-- A thread that begins, in a program none of whose fibers runs.
pub main_start-Ready :
    (idle_cb me : ℕ) (fibers : List Fiber) (queue : List FiberAndThread) (stopped : Bool)
    → ((j : ℕ) → is_state exec (state_of fibers j) ≡ false)
    → NoIdle (length fibers) queue
    → Ready (main_start idle_cb me fibers queue stopped)
unfolding main_start
main_start-Ready idle_cb me fibers queue stopped q o = record {
  main = refl;
  quiet = append_quiet fibers idle_cb q;
  idle_waits =
      ap (λ (f : Fiber). can_enter f.state) (get_or-append_at fibers (begun idle_cb) [] no_fiber);
  ended = tt;
  no_idle = o;
  on = refl;
}
