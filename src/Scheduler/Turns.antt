-- ===== src/Scheduler/Turns.antt =====
-- A round of `mainFun`: a task, if there is one that the thread takes, then the idle fiber, if no
-- task is left.
use seaice.Prelude.{
  ℕ, ◌<◌, ◌≡◌, refl, ◌∙◌, ap, sym, subst, List, [], ◌∷◌, ◌++◌, Bool, true, false, not, Option, none,
  some, if◌then◌else◌, inl, inr, ◌⊎◌, length,
}
use seaice.Scheduler.{
  FiberAndThread, Activation, holds, returns, Loop, pick, schedule_all, is_empty, is_stopping,
}
use seaice.Scheduler.Rounds.{can_enter, can_enter-lt_length, ran, main_runs, after_run, ran_same}
use seaice.Scheduler.{run_task, run_fiber}
use seaice.Scheduler.Invariant.{NotIdle, NoIdle, Ready, ran_quiet, ran-Ended}
use seaice.Scheduler.{idle_fun, after_idle, run_idle, main_round}
use seaice.Scheduler.Queue.{Picked, Waiting, pick_first}
use seaice.Scheduler.Tasks.{
  threw, Extends, After, ran_on, failed, same-Extends, run_fiber-Ready, run_task-After,
}

-- What a round leaves: the thread goes on, or `mainFun` returns, with the scheduler stopped and no
-- task left, or an assertion fails, for a task's fiber that has thrown. `base` is the loop whose queue
-- lacks the task.
pub data RoundEnd (l base : Loop) : Option Loop → Type 0 where
  goes_on : (l' : Loop) → Ready l' → Extends base l' → RoundEnd l base (some l')
  returned :
      (l' : Loop)
      → l'.running ≡ false
      → is_stopping l' ≡ true
      → Extends base l'
      → RoundEnd l base (some l')
  aborted :
      (ft : FiberAndThread)
      → (pick l.me l.thread.fibers l.queue).0 ≡ some ft
      → threw l.thread.fibers ft.body ≡ true
      → RoundEnd l base none

abbrev idle_activation : Bool → Activation
idle_activation b = record { schedules = []; ending = if b then returns else holds }

abbrev idle_after : Bool → Loop → Loop
idle_after b l = record l {
  thread = main_runs (ran l.idle (idle_activation b).ending l.thread.fibers);
  log = l.idle ∷ l.log;
  running = not b;
}

state_read :
    (b : Bool) (l : Loop)
    → l.idle < length l.thread.fibers
    → after_idle (some (after_run l.idle (idle_activation b) l.thread.fibers l))
      ≡ some (idle_after b l)
unfolding schedule_all
state_read true l inside = rw (ran_same l.idle returns l.thread.fibers inside) refl
state_read false l inside = rw (ran_same l.idle holds l.thread.fibers inside) refl

idle_runs :
    (l : Loop) (b : Bool)
    → Ready l
    → is_stopping l ≡ b
    → run_idle false (some l) ≡ some (idle_after b l)
unfolding run_idle run_fiber
idle_runs l b r e =
    let step = run_fiber-Ready (λ i log. idle_fun l) l.idle l r r.idle_waits in
    let inside = can_enter-lt_length l.thread.fibers l.idle r.idle_waits in
    ap after_idle
      (step ∙ ap (λ (c : Bool). some (after_run l.idle (idle_activation c) l.thread.fibers l)) e)
    ∙ state_read b l inside

idle-Ready : (l : Loop) → Ready l → Ready (idle_after false l)
idle-Ready l r =
    let fibers = l.thread.fibers in
    let inside = can_enter-lt_length fibers l.idle r.idle_waits in
    record {
      main = refl;
      quiet = ran_quiet l.idle holds fibers inside r.quiet;
      idle_waits = ap can_enter (ran_same l.idle holds fibers inside);
      ended = ran-Ended l.idle holds fibers l.cb_fiber l.idle r.idle_waits r.ended;
      no_idle = r.no_idle;
      on = refl;
    }

-- The idle fiber runs, and yields or returns.
idled :
    (l0 base l : Loop) (b : Bool)
    → Ready l
    → Extends base l
    → is_stopping l ≡ b
    → RoundEnd l0 base (run_idle false (some l))
idled l0 base l true r x e = subst (RoundEnd l0 base) (sym (idle_runs l true r e)) (
    returned (idle_after true l) refl e
      (record { idle = x.idle; me = x.me; new = x.new; queue = x.queue }))
idled l0 base l false r x e = subst (RoundEnd l0 base) (sym (idle_runs l false r e)) (
    goes_on (idle_after false l) (idle-Ready l r)
      (record { idle = x.idle; me = x.me; new = x.new; queue = x.queue }))

After-task :
    (l base : Loop) (ft : FiberAndThread) (need_tick : Bool) (o : Option Loop)
    → ((threw base.thread.fibers ft.body ≡ true) → RoundEnd l base none)
    → After base ft.body o
    → RoundEnd l base (run_idle need_tick o)
unfolding run_idle
After-task l base ft true _ a (ran_on l' r x) = goes_on l' r x
After-task l base ft false _ a (ran_on l' r x) = idled l base l' _ r x refl
After-task l base ft need_tick _ a (failed h) = a h

NoIdle-middle :
    (idle : ℕ) (before : List FiberAndThread) (ft : FiberAndThread) (after : List FiberAndThread)
    → NoIdle idle (before ++ ft ∷ after)
    → NotIdle idle ft.body × NoIdle idle (before ++ after)
NoIdle-middle idle [] ft after h = h
NoIdle-middle idle (b ∷ before) ft after (hb, h) =
    let ih = NoIdle-middle idle before ft after h in (ih.0, (hb, ih.1))

-- The loop with another queue.
abbrev pub with_queue : List FiberAndThread → Loop → Loop
with_queue queue l = record l { queue = queue }

with_queue-Ready :
    (queue : List FiberAndThread) (l : Loop)
    → Ready l
    → NoIdle l.idle queue
    → Ready (with_queue queue l)
with_queue-Ready queue l r n = record {
  main = r.main;
  quiet = r.quiet;
  idle_waits = r.idle_waits;
  ended = r.ended;
  no_idle = n;
  on = r.on;
}

module _ (act : ℕ → List ℕ → Activation) (l : Loop) (r : Ready l)
    (n : (j : ℕ) (log : List ℕ) → NoIdle l.idle (act j log).schedules) where
  pub task_round :
      (task : FiberAndThread) (rest : List FiberAndThread)
      → pick l.me l.thread.fibers l.queue ≡ (some task, rest)
      → NotIdle l.idle task.body
      → NoIdle l.idle rest
      → RoundEnd l (with_queue rest l) (main_round act l)
  unfolding main_round
  task_round task rest p o m =
      let base = with_queue rest l in
      let run = run_task-After act base (with_queue-Ready rest l r m) n task o in
      let fails : threw l.thread.fibers task.body ≡ true → RoundEnd l base none =
        λ h. aborted task (ap (λ (q : Option FiberAndThread × List FiberAndThread). q.0) p) h in
      subst
        (λ (q : Option FiberAndThread × List FiberAndThread).
          RoundEnd l base (run_idle (not (is_empty q.1)) (run_task act q.0 (with_queue q.1 l))))
        (sym p) (After-task l base task (not (is_empty rest)) _ fails run)

  no_task_round :
      pick l.me l.thread.fibers l.queue ≡ (none, l.queue) → RoundEnd l l (main_round act l)
  unfolding main_round run_task
  no_task_round p =
      subst
        (λ (q : Option FiberAndThread × List FiberAndThread).
          RoundEnd l l (run_idle (not (is_empty q.1)) (run_task act q.0 (with_queue q.1 l))))
        (sym p) (rests (is_empty l.queue))
    where
      rests : (b : Bool) → RoundEnd l l (run_idle (not b) (some l))
      rests true = idled l l l _ r (same-Extends l) refl
      rests false = goes_on l r (same-Extends l)

  -- In a thread that runs its main fiber and no other, where no task is the idle fiber, now or of
  -- those that callbacks schedule, a round of `mainFun` ends in one of three ways: the thread is
  -- again so and the queue has lost the task that was taken and has at most grown at its end, or
  -- `mainFun` has returned, with the scheduler stopped and no task left, or an assertion fails,
  -- and the task that was taken is a fiber that has thrown.
  pub main_round-RoundEnd :
      RoundEnd l (with_queue (pick l.me l.thread.fibers l.queue).1 l) (main_round act l)
  main_round-RoundEnd = by_pick (pick_first l.me l.thread.fibers l.queue)
    where
      by_pick :
          Picked l.me l.thread.fibers l.queue ⊎ Waiting l.me l.thread.fibers l.queue
          → RoundEnd l (with_queue (pick l.me l.thread.fibers l.queue).1 l) (main_round act l)
      by_pick (inl p) =
          let m =
            NoIdle-middle l.idle p.before p.task p.after
              (subst (NoIdle l.idle) p.split r.no_idle) in
          subst
            (λ (q : Option FiberAndThread × List FiberAndThread).
              RoundEnd l (with_queue q.1 l) (main_round act l))
            (sym p.taken) (task_round p.task (p.before ++ p.after) p.taken m.0 m.1)
      by_pick (inr w) =
          subst
            (λ (q : Option FiberAndThread × List FiberAndThread).
              RoundEnd l (with_queue q.1 l) (main_round act l))
            (sym w.nothing) (no_task_round w.nothing)
