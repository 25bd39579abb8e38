-- ===== src/Tests/Fibers.antt =====
-- Runs of the scheduler, of the semaphore and of a group of workers.
use seaice.Prelude.{ℕ, ◌≤◌, ◌≡◌, refl, List, [], ◌∷◌, ◌++◌, false, none, arith, length, ◌⊎◌}
use seaice.Scheduler.{
  Body, callback, FiberAndThread, Activation, returns, Loop, main_start, main_round, pick,
}
use seaice.Scheduler.Queue.{Picked, Waiting, pick_first}
use seaice.Scheduler.Invariant.{Ready}
use seaice.Scheduler.Tasks.{main_start-Ready}
use seaice.Scheduler.Turns.{RoundEnd, with_queue, main_round-RoundEnd}
use seaice.Scheduler.Progress.{Served, rounds-Served}
use seaice.FiberSemaphore.{wait, notify_times, notify_times_lem}
use seaice.WorkerGroup.{WorkerGroup, schedules, new_group, shcedule, wait_all}
use seaice.WorkerGroup.Steps.{calls, waits, Reach, here, next}
use seaice.WorkerGroup.Limits.{Moves, work_le_batch, drained-done, waiting-Moves}

abbrev task : Body → FiberAndThread
task body = record { body = body; thread = none }

abbrev tasks : List FiberAndThread
tasks = task (callback 5) ∷ task (callback 6) ∷ []

-- Every callback returns and schedules nothing.
abbrev quick : ℕ → List ℕ → Activation
quick i log = record { schedules = []; ending = returns }

abbrev begin : Loop
unfolding main_start
begin = main_start 0 3 [] tasks false

begin-Ready : Ready begin
unfolding main_start
begin-Ready = main_start-Ready 0 3 [] tasks false (λ j. refl) (tt, (tt, tt))

pick_first_example : Picked 3 [] tasks ⊎ Waiting 3 [] tasks
pick_first_example = pick_first 3 [] tasks

main_round-RoundEnd_example :
    RoundEnd begin
      (with_queue (pick begin.me begin.thread.fibers begin.queue).1 begin)
      (main_round quick begin)
unfolding main_start
main_round-RoundEnd_example = main_round-RoundEnd quick begin begin-Ready (λ j log. tt)

rounds-Served_example : Served quick (task (callback 6)) 1 begin
unfolding main_start
rounds-Served_example =
    rounds-Served quick (task (callback 6)) begin (task (callback 5) ∷ []) [] begin-Ready
      (λ j log. tt) refl refl

abbrev waiting : List ℕ
waiting = 4 ∷ 5 ∷ []

notify_times_lem_example :
    notify_times 2 (record { num = 0; list = waiting ++ 6 ∷ [] })
    ≡ (record { num = 0; list = 6 ∷ [] }, waiting)
notify_times_lem_example = notify_times_lem waiting (6 ∷ []) 0

-- Two calls of a group of one.
abbrev busy : WorkerGroup
busy = shcedule 8 (shcedule 7 (new_group 1))

busy-Reach : Reach 1 busy
busy-Reach = next (next here (calls 7)) (calls 8)

work_le_batch_example : length busy.work ≤ 1
work_le_batch_example = work_le_batch 1 busy busy-Reach

waiting-Moves_example : Moves busy
unfolding shcedule new_group wait
waiting-Moves_example = waiting-Moves 1 busy (schedules 8) [] busy-Reach refl (omega arith)

abbrev over : WorkerGroup
over = wait_all (new_group 2)

drained-done_example : (over.work ≡ []) × (over.woken ≡ []) × (over.sem.num ≡ 0)
unfolding wait_all new_group wait
drained-done_example = drained-done 2 over (next here waits) refl
