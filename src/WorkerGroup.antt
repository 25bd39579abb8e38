-- ===== src/WorkerGroup.antt =====
-- seaice/worker.h and seaice/worker.cpp, class WorkerGroup: callbacks of which at most `batch_size`
-- run at a time. The scheduler runs what it is given in any order, and each callback returns.
pub mod Steps
pub mod Opening
pub mod Limits
use seaice.Prelude.{
  ℕ, zero, suc, ◌+◌, ◌-◌, List, [], ◌∷◌, ◌++◌, Bool, true, false, Option, none, some, if◌then◌else◌,
}
use seaice.FiberSemaphore.{FiberSemaphore, new_semaphore, wait, notify}

-- A fiber that waits, by what it does next: `shcedule` of a callback, or the loop of `waitAll`.
pub data Caller : Type 0 where
  schedules : ℕ → Caller
  closes : Caller

-- `work` has the callbacks that the scheduler has, each with the call of `notify` before it; `woken`
-- has the fibers that `notify` has scheduled; `waited` is the counter of the loop of `waitAll`;
-- `drained` is true when this loop has ended, and `returned` is how many calls of `waitAll` have
-- returned.
pub record WorkerGroup : Type 0 where
  pub batch_size : ℕ
  pub sem : FiberSemaphore Caller
  pub finish : Bool
  pub work : List ℕ
  pub woken : List Caller
  pub waited : ℕ
  pub drained : Bool
  pub returned : ℕ

unfoldable pub new_group : ℕ → WorkerGroup
unfolding new_semaphore
new_group batch_size = record {
  batch_size = batch_size;
  sem = new_semaphore batch_size;
  finish = false;
  work = [];
  woken = [];
  waited = 0;
  drained = false;
  returned = 0;
}

-- `shcedule` from where its `wait` has returned.
abbrev pub scheduled : ℕ → WorkerGroup → WorkerGroup
scheduled cb g = record g { work = g.work ++ cb ∷ [] }

unfoldable pub shcedule : ℕ → WorkerGroup → WorkerGroup
shcedule cb g =
    let (sem, passed) = wait (schedules cb) g.sem in
    if passed then scheduled cb (record g { sem = sem }) else record g { sem = sem }

-- The loop of `waitAll` with `left` waits to come.
unfoldable pub wait_loop : ℕ → WorkerGroup → WorkerGroup
wait_loop zero g = record g { drained = true; returned = suc g.returned }
wait_loop (suc left) g =
    let (sem, passed) = wait closes g.sem in
    let more = wait_loop left (record g { sem = sem; waited = suc g.waited }) in
    if passed then more else record g { sem = sem }

-- A call that finds `m_finish` set returns at once, whatever the loop of the first has still to wait
-- for.
unfoldable pub wait_all : WorkerGroup → WorkerGroup
unfolding wait_loop
wait_all g =
    if g.finish
    then record g { returned = suc g.returned }
    else wait_loop g.batch_size (record g { finish = true })

abbrev pub wake : Option Caller → List Caller → List Caller
wake none woken = woken
wake (some c) woken = woken ++ c ∷ []

-- `doWork` after its callback, which is not in `work` any more.
unfoldable pub notified : WorkerGroup → WorkerGroup
notified g = let (sem, next) = notify g.sem in record g { sem = sem; woken = wake next g.woken }

-- A fiber that was woken goes on; it is not in `woken` any more.
unfoldable pub resumed : Caller → WorkerGroup → WorkerGroup
unfolding wait_loop
resumed (schedules cb) g = scheduled cb g
resumed closes g = wait_loop (g.batch_size - suc g.waited) (record g { waited = suc g.waited })
