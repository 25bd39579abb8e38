-- ===== src/Scheduler.antt =====
-- seaice/scheduler.h and seaice/scheduler.cpp: the queue of tasks, and the loop of one thread over
-- it. What a callback does when it runs is a parameter: the tasks that it schedules, and how it gives
-- the thread back.
pub mod Fibers
pub mod Queue
pub mod Rounds
pub mod Invariant
pub mod Tasks
pub mod Turns
pub mod Progress
use seaice.Prelude.{
  ℕ, suc, List, [], ◌∷◌, ◌++◌, Bool, true, false, not, ◌&&◌, ◌||◌, Option, none, some, ◌==◌,
  if◌then◌else◌, length,
}
use seaice.Scheduler.Fibers.{
  State, Fiber, Thread, init, term, except, exec, hold, is_state, state_of, new_fiber, new_thread,
  reset, swap_in, yield_to_hold, yield_to_ready, finish, throw,
}

-- The `fiber` or the `cb` of a FiberAndThread: the number of a fiber, or of a callback.
pub data Body : Type 0 where
  fiber callback : ℕ → Body

-- `thread` is the number of a thread; -1, any thread, is `none`.
pub record FiberAndThread : Type 0 where
  pub body : Body
  pub thread : Option ℕ

-- The test that makes `mainFun` pass over a task.
abbrev pub other_thread : ℕ → Option ℕ → Bool
other_thread me none = false
other_thread me (some thread) = not (thread == me)

abbrev pub runs_already : List Fiber → Body → Bool
runs_already fibers (fiber i) = is_state exec (state_of fibers i)
runs_already fibers (callback c) = false

abbrev pub passed_over : ℕ → List Fiber → FiberAndThread → Bool
passed_over me fibers ft = other_thread me ft.thread || runs_already fibers ft.body

-- The loop of `mainFun` over `m_fibers`: the task that is taken, and the rest.
unfoldable pub pick :
    ℕ → List Fiber → List FiberAndThread → Option FiberAndThread × List FiberAndThread
pick me fibers [] = (none, [])
pick me fibers (ft ∷ rest) =
    let later = pick me fibers rest in
    if passed_over me fibers ft then (later.0, ft ∷ later.1) else (some ft, rest)

abbrev pub is_empty : List FiberAndThread → Bool
is_empty [] = true
is_empty (ft ∷ rest) = false

-- `schedule`: the queue, and whether it was empty.
unfoldable pub schedule : Body → Option ℕ → List FiberAndThread → List FiberAndThread × Bool
schedule body thread queue = (queue ++ record { body = body; thread = thread } ∷ [], is_empty queue)

unfoldable pub schedule_all : List FiberAndThread → List FiberAndThread → List FiberAndThread
unfolding schedule
schedule_all [] queue = queue
schedule_all (ft ∷ rest) queue = schedule_all rest (schedule ft.body ft.thread queue).0

-- How a callback gives the thread back: it yields, it returns, or it throws.
pub data Ending : Type 0 where
  holds readies returns throws : Ending

pub record Activation : Type 0 where
  pub schedules : List FiberAndThread
  pub ending : Ending

-- The scheduler and the thread `me` that runs `mainFun`. `log` has the fibers that ran, the last
-- first; `running` is false when `mainFun` has returned.
pub record Loop : Type 0 where
  pub me : ℕ
  pub thread : Thread
  pub queue : List FiberAndThread
  pub stopped : Bool
  pub idle : ℕ
  pub cb_fiber : Option ℕ
  pub log : List ℕ
  pub running : Bool

-- `mainFun` before its loop, in a program that has the fibers: the thread's main fiber and its idle
-- fiber are made. `idle_cb` is the number of `idleFun`.
unfoldable pub main_start : ℕ → ℕ → List Fiber → List FiberAndThread → Bool → Loop
unfolding new_fiber new_thread
main_start idle_cb me fibers queue stopped = record {
  me = me;
  thread = new_fiber idle_cb (new_thread fibers);
  queue = queue;
  stopped = stopped;
  idle = length fibers;
  cb_fiber = none;
  log = [];
  running = true;
}

-- `isStoping`
abbrev pub is_stopping : Loop → Bool
is_stopping l = l.stopped && is_empty l.queue

abbrev pub give_back : Ending → Thread → Option Thread
unfolding yield_to_hold yield_to_ready finish throw
give_back holds t = yield_to_hold t
give_back readies t = yield_to_ready t
give_back returns t = finish t
give_back throws t = throw t

abbrev pub with_thread : Loop → Option Thread → Option Loop
with_thread l none = none
with_thread l (some t) = some (record l { thread = t })

-- The callback of the fiber that has just been swapped in.
abbrev pub run_callback : ℕ → Activation → Loop → Option Thread → Option Loop
unfolding schedule_all
run_callback i a l none = none
run_callback i a l (some t) =
    with_thread (record l { queue = schedule_all a.schedules l.queue; log = i ∷ l.log })
      (give_back a.ending t)

-- `swapIn` of a fiber, until it gives the thread back; `none` is an assertion that fails.
unfoldable pub run_fiber : (ℕ → List ℕ → Activation) → ℕ → Loop → Option Loop
unfolding swap_in
run_fiber act i l = run_callback i (act i l.log) l (swap_in i l.thread)

-- The part of `mainFun` for a task's fiber.
unfoldable pub run_task_fiber : (ℕ → List ℕ → Activation) → ℕ → Loop → Option Loop
unfolding run_fiber
run_task_fiber act i l =
    if is_state except (state_of l.thread.fibers i) || is_state exec (state_of l.thread.fibers i)
    then none
    else (if is_state term (state_of l.thread.fibers i) then some l else run_fiber act i l)

-- After the callback: a fiber that has not ended is not used again.
abbrev pub keep_cb_fiber : ℕ → Option Loop → Option Loop
keep_cb_fiber i none = none
keep_cb_fiber i (some l) =
    some
      (record l { cb_fiber = if is_state term (state_of l.thread.fibers i) then some i else none })

-- The fiber that `mainFun` takes for a callback.
abbrev pub take_cb_fiber : ℕ → Loop → Option (ℕ × Thread)
unfolding reset new_fiber
take_cb_fiber c l = elim l.cb_fiber [
  | none ↦ some (length l.thread.fibers, new_fiber c l.thread)
  | some i ↦ elim (reset i c l.thread) [ none ↦ none | some t ↦ some (i, t) ]
]

abbrev pub run_cb_fiber : (ℕ → List ℕ → Activation) → Loop → Option (ℕ × Thread) → Option Loop
unfolding run_fiber
run_cb_fiber act l none = none
run_cb_fiber act l (some (i, t)) = keep_cb_fiber i (run_fiber act i (record l { thread = t }))

unfoldable pub run_task : (ℕ → List ℕ → Activation) → Option FiberAndThread → Loop → Option Loop
unfolding run_task_fiber
run_task act none l = some l
run_task act (some ft) l = elim ft.body [
  | fiber i ↦ run_task_fiber act i l
  | callback c ↦ run_cb_fiber act l (take_cb_fiber c l)
]

-- `idleFun`, from where it was left: it yields, and returns when the scheduler stops.
abbrev pub idle_fun : Loop → Activation
idle_fun l = record { schedules = []; ending = if is_stopping l then returns else holds }

abbrev pub after_idle : Option Loop → Option Loop
after_idle none = none
after_idle (some l) =
    let state = state_of l.thread.fibers l.idle in
    some (record l { running = not (is_state term state || is_state except state) })

abbrev pub run_idle : Bool → Option Loop → Option Loop
unfolding run_fiber
run_idle need_tick none = none
run_idle true (some l) = some l
run_idle false (some l) = after_idle (run_fiber (λ i log. idle_fun l) l.idle l)

-- One round of `mainFun`. `need_tick` is read before the task runs.
unfoldable pub main_round : (ℕ → List ℕ → Activation) → Loop → Option Loop
unfolding pick run_task
main_round act l =
    let taken = pick l.me l.thread.fibers l.queue in
    run_idle (not (is_empty taken.1)) (run_task act taken.0 (record l { queue = taken.1 }))
