-- ===== src/Scheduler/Fibers.antt =====
-- seaice/fiber.h and seaice/fiber.cpp: the fibers of a thread, their states, and which one the
-- thread runs. The switch of the machine's context is not modelled; a failed assertion is `none`.
use seaice.Prelude.{
  ℕ, List, [], ◌∷◌, ◌++◌, Bool, true, false, ◌||◌, ◌&&◌, Option, none, some, if◌then◌else◌, set,
  get_or,
}

pub data State : Type 0 where
  init ready exec hold term except : State

pub record Fiber : Type 0 where
  pub state : State
  pub cb : ℕ

-- `main` is the state of the thread's main fiber, and `current` is `t_cur_fiber`; the main fiber is
-- `none` there. A fiber is its number in `fibers`.
pub record Thread : Type 0 where
  pub main : State
  pub current : Option ℕ
  pub fibers : List Fiber

abbrev pub is_state : State → State → Bool
is_state init init = true
is_state ready ready = true
is_state exec exec = true
is_state hold hold = true
is_state term term = true
is_state except except = true
is_state a b = false

abbrev pub no_fiber : Fiber
no_fiber = record { state = term; cb = 0 }

abbrev pub state_of : List Fiber → ℕ → State
state_of fibers i = Fiber.state (get_or fibers i no_fiber)

abbrev pub set_state : ℕ → State → List Fiber → List Fiber
set_state i state fibers = set fibers i (record (get_or fibers i no_fiber) { state = state })

-- The constructor with a callback; `current` and the other fibers stay.
unfoldable pub new_fiber : ℕ → Thread → Thread
new_fiber cb t = record t { fibers = t.fibers ++ record { state = init; cb = cb } ∷ [] }

-- `getMainFiber`, the first time: the main fiber is made, and it runs.
unfoldable pub new_thread : List Fiber → Thread
new_thread fibers = record { main = exec; current = none; fibers = fibers }

unfoldable pub swap_in : ℕ → Thread → Option Thread
swap_in i t =
    let state = state_of t.fibers i in
    if is_state exec t.main && (is_state hold state || is_state init state || is_state ready state)
    then some (record { main = hold; current = some i; fibers = set_state i exec t.fibers })
    else none

unfoldable pub swap_out : Thread → Option Thread
swap_out t = if is_state hold t.main then some (record t { main = exec; current = none }) else none

-- The state of the fiber that runs is set.
abbrev pub set_current : State → Thread → Thread
set_current state t = elim t.current [
  | none ↦ record t { main = state }
  | some i ↦ record t { fibers = set_state i state t.fibers }
]

unfoldable pub yield_to_hold : Thread → Option Thread
unfolding swap_out
yield_to_hold t = swap_out (set_current hold t)

unfoldable pub yield_to_ready : Thread → Option Thread
unfolding swap_out
yield_to_ready t = swap_out (set_current ready t)

unfoldable pub reset : ℕ → ℕ → Thread → Option Thread
reset i cb t =
    let state = state_of t.fibers i in
    if is_state term state || is_state except state || is_state init state
    then some (record t { fibers = set t.fibers i (record { state = init; cb = cb }) })
    else none

-- `run` after its callback: the main fiber runs again.
abbrev pub ends : State → Thread → Option Thread
ends state t = elim t.current [
  | none ↦ none
  | some i ↦
      if is_state exec (state_of t.fibers i)
      then some (record { main = exec; current = none; fibers = set_state i state t.fibers })
      else none
]

-- `run`, where the callback returns, and where it throws.
unfoldable pub finish : Thread → Option Thread
finish t = ends term t

unfoldable pub throw : Thread → Option Thread
throw t = ends except t

-- The destructor's assertion.
unfoldable pub may_be_destroyed : State → Bool
may_be_destroyed state = is_state term state || is_state except state || is_state init state
