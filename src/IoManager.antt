-- ===== src/IoManager.antt =====
-- seaice/iomanager.h and seaice/iomanager.cpp: the descriptors that fibers wait for. `epoll_ctl` is a
-- parameter, so is what `epoll_wait` reports; a call holds the descriptor's mutex from end to end.
pub mod Waiting
pub mod Contexts
pub mod Interest
pub mod Triggers
pub mod Room
pub mod Cancelled
pub mod Calls
pub mod Cancels
pub mod Performs
pub mod Runs
use seaice.Prelude.{
  ℕ, ◌-◌, ◌*◌, ◌/◌, List, [], ◌∷◌, ◌++◌, map, Bool, true, false, not, ◌&&◌, ◌||◌, Option, none,
  some, ltb, if◌then◌else◌, length, get_or, set, take, replicate,
}
use seaice.Scheduler.{Body, fiber, callback}
use seaice.FdManager.{Fd, minus_one, negative, fd}

-- A union of READ and WRITE; NONE has neither.
pub record Events : Type 0 where
  pub read : Bool
  pub write : Bool

abbrev pub no_events : Events
no_events = record { read = false; write = false }

abbrev pub is_none : Events → Bool
is_none e = not (e.read || e.write)

-- `a | b`, `a & b` and `a & ~b`
abbrev pub union : Events → Events → Events
union a b = record { read = a.read || b.read; write = a.write || b.write }

abbrev pub meet : Events → Events → Events
meet a b = record { read = a.read && b.read; write = a.write && b.write }

abbrev pub without : Events → Events → Events
without a b = record { read = a.read && not b.read; write = a.write && not b.write }

-- `sch`, `cb` and `fiber`; a null pointer is `none`.
pub record EventContext : Type 0 where
  pub sch : Option ℕ
  pub cb : Option ℕ
  pub fiber : Option ℕ

abbrev pub reset : EventContext
reset = record { sch = none; cb = none; fiber = none }

-- `fd` is the place of the context in the table.
pub record FdContext : Type 0 where
  pub read : EventContext
  pub write : EventContext
  pub events : Events

abbrev pub new_context : FdContext
new_context = record { read = reset; write = reset; events = no_events }

-- A call of `schedule`: the scheduler, and what it is given.
pub record Wake : Type 0 where
  pub sch : ℕ
  pub body : Body

-- What a call gives: a value, or that an assertion fails, or that it reads past the end of the table.
pub data Outcome (A : Type 0) : Type 0 where
  done : A → Outcome A
  asserts : Outcome A
  out_of_bounds : Outcome A

infixl 5 ◌>>=◌
abbrev pub ◌>>=◌ : {A B : Type 0} → Outcome A → (A → Outcome B) → Outcome B
◌>>=◌ (done a) k = k a
◌>>=◌ asserts k = asserts
◌>>=◌ out_of_bounds k = out_of_bounds

-- What `triggerEvent` schedules for one event: its `cb` or else its `fiber`.
abbrev pub cb_or_fiber : Option ℕ → Option ℕ → List Body
cb_or_fiber (some c) f = callback c ∷ []
cb_or_fiber none (some f) = fiber f ∷ []
cb_or_fiber none none = []

abbrev pub bodies : EventContext → List Body
bodies c = cb_or_fiber c.cb c.fiber

abbrev pub wakes : ℕ → List Body → List Wake
wakes h [] = []
wakes h (b ∷ rest) = record { sch = h; body = b } ∷ wakes h rest

abbrev pub schedule_on : Option ℕ → List Body → List Wake → Outcome (List Wake)
schedule_on none bs queue = asserts
schedule_on (some h) bs queue = done (queue ++ wakes h bs)

abbrev pub trigger_if : Bool → EventContext → List Wake → Outcome (List Wake)
trigger_if false c queue = done queue
trigger_if true c queue = schedule_on c.sch (bodies c) queue

-- `triggerEvent`: the context, and all that has been scheduled.
unfoldable pub trigger_event : Events → FdContext → List Wake → Outcome (FdContext × List Wake)
trigger_event e ctx queue = do
  after_read ← trigger_if e.read ctx.read queue
  after_write ← trigger_if e.write ctx.write after_read
  done (record ctx { events = without ctx.events e }, after_write)

abbrev pub reset_if : Bool → EventContext → EventContext
reset_if b c = if b then reset else c

abbrev pub reset_events : Events → FdContext → FdContext
reset_events e ctx = record ctx {
  read = reset_if e.read ctx.read;
  write = reset_if e.write ctx.write;
}

pub data CtlOp : Type 0 where
  ctl_add ctl_mod ctl_del : CtlOp

-- `mFdCtxs`, all that has been scheduled, the state of `m_epollfds`, and the end of the pipe that the
-- constructor has it watch, `m_tickFds[1]`.
pub record IoManager (K : Type 0) : Type 0 where
  pub contexts : List FdContext
  pub tasks : List Wake
  pub kernel : K
  pub tick_fd : ℕ

-- `mFdCtxs.resize(n)`, and a new context in each new place.
abbrev pub fresh : ℕ → List FdContext
fresh n = replicate n new_context

unfoldable pub resize_fd_context : ℕ → List FdContext → List FdContext
resize_fd_context n cs =
    if ltb n (length cs) then cs else take (n * 3 / 2) cs ++ fresh (n * 3 / 2 - length cs)

-- The thread's scheduler and its fiber, `Scheduler::getThis()` and `Fiber::getThis()`; each may be a
-- null pointer.
pub record Current : Type 0 where
  pub sch : Option ℕ
  pub fiber : Option ℕ

abbrev pub armed : Current → Option ℕ → EventContext
armed cur cb = record { sch = cur.sch; cb = cb; fiber = cur.fiber }

abbrev pub armed_if : Bool → Current → Option ℕ → EventContext → EventContext
armed_if b cur cb c = if b then armed cur cb else c

abbrev pub arm : Current → Option ℕ → Events → FdContext → FdContext
arm cur cb e ctx = record {
  read = armed_if e.read cur cb ctx.read;
  write = armed_if e.write cur cb ctx.write;
  events = union ctx.events e;
}

-- The calls of `epoll_ctl`: a context that is not in the set is added to it, and one with no events
-- left is taken from it.
abbrev pub add_op : Events → CtlOp
add_op before = if is_none before then ctl_add else ctl_mod

abbrev pub left_op : Events → CtlOp
left_op left = if is_none left then ctl_del else ctl_mod

abbrev pub only_read : Events
only_read = record { read = true; write = false }

abbrev pub only_write : Events
only_write = record { read = false; write = true }

unfoldable pub trigger_in : Bool → Events → FdContext × List Wake → Outcome (FdContext × List Wake)
unfolding trigger_event
trigger_in false e x = done x
trigger_in true e (ctx, queue) = trigger_event e ctx queue

unfoldable pub then_reset : Bool → Events → FdContext × List Wake → Outcome (FdContext × List Wake)
unfolding trigger_event
then_reset false e x = done x
then_reset true e (ctx, queue) = do
  (after, woken) ← trigger_event e ctx queue
  done (reset_events e after, woken)

-- The `events` of an `epoll_event`.
pub record Reported : Type 0 where
  pub epoll_in : Bool
  pub epoll_out : Bool
  pub epoll_err : Bool
  pub epoll_hup : Bool

-- `real_event` before it meets the descriptor's events: an error or a hang-up is both.
abbrev pub real_event : Reported → Events
real_event r = record {
  read = r.epoll_err || r.epoll_hup || r.epoll_in;
  write = r.epoll_err || r.epoll_hup || r.epoll_out;
}

-- What one turn of `idleFun` is given: a byte in the pipe, or a descriptor with its events.
pub data Report : Type 0 where
  tick : Report
  report : ℕ → Reported → Report

abbrev pub checked : {K A : Type 0} → K × Bool → (K → Outcome A) → Outcome A
checked (k, true) f = f k
checked (k, false) f = asserts

abbrev pub context : {K : Type 0} → ℕ → IoManager K → FdContext
context n s = get_or s.contexts n new_context

abbrev pub store : {K : Type 0} → ℕ → FdContext → List Wake → K → IoManager K → IoManager K
store n ctx queue k s = record s { contexts = set s.contexts n ctx; tasks = queue; kernel = k }

module _ {K : Type 0} (ctl : CtlOp → ℕ → Events → K → K × Bool) where
  abbrev pub add_at : Current → Option ℕ → Events → ℕ → IoManager K → Outcome (IoManager K × Bool)
  add_at cur cb e n s =
      if not (ltb n (length s.contexts))
      then out_of_bounds
      else (let ctx = context n s in
          let after = arm cur cb e ctx in
          checked (ctl (add_op ctx.events) n after.events s.kernel)
            (λ k. done (store n after s.tasks k s, true)))

  -- `addEvent`: `true` is 0, `false` is -1.
  unfoldable pub add_event :
      Current → Option ℕ → Events → Fd → IoManager K → Outcome (IoManager K × Bool)
  unfolding resize_fd_context
  add_event cur cb e minus_one s = done (s, false)
  add_event cur cb e negative s = done (s, false)
  add_event cur cb e (fd n) s =
      if is_none e
      then done (s, false)
      else (add_at cur cb e n (record s { contexts = resize_fd_context n s.contexts }))

  -- The look-up that `delEvent`, `cancelEvent` and `cancelAllEvent` share: `(int)size < fd` returns.
  abbrev pub looked_up :
      ℕ → IoManager K → (FdContext → Outcome (IoManager K × Bool)) → Outcome (IoManager K × Bool)
  looked_up n s k =
      if ltb (length s.contexts) n
      then done (s, false)
      else (if not (ltb n (length s.contexts)) then out_of_bounds else k (context n s))

  abbrev pub del_at : Events → ℕ → IoManager K → FdContext → Outcome (IoManager K × Bool)
  del_at e n s ctx =
      if is_none (meet ctx.events e)
      then done (s, false)
      else (let left = without ctx.events e in
          let after = record (reset_events e ctx) { events = left } in
          checked (ctl (left_op left) n left s.kernel)
            (λ k. done (store n after s.tasks k s, true)))

  -- `delEvent` returns nothing: `true` is that it has reached its end.
  unfoldable pub del_event : Events → Fd → IoManager K → Outcome (IoManager K × Bool)
  del_event e minus_one s = done (s, false)
  del_event e negative s = done (s, false)
  del_event e (fd n) s = if is_none e then done (s, false) else looked_up n s (del_at e n s)

  -- `triggerEvent` and `reset` for the events of `e`, READ first.
  abbrev pub trigger_and_reset :
      Events → ℕ → FdContext → IoManager K → K → Outcome (IoManager K × Bool)
  trigger_and_reset e n ctx s k = do
    x ← then_reset e.read only_read (ctx, s.tasks)
    (after, queue) ← then_reset e.write only_write x
    done (store n after queue k s, true)

  abbrev pub cancel_at : Events → ℕ → IoManager K → FdContext → Outcome (IoManager K × Bool)
  cancel_at e n s ctx =
      if is_none (meet ctx.events e)
      then done (s, false)
      else (let left = without ctx.events e in
          checked (ctl (left_op left) n left s.kernel)
            (trigger_and_reset e n (record ctx { events = left }) s))

  unfoldable pub cancel_event : Events → Fd → IoManager K → Outcome (IoManager K × Bool)
  cancel_event e minus_one s = done (s, false)
  cancel_event e negative s = done (s, false)
  cancel_event e (fd n) s = if is_none e then done (s, false) else looked_up n s (cancel_at e n s)

  abbrev pub cancel_all_at : ℕ → IoManager K → FdContext → Outcome (IoManager K × Bool)
  cancel_all_at n s ctx =
      if is_none ctx.events
      then done (s, false)
      else (checked (ctl ctl_del n no_events s.kernel)
          (trigger_and_reset ctx.events n (record ctx { events = no_events }) s))

  unfoldable pub cancel_all_event : Fd → IoManager K → Outcome (IoManager K × Bool)
  cancel_all_event minus_one s = done (s, false)
  cancel_all_event negative s = done (s, false)
  cancel_all_event (fd n) s = looked_up n s (cancel_all_at n s)

  -- `idleFun` for one descriptor. Its `epoll_ctl` may fail; the event contexts are not reset.
  abbrev pub handle_at : Events → ℕ → IoManager K → FdContext → Outcome (IoManager K)
  handle_at e n s ctx = do
    let real = meet e ctx.events
    let left = without ctx.events real
    x ← trigger_in real.read only_read (ctx, s.tasks)
    (after, queue) ← trigger_in real.write only_write x
    done (store n after queue (ctl (left_op left) n left s.kernel).0 s)

  unfoldable pub handle : Report → IoManager K → Outcome (IoManager K)
  handle tick s = done s
  handle (report n r) s =
      if not (ltb n (length s.contexts))
      then out_of_bounds
      else handle_at (real_event r) n s (context n s)

  unfoldable pub handle_all : List Report → IoManager K → Outcome (IoManager K)
  unfolding handle
  handle_all [] s = done s
  handle_all (r ∷ rest) s = do t ← handle r s; handle_all rest t

  -- One round of `idleFun` on the scheduler `self`: the timers' callbacks, then what was reported.
  unfoldable pub idle_round : ℕ → List ℕ → List Report → IoManager K → Outcome (IoManager K)
  unfolding handle_all
  idle_round self callbacks reports s =
      handle_all reports (record s { tasks = s.tasks ++ wakes self (map callback callbacks) })

  -- The constructor, from an empty `m_epollfds`: it adds an end of the pipe to the set.
  unfoldable pub new_io : ℕ → K → Outcome (IoManager K)
  unfolding resize_fd_context
  new_io end k = checked (ctl ctl_add end only_read k) (λ k'.
      done (record { contexts = resize_fd_context 64 []; tasks = []; kernel = k'; tick_fd = end }))
