-- ===== src/IoManager/Waiting.antt =====
-- Who waits for what: the view of a context and of the table, and what the calls of seaice/iomanager.cpp
-- promise in terms of it.
use seaice.Prelude.{
  ℕ, ◌≡◌, refl, ap, sym, List, [], ◌∷◌, ◌++◌, append-nil, Bool, true, false, ◌&&◌, Option, none,
  some, ◌==◌, if◌then◌else◌,
}
use seaice.Scheduler.{Body, fiber, callback}
use seaice.IoManager.{
  Events, EventContext, FdContext, Wake, done, bodies, cb_or_fiber, wakes, trigger_if, IoManager,
  context, Reported, real_event,
}

-- READ or WRITE.
pub data Side : Type 0 where
  reads writes : Side

abbrev pub has : Events → Side → Bool
has e reads = e.read
has e writes = e.write

abbrev pub only : Side → Events
only reads = record { read = true; write = false }
only writes = record { read = false; write = true }

-- What an armed event wakes.
abbrev pub wake_of : Option ℕ → List Body → Option Wake
wake_of none bs = none
wake_of (some h) [] = none
wake_of (some h) (b ∷ rest) = some (record { sch = h; body = b })

abbrev pub waiting_if : Bool → EventContext → Option Wake
waiting_if false c = none
waiting_if true c = wake_of c.sch (bodies c)

-- What waits for an event of a descriptor.
abbrev pub waiter : FdContext → Side → Option Wake
waiter ctx reads = waiting_if ctx.events.read ctx.read
waiter ctx writes = waiting_if ctx.events.write ctx.write

abbrev pub Waiters : Type 0
Waiters = ℕ → Side → Option Wake

abbrev pub waiters : {K : Type 0} → IoManager K → Waiters
waiters s n d = waiter (context n s) d

-- The events of `e` on the descriptor `n` are waited for by `w`, all others as before.
abbrev pub put : ℕ → Events → Option Wake → Waiters → Waiters
put n e w f m d = if (m == n) && has e d then w else f m d

abbrev pub woken : Option Wake → List Wake
woken none = []
woken (some w) = w ∷ []

abbrev pub taken_if : Bool → Option Wake → List Wake
taken_if true w = woken w
taken_if false w = []

abbrev pub all_of : Events → (Side → Option Wake) → List Wake
all_of e f = taken_if e.read (f reads) ++ taken_if e.write (f writes)

pub data Call : Type 0 where
  -- The scheduler and the fiber of the thread, `cb`, the events, the descriptor.
  adds : ℕ → Option ℕ → Option ℕ → Events → ℕ → Call
  deletes : Events → ℕ → Call
  cancels : Side → ℕ → Call
  cancels_all : ℕ → Call
  -- What `epoll_wait` reports of the descriptor.
  happens : Reported → ℕ → Call

-- What `addEvent` has wait: the callback, or else the fiber, if the thread runs one.
abbrev pub added : ℕ → Option ℕ → Option ℕ → Option Wake
added h f (some c) = some (record { sch = h; body = callback c })
added h (some f) none = some (record { sch = h; body = fiber f })
added h none none = none

abbrev pub both : Events
both = record { read = true; write = true }

-- What a call promises: who waits afterwards, and who has been scheduled.
abbrev pub promised : Call → Waiters → Waiters × List Wake
promised (adds h f cb e n) w = (put n e (added h f cb) w, [])
promised (deletes e n) w = (put n e none w, [])
promised (cancels d n) w = (put n (only d) none w, woken (w n d))
promised (cancels_all n) w = (put n both none w, all_of both (w n))
promised (happens r n) w = (put n (real_event r) none w, all_of (real_event r) (w n))

-- An event that is waited for has a scheduler.
abbrev pub Armed : Bool → EventContext → Type 0
Armed false c = Unit {0}
Armed true c = (h : ℕ) × (c.sch ≡ some h)

pub record AllArmed (ctx : FdContext) : Type 0 where
  pub reading : Armed ctx.events.read ctx.read
  pub writing : Armed ctx.events.write ctx.write

woken-bodies :
    (h : ℕ) (cb f : Option ℕ)
    → wakes h (cb_or_fiber cb f) ≡ woken (wake_of (some h) (cb_or_fiber cb f))
woken-bodies h (some c) f = refl
woken-bodies h none (some f) = refl
woken-bodies h none none = refl

pub trigger_if_lem :
    (b : Bool) (c : EventContext) (queue : List Wake)
    → Armed b c
    → trigger_if b c queue ≡ done (queue ++ woken (waiting_if b c))
trigger_if_lem false c queue armed = ap done (sym (append-nil queue))
trigger_if_lem true c queue (h, has_sch) =
    rw (has_sch) (ap (λ (q : List Wake). done (queue ++ q)) (woken-bodies h c.cb c.fiber))
