-- ===== src/Timer.antt =====
-- seaice/timer.h and seaice/timer.cpp: timers, and the set of them in the order of their times.
-- The present time is a parameter of every method that asks for it.
pub mod Order
pub mod Insertion
pub mod Renewal
pub mod Expiry
use seaice.Prelude.{
  ℕ, suc, ◌+◌, ◌-◌, ◌%◌, ◌^◌, List, [], ◌∷◌, Bool, true, false, not, Option, none, some, ltb, ◌==◌,
  if◌then◌else◌,
}

-- `addr` is the object's address, by which timers of the same time are ordered; a callback is named
-- by a number.
pub record Timer : Type 0 where
  pub ms : ℕ
  pub cb : Option ℕ
  pub cycle : Bool
  pub id : ℕ
  pub cancelled : Bool
  pub expire_ms : ℕ
  pub addr : ℕ

unfoldable pub new_timer : ℕ → ℕ → ℕ → ℕ → Option ℕ → Bool → Timer
new_timer now id addr time cb cycle = record {
  ms = time;
  cb = cb;
  cycle = cycle;
  id = id;
  cancelled = false;
  expire_ms = (time + now) % 2 ^ 64;
  addr = addr;
}

unfoldable pub cancel : Timer → Timer
cancel t = record t { cancelled = true; cb = none; cycle = false }

unfoldable pub refresh : ℕ → Timer → Timer
refresh now t = if t.cycle then record t { expire_ms = (t.ms + now) % 2 ^ 64 } else t

-- `TimerCmp`, on pointers that are not null.
unfoldable pub before : Timer → Timer → Bool
before a b =
    if ltb a.expire_ms b.expire_ms
    then true
    else (if ltb b.expire_ms a.expire_ms then false else ltb a.addr b.addr)

-- `std::set::insert`: nothing is added where an equivalent timer is in the set.
unfoldable pub insert : Timer → List Timer → List Timer
unfolding before
insert t [] = t ∷ []
insert t (x ∷ xs) =
    let rest = insert t xs in
    if before t x then t ∷ x ∷ xs else (if before x t then x ∷ rest else x ∷ xs)

-- `std::set::erase` of the timer that is equivalent.
pub erase : Timer → List Timer → List Timer
unfolding before
erase t [] = []
erase t (x ∷ xs) =
    let rest = erase t xs in if before t x then x ∷ xs else (if before x t then x ∷ rest else xs)

-- The set, the timer to whose time the present one is written, and how often
-- `insertTimerAtFrontCallback` has been called, which a derived class overrides.
pub record TimerManager : Type 0 where
  pub timer_set : List Timer
  pub timer : Timer
  pub front_callbacks : ℕ

abbrev pub need_tick : List Timer → ℕ
need_tick [] = 1
need_tick (t ∷ ts) = 0

abbrev pub added : Timer → TimerManager → TimerManager
unfolding insert
added t m = record m {
  timer_set = insert t m.timer_set;
  front_callbacks = m.front_callbacks + need_tick m.timer_set;
}

unfoldable pub add_timer : Timer → TimerManager → TimerManager
unfolding insert
add_timer t m = if t.cancelled then m else added t m

-- The timer is cancelled, which does not change its place in the order.
unfoldable pub del_timer : Timer → TimerManager → Timer × TimerManager
unfolding cancel erase
del_timer t m = (cancel t, record m { timer_set = erase t m.timer_set })

-- `int ret = expire - now`: the difference is cut to 32 bits, and a negative one becomes 0.
abbrev pub to_wait : ℕ → ℕ
to_wait diff = if ltb (diff % 2 ^ 32) (2 ^ 31) then diff % 2 ^ 32 else 0

unfoldable pub get_recent_timeout : ℕ → TimerManager → ℕ
get_recent_timeout now m = elim m.timer_set [
  | [] ↦ 2 ^ 31 - 1
  | t ∷ ts ↦ to_wait (if ltb t.expire_ms now then t.expire_ms + 2 ^ 64 - now else t.expire_ms - now)
]

-- The timers in front of `lower_bound`, and those from there on.
pub expired : Timer → List Timer → List Timer
unfolding before
expired limit [] = []
expired limit (x ∷ xs) = let rest = expired limit xs in if before x limit then x ∷ rest else []

pub pending : Timer → List Timer → List Timer
unfolding before
pending limit [] = []
pending limit (x ∷ xs) = let rest = pending limit xs in if before x limit then rest else x ∷ xs

-- The callbacks of the expired timers.
pub callbacks : List Timer → List (Option ℕ)
callbacks [] = []
callbacks (t ∷ ts) = let rest = callbacks ts in if t.cancelled then rest else t.cb ∷ rest

-- The expired timers that come again go back to the set. `clock` gives the readings of the clock, one
-- for every timer that is refreshed.
pub put_back : (ℕ → ℕ) → List Timer → TimerManager → TimerManager
unfolding add_timer refresh
put_back clock [] m = m
put_back clock (t ∷ ts) m =
    let kept = put_back clock ts m in
    let again = put_back (λ i. clock (suc i)) ts (add_timer (refresh (clock 0) t) m) in
    if t.cancelled then kept else (if t.cycle then again else kept)

-- `listTimeroutCallback`: the list it is given and the manager afterwards. The times that cyclic
-- timers get are counted from the readings of `clock`.
unfoldable pub list_timeout_callback :
    ℕ → (ℕ → ℕ) → List (Option ℕ) → TimerManager → List (Option ℕ) × TimerManager
unfolding expired pending callbacks put_back
list_timeout_callback now clock cbs m =
    let limit : Timer = record m.timer { expire_ms = now } in
    elim m.timer_set [
      | [] ↦ (cbs, record m { timer = limit })
      | t ∷ ts ↦ (
        callbacks (expired limit (t ∷ ts)),
        put_back clock (expired limit (t ∷ ts)) (record {
          timer_set = pending limit (t ∷ ts);
          timer = limit;
          front_callbacks = m.front_callbacks;
        }),
      )
    ]
