-- ===== src/IoManager/Contexts.antt =====
-- What `triggerEvent`, `reset` and the writes of `addEvent` in seaice/iomanager.cpp do to one context.
use seaice.Prelude.{
  ℕ, ◌≡◌, refl, Bool, true, false, not, ◌&&◌, ◌||◌, Option, none, some, if◌then◌else◌,
}
use mathlib.Core.Bool.{true≢false, false≢true}
use seaice.IoManager.{
  Events, is_none, meet, without, union, EventContext, FdContext, Wake, cb_or_fiber, reset_if,
  armed_if, reset_events, arm, Current,
}
use seaice.IoManager.Waiting.{reads, writes, waiting_if, waiter, wake_of, Armed, AllArmed, added}

abbrev pub context_of : EventContext → EventContext → Bool → Bool → FdContext
context_of r w er ew = record { read = r; write = w; events = record { read = er; write = ew } }

-- Those who wait after a change of the events `e`, for which `w` waits.
pub record Turned (e : Events) (w : Option Wake) (before after : FdContext) : Type 0 where
  pub on_read : waiter after reads ≡ (if e.read then w else waiter before reads)
  pub on_write : waiter after writes ≡ (if e.write then w else waiter before writes)
  pub armed : AllArmed after

abbrev pub left_side : Bool → Bool → Bool
left_side er a = er && not a

-- One side of a context, after the events that `a` tells have been taken from it.
side_taken :
    (a er : Bool) (c : EventContext)
    → waiting_if (left_side er a) c ≡ (if a then none else waiting_if er c)
side_taken true true c = refl
side_taken true false c = refl
side_taken false true c = refl
side_taken false false c = refl

Armed-left : (a er : Bool) (c : EventContext) → Armed er c → Armed (left_side er a) c
Armed-left true true c h = tt
Armed-left true false c h = tt
Armed-left false true c h = h
Armed-left false false c h = tt

side_reset :
    (a er : Bool) (c : EventContext)
    → waiting_if (left_side er a) (reset_if a c) ≡ (if a then none else waiting_if er c)
side_reset true true c = refl
side_reset true false c = refl
side_reset false er c = side_taken false er c

Armed-reset_if :
    (a er : Bool) (c : EventContext) → Armed er c → Armed (left_side er a) (reset_if a c)
Armed-reset_if true true c h = tt
Armed-reset_if true false c h = tt
Armed-reset_if false er c h = Armed-left false er c h

-- The events are taken, and the event contexts stay.
pub without-Turned :
    (e : Events) (ctx : FdContext)
    → AllArmed ctx
    → Turned e none ctx (record ctx { events = without ctx.events e })
without-Turned e ctx h = record {
  on_read = side_taken e.read ctx.events.read ctx.read;
  on_write = side_taken e.write ctx.events.write ctx.write;
  armed = record {
    reading = Armed-left e.read ctx.events.read ctx.read h.reading;
    writing = Armed-left e.write ctx.events.write ctx.write h.writing;
  };
}

pub reset_events-Turned :
    (e : Events) (ctx : FdContext)
    → AllArmed ctx
    → Turned e none ctx (record (reset_events e ctx) { events = without ctx.events e })
reset_events-Turned e ctx h = record {
  on_read = side_reset e.read ctx.events.read ctx.read;
  on_write = side_reset e.write ctx.events.write ctx.write;
  armed = record {
    reading = Armed-reset_if e.read ctx.events.read ctx.read h.reading;
    writing = Armed-reset_if e.write ctx.events.write ctx.write h.writing;
  };
}

wake_armed : (h : ℕ) (f cb : Option ℕ) → wake_of (some h) (cb_or_fiber cb f) ≡ added h f cb
wake_armed h f (some c) = refl
wake_armed h (some f) none = refl
wake_armed h none none = refl

module _ (h : ℕ) (f cb : Option ℕ) where
  abbrev current : Current
  current = record { sch = some h; fiber = f }

  side_armed :
      (a er : Bool) (c : EventContext)
      → waiting_if (er || a) (armed_if a current cb c)
        ≡ (if a then added h f cb else waiting_if er c)
  side_armed true true c = wake_armed h f cb
  side_armed true false c = wake_armed h f cb
  side_armed false true c = refl
  side_armed false false c = refl

  Armed-armed_if :
      (a er : Bool) (c : EventContext) → Armed er c → Armed (er || a) (armed_if a current cb c)
  Armed-armed_if true true c armed = (h, refl)
  Armed-armed_if true false c armed = (h, refl)
  Armed-armed_if false true c armed = armed
  Armed-armed_if false false c armed = tt

  pub arm-Turned :
      (e : Events) (ctx : FdContext)
      → AllArmed ctx
      → Turned e (added h f cb) ctx (arm current cb e ctx)
  arm-Turned e ctx armed = record {
    on_read = side_armed e.read ctx.events.read ctx.read;
    on_write = side_armed e.write ctx.events.write ctx.write;
    armed = record {
      reading = Armed-armed_if e.read ctx.events.read ctx.read armed.reading;
      writing = Armed-armed_if e.write ctx.events.write ctx.write armed.writing;
    };
  }

none_side : (a : Bool) (o : Option Wake) (w : Option Wake) → a ≡ false → o ≡ (if a then w else o)
none_side a o w h = rw (h) refl

-- Nothing that waits is among the events, and nothing is to wait: the context is already right.
pub kept-Turned :
    (e : Events) (w : Option Wake) (ctx : FdContext)
    → AllArmed ctx
    → e.read ≡ false
    → e.write ≡ false
    → Turned e w ctx ctx
kept-Turned e w ctx armed no_read no_write = record {
  on_read = none_side e.read (waiter ctx reads) w no_read;
  on_write = none_side e.write (waiter ctx writes) w no_write;
  armed = armed;
}

idle_side :
    (a er : Bool) (c : EventContext)
    → (er && a) ≡ false
    → waiting_if er c ≡ (if a then none else waiting_if er c)
idle_side true true c h = absurd (true≢false h)
idle_side true false c h = refl
idle_side false er c h = refl

pub idle-Turned :
    (e : Events) (ctx : FdContext)
    → AllArmed ctx
    → (ctx.events.read && e.read) ≡ false
    → (ctx.events.write && e.write) ≡ false
    → Turned e none ctx ctx
idle-Turned e ctx armed no_read no_write = record {
  on_read = idle_side e.read ctx.events.read ctx.read no_read;
  on_write = idle_side e.write ctx.events.write ctx.write no_write;
  armed = armed;
}

neither_or : (a b : Bool) → not (a || b) ≡ true → (a ≡ false) × (b ≡ false)
neither_or false false h = (refl, refl)
neither_or true b h = absurd (false≢true h)
neither_or false true h = absurd (false≢true h)

pub is_none_lem : (e : Events) → is_none e ≡ true → (e.read ≡ false) × (e.write ≡ false)
is_none_lem e h = neither_or e.read e.write h

meet_sides : (a b c d : Bool) → not (a && c || b && d) ≡ false → not (a || b) ≡ false
meet_sides true b c d h = refl
meet_sides false true c d h = refl
meet_sides false false c d h = h

pub meet-some : (a b : Events) → is_none (meet a b) ≡ false → is_none a ≡ false
meet-some a b h = meet_sides a.read a.write b.read b.write h

union_sides : (a b c d : Bool) → not (c || d) ≡ false → not ((a || c) || (b || d)) ≡ false
union_sides true b c d h = refl
union_sides false b true d h = refl
union_sides false true false d h = refl
union_sides false false false d h = h

pub union-some : (a b : Events) → is_none b ≡ false → is_none (union a b) ≡ false
union-some a b h = union_sides a.read a.write b.read b.write h
