-- ===== src/IoManager/Cancelled.antt =====
-- What `cancelEvent` and `cancelAllEvent` of seaice/iomanager.cpp do to a context.
use mathlib.Core.Bool.{true≢false}
use seaice.Prelude.{
  ◌≡◌, refl, ◌∙◌, ap, sym, subst, List, ◌++◌, append_assoc, Bool, true, false, not, ◌&&◌, ◌||◌,
  none,
}
use seaice.IoManager.{
  Events, no_events, is_none, meet, without, EventContext, FdContext, Wake, Outcome, done, ◌>>=◌,
  then_reset, only_read, only_write, reset_if, reset_events,
}
use seaice.IoManager.Waiting.{
  Side, reads, writes, only, has, waiting_if, waiter, woken, Armed, AllArmed, all_of, both,
}
use seaice.IoManager.Contexts.{context_of}
use seaice.IoManager.Triggers.{reset_reads, reset_writes}

cancel_reads :
    (r w : EventContext) (er ew : Bool) (queue : List Wake)
    → Armed true r
    → then_reset true only_read (
      record (context_of r w er ew) { events = without (context_of r w er ew).events only_read },
      queue,
    )
        >>= then_reset false only_write
      ≡ done (
        record (reset_events only_read (context_of r w er ew)) {
          events = without (context_of r w er ew).events only_read;
        },
        queue ++ woken (waiting_if true r),
      )
unfolding then_reset
cancel_reads r w true ew queue h =
    ap (λ (o : Outcome (FdContext × List Wake)). o >>= then_reset false only_write)
      (reset_reads r w queue true (ew && not false) h)
cancel_reads r w false ew queue h =
    ap (λ (o : Outcome (FdContext × List Wake)). o >>= then_reset false only_write)
      (reset_reads r w queue true (ew && not false) h)

cancel_writes :
    (r w : EventContext) (er ew : Bool) (queue : List Wake)
    → Armed true w
    → then_reset false only_read (
      record (context_of r w er ew) { events = without (context_of r w er ew).events only_write },
      queue,
    )
        >>= then_reset true only_write
      ≡ done (
        record (reset_events only_write (context_of r w er ew)) {
          events = without (context_of r w er ew).events only_write;
        },
        queue ++ woken (waiting_if true w),
      )
unfolding then_reset
cancel_writes r w er true queue h = reset_writes r w queue true (er && not false) h
cancel_writes r w er false queue h = reset_writes r w queue true (er && not false) h

-- One event that is waited for is cancelled.
pub cancel_one :
    (d : Side) (ctx : FdContext) (queue : List Wake)
    → AllArmed ctx
    → has ctx.events d ≡ true
    → then_reset
          (only d).read
          only_read
          (record ctx { events = without ctx.events (only d) }, queue)
        >>= then_reset (only d).write only_write
      ≡ done (
        record (reset_events (only d) ctx) { events = without ctx.events (only d) },
        queue ++ woken (waiter ctx d),
      )
cancel_one reads ctx queue h waits =
    cancel_reads ctx.read ctx.write ctx.events.read ctx.events.write queue
      (subst (λ (b : Bool). Armed b ctx.read) waits h.reading)
    ∙ ap
        (λ (b : Bool). done (
          record (reset_events only_read ctx) { events = without ctx.events only_read },
          queue ++ woken (waiting_if b ctx.read),
        ))
        (sym waits)
cancel_one writes ctx queue h waits =
    cancel_writes ctx.read ctx.write ctx.events.read ctx.events.write queue
      (subst (λ (b : Bool). Armed b ctx.write) waits h.writing)
    ∙ ap
        (λ (b : Bool). done (
          record (reset_events only_write ctx) { events = without ctx.events only_write },
          queue ++ woken (waiting_if b ctx.write),
        ))
        (sym waits)

-- A context with no events left.
abbrev pub emptied : FdContext → FdContext
emptied ctx = record (reset_events ctx.events ctx) { events = no_events }

pub cancel_both :
    (ctx : FdContext) (queue : List Wake)
    → AllArmed ctx
    → then_reset ctx.events.read only_read (record ctx { events = no_events }, queue)
        >>= then_reset ctx.events.write only_write
      ≡ done (emptied ctx, queue ++ all_of both (waiter ctx))
cancel_both ctx queue h =
    let er = ctx.events.read in
    let ew = ctx.events.write in
    let first = queue ++ woken (waiting_if er ctx.read) in
    ap (λ (o : Outcome (FdContext × List Wake)). o >>= then_reset ew only_write)
      (reset_reads ctx.read ctx.write queue er false h.reading)
    ∙ reset_writes (reset_if er ctx.read) ctx.write first ew false h.writing
    ∙ ap (λ (q : List Wake). done (emptied ctx, q))
        (append_assoc queue (woken (waiting_if er ctx.read)) (woken (waiting_if ew ctx.write)))

-- Whether one event is among those of a context.
idle_waiting : (er : Bool) (c : EventContext) → (er && true) ≡ false → waiting_if er c ≡ none
idle_waiting true c h = absurd (true≢false h)
idle_waiting false c h = refl

pub waiter-idle :
    (d : Side) (ctx : FdContext)
    → (ctx.events.read && (only d).read) ≡ false
    → (ctx.events.write && (only d).write) ≡ false
    → waiter ctx d ≡ none
waiter-idle reads ctx no_read no_write = idle_waiting ctx.events.read ctx.read no_read
waiter-idle writes ctx no_read no_write = idle_waiting ctx.events.write ctx.write no_write

hit_read : (er ew : Bool) → not (er && true || ew && false) ≡ false → er ≡ true
hit_read true ew h = refl
hit_read false true h = absurd (true≢false h)
hit_read false false h = absurd (true≢false h)

hit_write : (er ew : Bool) → not (er && false || ew && true) ≡ false → ew ≡ true
hit_write er true h = refl
hit_write true false h = absurd (true≢false h)
hit_write false false h = absurd (true≢false h)

pub has-hit : (d : Side) (e : Events) → is_none (meet e (only d)) ≡ false → has e d ≡ true
has-hit reads e h = hit_read e.read e.write h
has-hit writes e h = hit_write e.read e.write h
