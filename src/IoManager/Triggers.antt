-- ===== src/IoManager/Triggers.antt =====
-- What `triggerEvent` in seaice/iomanager.cpp schedules, in a turn of `idleFun` and in a cancelling call.
use seaice.Prelude.{
  ◌≡◌, refl, ◌∙◌, ap, sym, List, [], ◌++◌, append-nil, append_assoc, Bool, true, false, ◌&&◌,
}
use seaice.IoManager.{
  Events, meet, without, EventContext, FdContext, Wake, Outcome, done, asserts, out_of_bounds,
  ◌>>=◌, trigger_event, trigger_in, then_reset, only_read, only_write, reset_if, reset_events,
}
use seaice.IoManager.Waiting.{
  waiting_if, waiter, woken, taken_if, Armed, AllArmed, trigger_if_lem, all_of,
}
use seaice.IoManager.Contexts.{context_of, left_side}

-- The two calls of `triggerEvent` in a turn of `idleFun`.
module _ (r w : EventContext) (queue : List Wake) where
  abbrev after_both : Bool → Bool → List Wake → Outcome (FdContext × List Wake)
  after_both a b q = done (context_of r w a b, q)

  unchanged : (a b : Bool) → after_both a b queue ≡ after_both a b (queue ++ [])
  unchanged a b = ap (after_both a b) (sym (append-nil queue))

  trigger_reads :
      (a er ew : Bool)
      → Armed er r
      → trigger_in (a && er) only_read (context_of r w er ew, queue)
        ≡ done (context_of r w (left_side er a) ew, queue ++ taken_if a (waiting_if er r))
  unfolding trigger_event trigger_in
  trigger_reads true true true h =
      ap (λ (o : Outcome (List Wake)). o >>= after_both false true) (trigger_if_lem true r queue h)
  trigger_reads true true false h =
      ap (λ (o : Outcome (List Wake)). o >>= after_both false false) (trigger_if_lem true r queue h)
  trigger_reads true false ew h = unchanged false ew
  trigger_reads false true ew h = unchanged true ew
  trigger_reads false false ew h = unchanged false ew

  trigger_writes :
      (b er ew : Bool)
      → Armed ew w
      → trigger_in (b && ew) only_write (context_of r w er ew, queue)
        ≡ done (context_of r w er (left_side ew b), queue ++ taken_if b (waiting_if ew w))
  unfolding trigger_event trigger_in
  trigger_writes true true true h =
      ap (λ (o : Outcome (List Wake)). o >>= after_both true false) (trigger_if_lem true w queue h)
  trigger_writes true false true h =
      ap (λ (o : Outcome (List Wake)). o >>= after_both false false) (trigger_if_lem true w queue h)
  trigger_writes true er false h = unchanged er false
  trigger_writes false er true h = unchanged er true
  trigger_writes false er false h = unchanged er false

  -- The two calls of a cancelling function, each followed by `reset`; the events have been taken off.
  cleared_reads :
      (ew : Bool)
      → Armed true r
      → trigger_event only_read (context_of r w false ew) queue
        ≡ after_both false ew (queue ++ woken (waiting_if true r))
  unfolding trigger_event
  cleared_reads true h =
      ap (λ (o : Outcome (List Wake)). o >>= after_both false true) (trigger_if_lem true r queue h)
  cleared_reads false h =
      ap (λ (o : Outcome (List Wake)). o >>= after_both false false) (trigger_if_lem true r queue h)

  cleared_writes :
      (er : Bool)
      → Armed true w
      → trigger_event only_write (context_of r w er false) queue
        ≡ after_both er false (queue ++ woken (waiting_if true w))
  unfolding trigger_event
  cleared_writes true h =
      ap (λ (o : Outcome (List Wake)). o >>= after_both true false) (trigger_if_lem true w queue h)
  cleared_writes false h =
      ap (λ (o : Outcome (List Wake)). o >>= after_both false false) (trigger_if_lem true w queue h)

  pub reset_reads :
      (a ew : Bool)
      → Armed a r
      → then_reset a only_read (context_of r w false ew, queue)
        ≡ done (context_of (reset_if a r) w false ew, queue ++ woken (waiting_if a r))
  unfolding then_reset
  reset_reads true ew h =
      ap
        (λ (o : Outcome (FdContext × List Wake)). o >>= λ x. done (reset_events only_read x.0, x.1))
        (cleared_reads ew h)
  reset_reads false ew h = unchanged false ew

  pub reset_writes :
      (b er : Bool)
      → Armed b w
      → then_reset b only_write (context_of r w er false, queue)
        ≡ done (context_of r (reset_if b w) er false, queue ++ woken (waiting_if b w))
  unfolding then_reset
  reset_writes true er h =
      ap
        (λ (o : Outcome (FdContext × List Wake)).
          o >>= λ x. done (reset_events only_write x.0, x.1))
        (cleared_writes er h)
  reset_writes false er h = unchanged er false

left_side_meet : (a er : Bool) → left_side er (a && er) ≡ left_side er a
left_side_meet true true = refl
left_side_meet true false = refl
left_side_meet false er = refl

pub without-meet :
    (e : Events) (ctx : FdContext) → without ctx.events (meet e ctx.events) ≡ without ctx.events e
without-meet e ctx =
    rw (left_side_meet e.read ctx.events.read, left_side_meet e.write ctx.events.write) refl

-- Both events of a report.
pub trigger_both :
    (e : Events) (ctx : FdContext) (queue : List Wake)
    → AllArmed ctx
    → trigger_in (e.read && ctx.events.read) only_read (ctx, queue)
        >>= trigger_in (e.write && ctx.events.write) only_write
      ≡ done (record ctx { events = without ctx.events e }, queue ++ all_of e (waiter ctx))
trigger_both e ctx queue h =
    let er = ctx.events.read in
    let ew = ctx.events.write in
    let first = queue ++ taken_if e.read (waiting_if er ctx.read) in
    ap (λ (o : Outcome (FdContext × List Wake)). o >>= trigger_in (e.write && ew) only_write)
      (trigger_reads ctx.read ctx.write queue e.read er ew h.reading)
    ∙ trigger_writes ctx.read ctx.write first e.write (left_side er e.read) ew h.writing
    ∙ ap (λ (q : List Wake). done (record ctx { events = without ctx.events e }, q))
        (append_assoc queue (taken_if e.read (waiting_if er ctx.read))
          (taken_if e.write (waiting_if ew ctx.write)))

pub bind_assoc :
    {A B C : Type 0} (m : Outcome A) (f : A → Outcome B) (g : B → Outcome C)
    → (m >>= λ x. f x >>= g) ≡ ((m >>= f) >>= g)
bind_assoc (done a) f g = refl
bind_assoc asserts f g = refl
bind_assoc out_of_bounds f g = refl
