-- ===== src/IoManager/Cancels.antt =====
-- `cancelEvent` and `cancelAllEvent` of seaice/iomanager.cpp against what they promise.
use seaice.Prelude.{
  ℕ, ◌<◌, ◌≡◌, ◌≢◌, refl, ◌∙◌, ap, List, ◌++◌, Bool, true, false, Option, none, length, inl, inr,
  Bool-cases,
}
use seaice.IoManager.{
  Events, no_events, is_none, meet, without, FdContext, new_context, Wake, Outcome, done, ◌>>=◌,
  CtlOp, IoManager, reset_events, context, store, then_reset, trigger_and_reset, cancel_at,
  cancel_all_at, only_read, only_write,
}
use seaice.IoManager.Waiting.{
  Side, reads, writes, only, cancels, cancels_all, waiter, waiters, put, both, woken, all_of,
}
use seaice.IoManager.Contexts.{reset_events-Turned, idle-Turned, is_none_lem, meet-some}
use seaice.IoManager.Interest.{IsEpoll, IsValid, Reached, store-Reached, kept, left_op-Watched}
use seaice.IoManager.Triggers.{bind_assoc}
use seaice.IoManager.Cancelled.{cancel_one, cancel_both, waiter-idle, has-hit, emptied}
use seaice.IoManager.Calls.{state_of, perform, Fits, Performed, Ended, looked_up_lem, past-Turned}

module _ {K : Type 0} (ctl : CtlOp → ℕ → Events → K → K × Bool) (registered : K → ℕ → Option Events)
    (epoll : IsEpoll ctl registered) where
  module _ (s : IoManager K) (valid : IsValid registered s) (n : ℕ) (other : n ≢ s.tick_fd) where
    trigger_and_reset_lem :
        (e : Events) (k : K) (ctx after : FdContext) (queue : List Wake)
        → (then_reset e.read only_read (ctx, s.tasks) >>= then_reset e.write only_write)
          ≡ done (after, queue)
        → trigger_and_reset ctl e n ctx s k ≡ done (store n after queue k s, true)
    trigger_and_reset_lem e k ctx after queue h =
        bind_assoc (then_reset e.read only_read (ctx, s.tasks)) (then_reset e.write only_write)
          (λ x. done (store n x.0 x.1 k s, true))
        ∙ ap (λ (o : Outcome (FdContext × List Wake)). o >>= λ x. done (store n x.0 x.1 k s, true))
            h

    cancels_inside :
        (d : Side)
        → n < length s.contexts
        → Ended ctl registered s
            (Reached registered s (put n (only d) none (waiters s)) (woken (waiters s n d)))
            (state_of (cancel_at ctl (only d) n s (context n s)))
    cancels_inside d inside =
        let ctx = context n s in
        let e = only d in
        let left = without ctx.events e in
        let after : FdContext = record (reset_events e ctx) { events = left } in
        let queue = s.tasks ++ woken (waiters s n d) in
        elim (Bool-cases (is_none (meet ctx.events e))) [
          | inl idle ↦
              let (no_read, no_write) = is_none_lem (meet ctx.events e) idle in
              let turned = idle-Turned e ctx (valid.armed n) no_read no_write in
              inl (
                s,
                rw (idle) refl,
                kept registered s valid n e none (woken (waiters s n d)) turned
                    (ap woken (waiter-idle d ctx no_read no_write)),
              )
          | inr hit ↦
              elim (left_op-Watched ctl registered epoll n s.kernel ctx.events left
                (valid.synced n other) (meet-some ctx.events e hit)) [
                  | inl (k, eq, sync) ↦ inl (
                    store n after queue k s,
                    rw (hit, eq)
                        (ap state_of (
                          trigger_and_reset_lem e k (record ctx { events = left }) after queue
                            (cancel_one d ctx s.tasks (valid.armed n) (has-hit d ctx.events hit)))),
                    store-Reached registered s valid n e none (woken (waiters s n d)) inside after k
                        queue refl (reset_events-Turned e ctx (valid.armed n)) sync,
                  )
                  | inr ((k, eq), refusal) ↦ inr (rw (hit, eq) refl, refusal)
                ]
        ]

    waiter_new : (d : Side) → waiter new_context d ≡ none
    waiter_new reads = refl
    waiter_new writes = refl

    only-some : (d : Side) → is_none (only d) ≡ false
    only-some reads = refl
    only-some writes = refl

    pub cancels-Performed :
        (d : Side) → Fits (cancels d n) s → Performed ctl registered epoll (cancels d n) s
    unfolding perform
    cancels-Performed d fits =
        let w = woken (waiters s n d) in
        rw (only-some d) (
          looked_up_lem ctl registered epoll s valid n other (cancel_at ctl (only d) n s)
            (Reached registered s (put n (only d) none (waiters s)) w) fits (cancels_inside d)
            (λ new.
              kept registered s valid n (only d) none w
                (past-Turned ctl registered epoll s valid n other (only d) new)
                (ap woken (ap (λ (c : FdContext). waiter c d) new ∙ waiter_new d))))

    all_inside :
        n < length s.contexts
        → Ended ctl registered s
            (Reached registered s (put n both none (waiters s)) (all_of both (waiters s n)))
            (state_of (cancel_all_at ctl n s (context n s)))
    all_inside inside =
        let ctx = context n s in
        let queue = s.tasks ++ all_of both (waiters s n) in
        elim (Bool-cases (is_none ctx.events)) [
          | inl idle ↦
              let (no_read, no_write) = is_none_lem ctx.events idle in
              let turned =
                idle-Turned both ctx (valid.armed n) (rw (no_read) refl) (rw (no_write) refl) in
              inl (
                s,
                rw (idle) refl,
                kept registered s valid n both none (all_of both (waiters s n)) turned
                    (rw (no_read, no_write) refl),
              )
          | inr hit ↦
              elim (left_op-Watched ctl registered epoll n s.kernel ctx.events no_events
                (valid.synced n other) hit) [
                  | inl (k, eq, sync) ↦ inl (
                    store n (emptied ctx) queue k s,
                    rw (hit, eq)
                        (ap state_of (
                          trigger_and_reset_lem ctx.events k (record ctx { events = no_events })
                            (emptied ctx) queue (cancel_both ctx s.tasks (valid.armed n)))),
                    store-Reached registered s valid n both none (all_of both (waiters s n)) inside
                        (emptied ctx) k queue refl
                        (record {
                          on_read = refl;
                          on_write = refl;
                          armed = record { reading = tt; writing = tt };
                        })
                        sync,
                  )
                  | inr ((k, eq), refusal) ↦ inr (rw (hit, eq) refl, refusal)
                ]
        ]

    pub all-Performed : Fits (cancels_all n) s → Performed ctl registered epoll (cancels_all n) s
    unfolding perform
    all-Performed fits =
        let w = all_of both (waiters s n) in
        looked_up_lem ctl registered epoll s valid n other (cancel_all_at ctl n s)
          (Reached registered s (put n both none (waiters s)) w) fits all_inside
          (λ new.
            kept registered s valid n both none w
              (past-Turned ctl registered epoll s valid n other both new) (rw (new) refl))
