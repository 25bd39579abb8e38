-- ===== src/IoManager/Calls.antt =====
-- A call of seaice/iomanager.cpp against what it promises: what is to be shown, and `delEvent`.
use seaice.Prelude.{
  ℕ, ◌<◌, ◌≡◌, ◌≢◌, ◌⊎◌, refl, sym, [], append-nil, Bool, Option, none, some, ltb, length, arith,
  inl, inr, Bool-cases, lt→ltb, ltb→lt, ltb→le, get_or_past,
}
use seaice.FdManager.{fd}
use seaice.IoManager.{
  Events, is_none, meet, without, FdContext, new_context, Outcome, done, asserts, ◌>>=◌, CtlOp,
  IoManager, reset_events, context, store, report, add_event, del_event, cancel_event,
  cancel_all_event, handle, looked_up, del_at,
}
use seaice.IoManager.Waiting.{
  only, Call, adds, deletes, cancels, cancels_all, happens, promised, waiters, put, woken,
}
use seaice.IoManager.Contexts.{
  Turned, reset_events-Turned, kept-Turned, idle-Turned, is_none_lem, meet-some,
}
use seaice.IoManager.Interest.{
  IsEpoll, IsValid, Reached, Refusal, store-Reached, kept, left_op-Watched,
}

abbrev pub state_of : {K : Type 0} → Outcome (IoManager K × Bool) → Outcome (IoManager K)
state_of o = o >>= λ x. done x.0

module _ {K : Type 0} (ctl : CtlOp → ℕ → Events → K → K × Bool) where
  unfoldable pub perform : Call → IoManager K → Outcome (IoManager K)
  unfolding add_event del_event cancel_event cancel_all_event handle
  perform (adds h f cb e n) s =
      state_of (add_event ctl (record { sch = some h; fiber = f }) cb e (fd n) s)
  perform (deletes e n) s = state_of (del_event ctl e (fd n) s)
  perform (cancels d n) s = state_of (cancel_event ctl (only d) (fd n) s)
  perform (cancels_all n) s = state_of (cancel_all_event ctl (fd n) s)
  perform (happens r n) s = handle ctl (report n r) s

-- The descriptors that a call is for: other than the table's size, for a report one of the table's.
abbrev pub Fits : {K : Type 0} → Call → IoManager K → Type 0
Fits (adds h f cb e n) s = Unit {0}
Fits (deletes e n) s = n ≢ length s.contexts
Fits (cancels d n) s = n ≢ length s.contexts
Fits (cancels_all n) s = n ≢ length s.contexts
Fits (happens r n) s = n < length s.contexts

-- The descriptor of a call.
abbrev pub subject : Call → ℕ
subject (adds h f cb e n) = n
subject (deletes e n) = n
subject (cancels d n) = n
subject (cancels_all n) = n
subject (happens r n) = n

-- What comes of a call where `epoll_ctl` fails: the assertion behind it, or nothing said in a turn of
-- `idleFun`, which goes on.
abbrev pub Stops : {K : Type 0} → Call → Outcome (IoManager K) → Type 0
Stops (adds h f cb e n) o = o ≡ asserts
Stops (deletes e n) o = o ≡ asserts
Stops (cancels d n) o = o ≡ asserts
Stops (cancels_all n) o = o ≡ asserts
Stops (happens r n) o = Unit {0}

-- The outcome is a state for which `goal` holds, or `epoll_ctl` has failed on a change that its set
-- allows, and its assertion fails.
abbrev pub Ended :
    {K : Type 0}
    → (CtlOp → ℕ → Events → K → K × Bool)
    → (K → ℕ → Option Events)
    → IoManager K
    → (IoManager K → Type 0)
    → Outcome (IoManager K)
    → Type 0
Ended {K} ctl registered s goal o =
    ((t : IoManager K) × (o ≡ done t) × goal t) ⊎ ((o ≡ asserts) × Refusal ctl registered s.kernel)

module _ {K : Type 0} (ctl : CtlOp → ℕ → Events → K → K × Bool) (registered : K → ℕ → Option Events)
    (epoll : IsEpoll ctl registered) where
  -- The call ends, and the state it leaves is what it promises; or `epoll_ctl` fails on a change that its
  -- set allows.
  abbrev pub Performed : Call → IoManager K → Type 0
  Performed c s =
      ((t : IoManager K) × (perform ctl c s ≡ done t)
        × (let (w, woken) = promised c (waiters s) in Reached registered s w woken t))
      ⊎ (Stops c (perform ctl c s) × Refusal ctl registered s.kernel)

  module _ (s : IoManager K) (valid : IsValid registered s) (n : ℕ) (other : n ≢ s.tick_fd) where
    -- The look-up of a descriptor other than the table's size.
    pub looked_up_lem :
        (f : FdContext → Outcome (IoManager K × Bool)) (goal : IoManager K → Type 0)
        → n ≢ length s.contexts
        → (n < length s.contexts → Ended ctl registered s goal (state_of (f (context n s))))
        → (context n s ≡ new_context → goal s)
        → Ended ctl registered s goal (state_of (looked_up ctl n s f))
    looked_up_lem f goal fits inside past = elim (Bool-cases (ltb (length s.contexts) n)) [
      | inl beyond ↦ inl (
        s,
        rw (beyond) refl,
        past (
            get_or_past s.contexts n new_context
              (ground (arith, ltb→lt (length s.contexts) n beyond))),
      )
      | inr upto ↦
          let lt : n < length s.contexts = omega (arith, ltb→le (length s.contexts) n upto, fits) in
          rw (upto, lt→ltb n (length s.contexts) lt) (inside lt)
    ]

    pub past-Turned :
        (e : Events) → context n s ≡ new_context → Turned e none (context n s) (context n s)
    past-Turned e new = idle-Turned e (context n s) (valid.armed n) (rw (new) refl) (rw (new) refl)

    deletes_inside :
        (e : Events)
        → n < length s.contexts
        → Ended ctl registered s
            (Reached registered s (put n e none (waiters s)) [])
            (state_of (del_at ctl e n s (context n s)))
    deletes_inside e inside =
        let ctx = context n s in
        let left = without ctx.events e in
        let after : FdContext = record (reset_events e ctx) { events = left } in
        elim (Bool-cases (is_none (meet ctx.events e))) [
          | inl idle ↦
              let (no_read, no_write) = is_none_lem (meet ctx.events e) idle in
              let turned = idle-Turned e ctx (valid.armed n) no_read no_write in
              inl (s, rw (idle) refl, kept registered s valid n e none [] turned refl)
          | inr hit ↦
              elim (left_op-Watched ctl registered epoll n s.kernel ctx.events left
                (valid.synced n other) (meet-some ctx.events e hit)) [
                  | inl (k, eq, sync) ↦ inl (
                    store n after s.tasks k s,
                    rw (hit, eq) refl,
                    store-Reached registered s valid n e none [] inside after k s.tasks
                        (sym (append-nil s.tasks)) (reset_events-Turned e ctx (valid.armed n)) sync,
                  )
                  | inr ((k, eq), refusal) ↦ inr (rw (hit, eq) refl, refusal)
                ]
        ]

    pub deletes-Performed : (e : Events) → Fits (deletes e n) s → Performed (deletes e n) s
    unfolding perform
    deletes-Performed e fits = elim (Bool-cases (is_none e)) [
      | inl nothing ↦
          let (no_read, no_write) = is_none_lem e nothing in
          let turned = kept-Turned e none (context n s) (valid.armed n) no_read no_write in
          inl (s, rw (nothing) refl, kept registered s valid n e none [] turned refl)
      | inr some_event ↦ rw (some_event) (
          looked_up_lem (del_at ctl e n s) (Reached registered s (put n e none (waiters s)) []) fits
            (deletes_inside e)
            (λ new. kept registered s valid n e none [] (past-Turned e new) refl))
    ]
