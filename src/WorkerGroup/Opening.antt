-- ===== src/WorkerGroup/Opening.antt =====
-- Before `waitAll` is called, no fiber is in its loop.
use mathlib.Core.Bool.{true≢false}
use seaice.Prelude.{
  All, All-append, ℕ, zero, suc, ◌-◌, ◌≡◌, refl, ◌∙◌, sym, subst, List, [], ◌∷◌, ◌++◌, Bool, true,
  false, Option, if◌then◌else◌,
}
use seaice.FiberSemaphore.{
  FiberSemaphore, wait, Fair, Waited, passes, joins, Notified, wakes, counts, wait-Waited,
  notify-Notified,
}
use seaice.WorkerGroup.{
  Caller, schedules, closes, WorkerGroup, scheduled, shcedule, wait_loop, wait_all, wake, notified,
  resumed,
}

abbrev pub Schedules : Caller → Type 0
Schedules (schedules cb) = Unit
Schedules closes = ⊥

-- Before `waitAll` is called, nobody waits in its loop.
abbrev pub Opening : WorkerGroup → Type 0
Opening g = g.finish ≡ false → (g.waited ≡ 0) × All Schedules g.sem.list × All Schedules g.woken

wait_loop-finish : (left : ℕ) (g : WorkerGroup) → (wait_loop left g).finish ≡ g.finish
unfolding wait_loop
wait_loop-finish zero g = refl
wait_loop-finish (suc left) g = by_test (wait closes g.sem) (wait_loop-finish left)
  where
    by_test :
        (p : FiberSemaphore Caller × Bool)
        → ((g' : WorkerGroup) → (wait_loop left g').finish ≡ g'.finish)
        → WorkerGroup.finish (
            if p.1
            then wait_loop left (record g { sem = p.0; waited = suc g.waited })
            else record g { sem = p.0 })
          ≡ g.finish
    by_test (sem, true) ih = ih _
    by_test (sem, false) ih = refl

pub shcedule-Opening :
    (cb : ℕ) (g : WorkerGroup) → Fair g.sem.num g.sem.list → Opening g → Opening (shcedule cb g)
unfolding shcedule
shcedule-Opening cb g f o = by_wait _ (wait-Waited (schedules cb) g.sem f)
  where
    by_wait :
        (p : FiberSemaphore Caller × Bool)
        → Waited (schedules cb) g.sem p
        → Opening (if p.1 then scheduled cb (record g { sem = p.0 }) else record g { sem = p.0 })
    by_wait _ (passes n e f) h = o h
    by_wait _ (joins e) h =
        let w = o h in (w.0, All-append Schedules g.sem.list (schedules cb ∷ []) w.1 (tt, tt), w.2)

pub wait_all-Opening : (g : WorkerGroup) → Opening g → Opening (wait_all g)
unfolding wait_all
wait_all-Opening g o = by_finish g.finish o
  where
    by_finish :
        (f : Bool)
        → Opening (record g { finish = f })
        → Opening (
            if f
            then record g { finish = f; returned = suc g.returned }
            else wait_loop g.batch_size (record g { finish = true }))
    by_finish true o h = absurd (true≢false h)
    by_finish false o h =
        absurd (true≢false (sym (wait_loop-finish g.batch_size (record g { finish = true })) ∙ h))

pub notified-Opening :
    (g : WorkerGroup) → Fair g.sem.num g.sem.list → Opening g → Opening (notified g)
unfolding notified
notified-Opening g f o = by_notify _ (notify-Notified g.sem f)
  where
    by_notify :
        (p : FiberSemaphore Caller × Option Caller)
        → Notified g.sem p
        → Opening (record g { sem = p.0; woken = wake p.1 g.woken })
    by_notify _ (wakes w rest e z) h =
        let v = o h in
        let l : All Schedules (w ∷ rest) = subst (All Schedules) e v.1 in
        (v.0, l.1, All-append Schedules g.woken (w ∷ []) v.2 (l.0, tt))
    by_notify _ (counts e) h = let v = o h in (v.0, tt, v.2)

pub All-middle :
    (before : List Caller) (c : Caller) (after : List Caller)
    → All Schedules (before ++ c ∷ after)
    → Schedules c × All Schedules (before ++ after)
All-middle [] c after h = h
All-middle (b ∷ before) c after (hb, h) = let ih = All-middle before c after h in (ih.0, (hb, ih.1))

pub resumed-Opening :
    (c : Caller) (g : WorkerGroup)
    → (g.finish ≡ false
        → (g.waited ≡ 0) × All Schedules g.sem.list × All Schedules g.woken × Schedules c)
    → Opening (resumed c g)
unfolding resumed
resumed-Opening (schedules cb) g o h = let v = o h in (v.0, v.1, v.2)
resumed-Opening closes g o h =
    let v = o (
      sym (wait_loop-finish (g.batch_size - suc g.waited) (record g { waited = suc g.waited }))
      ∙ h) in
    absurd v.3
