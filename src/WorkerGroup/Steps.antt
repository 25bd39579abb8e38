-- ===== src/WorkerGroup/Steps.antt =====
-- The group as its fibers use it, in any order: what holds in every state that they reach.
use seaice.Prelude.{
  ℕ, zero, suc, ◌+◌, ◌-◌, ◌≡◌, refl, ap, List, [], ◌∷◌, ◌++◌, Bool, true, Option, arith,
  if◌then◌else◌, length, length-append,
}
use seaice.FiberSemaphore.{
  FiberSemaphore, Fair, Waited, passes, joins, Notified, wakes, counts, wait-Waited,
  notify-Notified,
}
use seaice.WorkerGroup.{
  Caller, schedules, closes, WorkerGroup, new_group, scheduled, shcedule, wait_loop, wait_all, wake,
  notified, resumed,
}

-- One call, one callback that returns, or one woken fiber that goes on.
pub data Step : WorkerGroup → WorkerGroup → Type 0 where
  calls : {g : WorkerGroup} (cb : ℕ) → Step g (shcedule cb g)
  waits : {g : WorkerGroup} → Step g (wait_all g)
  works :
      {g : WorkerGroup} (before : List ℕ) (cb : ℕ) (after : List ℕ)
      → g.work ≡ before ++ cb ∷ after
      → Step g (notified (record g { work = before ++ after }))
  resumes :
      {g : WorkerGroup} (before : List Caller) (c : Caller) (after : List Caller)
      → g.woken ≡ before ++ c ∷ after
      → Step g (resumed c (record g { woken = before ++ after }))

-- The states that a new group reaches.
pub data Reach (batch_size : ℕ) : WorkerGroup → Type 0 where
  here : Reach batch_size (new_group batch_size)
  next : {g g' : WorkerGroup} → Reach batch_size g → Step g g' → Reach batch_size g'

-- Each unit of the semaphore is with a callback, with a woken fiber, with `waitAll`, or free.
pub record Inv (batch_size : ℕ) (extra : ℕ) (g : WorkerGroup) : Type 0 where
  pub batch : g.batch_size ≡ batch_size
  pub fair : Fair g.sem.num g.sem.list
  pub units : extra + g.sem.num + length g.work + length g.woken + g.waited ≡ batch_size
  pub all_drained : g.drained ≡ true → g.waited ≡ batch_size

pub new_group-Inv : (b : ℕ) → Inv b 0 (new_group b)
unfolding new_group
new_group-Inv b = record {
  batch = refl;
  fair = new_fair b;
  units = omega arith;
  all_drained = λ h. cc;
}
  where
    new_fair : (n : ℕ) → Fair {W = Caller} n []
    new_fair zero = tt
    new_fair (suc n) = refl

module _ (b : ℕ) where
  shcedule_by :
      (cb : ℕ) (g : WorkerGroup) (p : FiberSemaphore Caller × Bool)
      → Inv b 0 g
      → Waited (schedules cb) g.sem p
      → Inv b 0 (if p.1 then scheduled cb (record g { sem = p.0 }) else record g { sem = p.0 })
  shcedule_by cb g _ v (passes n e f) = record {
    batch = v.batch;
    fair = f;
    units = omega (arith, v.units, e, length-append g.work (cb ∷ []));
    all_drained = v.all_drained;
  }
  shcedule_by cb g _ v (joins e) = record {
    batch = v.batch;
    fair = tt;
    units = omega (arith, v.units, e);
    all_drained = v.all_drained;
  }

  pub shcedule-Inv : (cb : ℕ) (g : WorkerGroup) → Inv b 0 g → Inv b 0 (shcedule cb g)
  unfolding shcedule
  shcedule-Inv cb g v = shcedule_by cb g _ v (wait-Waited (schedules cb) g.sem v.fair)

  wait_loop_by :
      (left : ℕ) (g : WorkerGroup) (p : FiberSemaphore Caller × Bool)
      → Inv b 0 g
      → suc left + g.waited ≡ b
      → Waited closes g.sem p
      → ((g' : WorkerGroup) → Inv b 0 g' → left + g'.waited ≡ b → Inv b 0 (wait_loop left g'))
      → Inv b 0 (
          if p.1
          then wait_loop left (record g { sem = p.0; waited = suc g.waited })
          else record g { sem = p.0 })
  wait_loop_by left g _ v h (passes n e f) again =
      again (record g { sem = record { num = n; list = g.sem.list }; waited = suc g.waited })
        (record {
          batch = v.batch;
          fair = f;
          units = omega (arith, v.units, e);
          all_drained = λ c. absurd (omega (arith, v.all_drained c, h));
        })
        (omega (arith, h))
  wait_loop_by left g _ v h (joins e) again = record {
    batch = v.batch;
    fair = tt;
    units = omega (arith, v.units, e);
    all_drained = v.all_drained;
  }

  pub wait_loop-Inv :
      (left : ℕ) (g : WorkerGroup) → Inv b 0 g → left + g.waited ≡ b → Inv b 0 (wait_loop left g)
  unfolding wait_loop
  wait_loop-Inv zero g v h = record {
    batch = v.batch;
    fair = v.fair;
    units = v.units;
    all_drained = λ c. omega (arith, h);
  }
  wait_loop-Inv (suc left) g v h =
      wait_loop_by left g _ v h (wait-Waited closes g.sem v.fair) (wait_loop-Inv left)

  Notified-by :
      (g : WorkerGroup) (p : FiberSemaphore Caller × Option Caller)
      → Inv b 1 g
      → Notified g.sem p
      → Inv b 0 (record g { sem = p.0; woken = wake p.1 g.woken })
  Notified-by g _ v (wakes w rest e z) = record {
    batch = v.batch;
    fair = tt;
    units = omega (arith, v.units, z, length-append g.woken (w ∷ []));
    all_drained = v.all_drained;
  }
  Notified-by g _ v (counts e) = record {
    batch = v.batch;
    fair = refl;
    units = omega (arith, v.units);
    all_drained = v.all_drained;
  }

  pub notified-Inv : (g : WorkerGroup) → Inv b 1 g → Inv b 0 (notified g)
  unfolding notified
  notified-Inv g v = Notified-by g _ v (notify-Notified g.sem v.fair)

  pub resumed-Inv : (c : Caller) (g : WorkerGroup) → Inv b 1 g → Inv b 0 (resumed c g)
  unfolding resumed
  resumed-Inv (schedules cb) g v = record {
    batch = v.batch;
    fair = v.fair;
    units = omega (arith, v.units, length-append g.work (cb ∷ []));
    all_drained = v.all_drained;
  }
  resumed-Inv closes g v =
      wait_loop-Inv (g.batch_size - suc g.waited) (record g { waited = suc g.waited })
        (record {
          batch = v.batch;
          fair = v.fair;
          units = omega (arith, v.units);
          all_drained = λ c. absurd (omega (arith, v.all_drained c, v.units));
        })
        (omega (arith, v.units, v.batch))

  -- The unit of what leaves a list is with nobody.
  pub length-middle :
      {A : Type 0} (before : List A) (a : A) (after : List A)
      → length (before ++ a ∷ after) ≡ suc (length (before ++ after))
  length-middle [] a after = refl
  length-middle (x ∷ before) a after = ap suc (length-middle before a after)
