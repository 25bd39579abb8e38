-- ===== src/WorkerGroup/Limits.antt =====
-- What holds in every state that the group's fibers reach.
use seaice.Prelude.{
  All, ℕ, zero, suc, ◌+◌, ◌≤◌, ◌<◌, ◌≡◌, refl, ap, subst, List, [], ◌∷◌, ◌++◌, Bool, true, false,
  arith, if◌then◌else◌, length,
}
use seaice.FiberSemaphore.{new_semaphore, Fair}
use seaice.WorkerGroup.{Caller, WorkerGroup, new_group, wait_loop, wait_all}
use seaice.WorkerGroup.Steps.{
  Step, calls, waits, works, resumes, Reach, here, next, Inv, new_group-Inv, shcedule-Inv,
  wait_loop-Inv, notified-Inv, resumed-Inv, length-middle,
}
use seaice.WorkerGroup.Opening.{
  Schedules, Opening, shcedule-Opening, wait_all-Opening, notified-Opening, resumed-Opening,
  All-middle,
}

-- What holds of a group between the steps.
pub record Holds (b : ℕ) (g : WorkerGroup) : Type 0 where
  pub inv : Inv b 0 g
  pub opening : Opening g

wait_all-Inv : (b : ℕ) (g : WorkerGroup) → Inv b 0 g → Opening g → Inv b 0 (wait_all g)
unfolding wait_all
wait_all-Inv b g v o = by_finish g.finish v o
  where
    by_finish :
        (f : Bool)
        → Inv b 0 (record g { finish = f })
        → Opening (record g { finish = f })
        → Inv b 0 (
            if f
            then record g { finish = f; returned = suc g.returned }
            else wait_loop g.batch_size (record g { finish = true }))
    by_finish true v o = record {
      batch = v.batch;
      fair = v.fair;
      units = v.units;
      all_drained = v.all_drained;
    }
    by_finish false v o =
        wait_loop-Inv b g.batch_size (record g { finish = true })
          (record { batch = v.batch; fair = v.fair; units = v.units; all_drained = v.all_drained })
          (omega (arith, v.batch, (o refl).0))

Step-Holds : (b : ℕ) (g g' : WorkerGroup) → Holds b g → Step g g' → Holds b g'
Step-Holds b g _ v (calls cb) = record {
  inv = shcedule-Inv b cb g v.inv;
  opening = shcedule-Opening cb g v.inv.fair v.opening;
}
Step-Holds b g _ v waits = record {
  inv = wait_all-Inv b g v.inv v.opening;
  opening = wait_all-Opening g v.opening;
}
Step-Holds b g _ v (works before cb after e) =
    let i = v.inv in
    record {
      inv =
          notified-Inv b (record g { work = before ++ after })
            (record {
              batch = i.batch;
              fair = i.fair;
              units = omega (arith, i.units, ap length e, length-middle b before cb after);
              all_drained = i.all_drained;
            });
      opening = notified-Opening (record g { work = before ++ after }) i.fair v.opening;
    }
Step-Holds b g _ v (resumes before c after e) =
    let i = v.inv in
    record {
      inv =
          resumed-Inv b c (record g { woken = before ++ after })
            (record {
              batch = i.batch;
              fair = i.fair;
              units = omega (arith, i.units, ap length e, length-middle b before c after);
              all_drained = i.all_drained;
            });
      opening =
          resumed-Opening c (record g { woken = before ++ after })
            (λ h.
              let o = v.opening h in
              let m = All-middle before c after (subst (All Schedules) e o.2) in
              (o.0, o.1, m.1, m.0));
    }

pub Reach-Holds : {b : ℕ} (g : WorkerGroup) → Reach b g → Holds b g
unfolding new_group new_semaphore
Reach-Holds {b} _ here = record { inv = new_group-Inv b; opening = λ h. (refl, tt, tt) }
Reach-Holds {b} _ (next {g} {g'} r s) = Step-Holds b g g' (Reach-Holds g r) s

-- In every state that a group reaches by calls, callbacks that return and woken fibers that go
-- on, in any order, the scheduler has at most `batch_size` of its callbacks.
pub work_le_batch : (b : ℕ) (g : WorkerGroup) → Reach b g → length g.work ≤ b
work_le_batch b g r = omega (arith, (Reach-Holds g r).inv.units)

length_zero : {A : Type 0} (l : List A) → length l ≡ 0 → l ≡ []
length_zero [] h = refl
length_zero (x ∷ l) h = absurd (omega (arith, h))

-- In every state that a group reaches by calls, callbacks that return and woken fibers that go
-- on, in any order: once the loop of the first call of `waitAll` has ended, no callback of the
-- group is left, no woken fiber either, and the semaphore's count is 0.
pub drained-done :
    (b : ℕ) (g : WorkerGroup)
    → Reach b g
    → g.drained ≡ true
    → (g.work ≡ []) × (g.woken ≡ []) × (g.sem.num ≡ 0)
drained-done b g r h =
    let i = (Reach-Holds g r).inv in
    let w = i.all_drained h in
    (
      length_zero g.work (omega (arith, i.units, w)),
      length_zero g.woken (omega (arith, i.units, w)),
      omega (arith, i.units, w),
    )

Fair-num : {W : Type 0} (n : ℕ) (w : W) (l rest : List W) → Fair n l → l ≡ w ∷ rest → n ≡ 0
Fair-num zero w l rest f h = refl
Fair-num (suc n) w l rest f h = absurd (cc)

-- A callback that returns, or a woken fiber that goes on.
pub data Moves (g : WorkerGroup) : Type 0 where
  returns : (before : List ℕ) (cb : ℕ) (after : List ℕ) → g.work ≡ before ++ cb ∷ after → Moves g
  goes_on :
      (before : List Caller) (c : Caller) (after : List Caller)
      → g.woken ≡ before ++ c ∷ after
      → Moves g

Moves-by :
    (g : WorkerGroup) (work : List ℕ) (woken : List Caller)
    → g.work ≡ work
    → g.woken ≡ woken
    → 0 < length work + length woken
    → Moves g
Moves-by g [] [] p q h = absurd (omega (arith, h))
Moves-by g [] (c ∷ woken) p q h = goes_on [] c woken q
Moves-by g (cb ∷ work) woken p q h = returns [] cb work p

-- In every state that a group reaches, where a fiber waits and the loop of `waitAll` has not made
-- all its waits, a callback of the group has still to return or a woken fiber to go on.
pub waiting-Moves :
    (b : ℕ) (g : WorkerGroup) (c : Caller) (rest : List Caller)
    → Reach b g
    → g.sem.list ≡ c ∷ rest
    → g.waited < b
    → Moves g
waiting-Moves b g c rest r l w =
    let i = (Reach-Holds g r).inv in
    Moves-by g g.work g.woken refl refl
      (omega (arith, i.units, Fair-num g.sem.num c g.sem.list rest i.fair l))
