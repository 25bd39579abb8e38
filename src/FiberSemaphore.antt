-- ===== src/FiberSemaphore.antt =====
-- seaice/mutex.h and seaice/mutex.cpp, class FiberSemaphore: a semaphore that suspends fibers. A
-- waiter, the pair of a scheduler and a fiber, is an element of `W`.
use seaice.Prelude.{
  ℕ, zero, suc, ◌-◌, ◌≡◌, refl, sym, subst, List, [], ◌∷◌, ◌++◌, Bool, true, false, Option, none,
  some, ltb, if◌then◌else◌, length, arith,
}

pub record FiberSemaphore (W : Type 0) : Type 0 where
  pub num : ℕ
  pub list : List W

unfoldable pub new_semaphore : {W : Type 0} → ℕ → FiberSemaphore W
new_semaphore num = record { num = num; list = [] }

unfoldable pub try_wait : {W : Type 0} → FiberSemaphore W → FiberSemaphore W × Bool
try_wait s = if ltb 0 s.num then (record s { num = s.num - 1 }, true) else (s, false)

-- `wait`: whether the fiber goes on at once; otherwise it is in the list, and yields.
unfoldable pub wait : {W : Type 0} → W → FiberSemaphore W → FiberSemaphore W × Bool
wait w s =
    if ltb 0 s.num
    then (record s { num = s.num - 1 }, true)
    else (record s { list = s.list ++ w ∷ [] }, false)

-- `notify`: the waiter that it schedules, if any.
unfoldable pub notify : {W : Type 0} → FiberSemaphore W → FiberSemaphore W × Option W
notify s = elim s.list [
  | [] ↦ (record s { num = suc s.num }, none)
  | w ∷ rest ↦ (record s { list = rest }, some w)
]

-- Nobody waits while the count is positive.
abbrev pub Fair : {W : Type 0} → ℕ → List W → Type 0
Fair zero list = Unit
Fair (suc n) list = list ≡ []

-- What `wait` does: the count falls, or the fiber joins the list, with the count at 0.
pub data Waited {W : Type 0} (w : W) (s : FiberSemaphore W) : FiberSemaphore W × Bool → Type 0 where
  passes :
      (n : ℕ) → s.num ≡ suc n → Fair n s.list → Waited w s (record { num = n; list = s.list }, true)
  joins : s.num ≡ 0 → Waited w s (record { num = 0; list = s.list ++ w ∷ [] }, false)

-- What `notify` does: the first of the list is scheduled, or the count grows, with the list empty.
pub data Notified {W : Type 0} (s : FiberSemaphore W) : FiberSemaphore W × Option W → Type 0 where
  wakes :
      (w : W) (rest : List W)
      → s.list ≡ w ∷ rest
      → s.num ≡ 0
      → Notified s (record { num = 0; list = rest }, some w)
  counts : s.list ≡ [] → Notified s (record { num = suc s.num; list = [] }, none)

nil-Fair : {W : Type 0} (n : ℕ) (l : List W) → l ≡ [] → Fair n l
nil-Fair zero l h = tt
nil-Fair (suc n) l h = h

wait_passes :
    {W : Type 0} (w : W) (n : ℕ) (l : List W)
    → wait w (record { num = suc n; list = l }) ≡ (record { num = n; list = l }, true)
unfolding wait
wait_passes w n l = ground arith

wait_by :
    {W : Type 0} (w : W) (n : ℕ) (l : List W)
    → Fair n l
    → Waited w (record { num = n; list = l }) (wait w (record { num = n; list = l }))
unfolding wait
wait_by w zero l f = joins refl
wait_by w (suc n) l f =
    subst (Waited w (record { num = suc n; list = l })) (sym (wait_passes w n l))
      (passes n refl (nil-Fair n l f))

notify_by :
    {W : Type 0} (n : ℕ) (l : List W)
    → Fair n l
    → Notified (record { num = n; list = l }) (notify (record { num = n; list = l }))
unfolding notify
notify_by n [] f = counts refl
notify_by zero (w ∷ l) f = wakes w l refl refl
notify_by (suc n) (w ∷ l) f = absurd (cc)

pub wait-Waited :
    {W : Type 0} (w : W) (s : FiberSemaphore W) → Fair s.num s.list → Waited w s (wait w s)
wait-Waited w s f = wait_by w s.num s.list f

pub notify-Notified :
    {W : Type 0} (s : FiberSemaphore W) → Fair s.num s.list → Notified s (notify s)
notify-Notified s f = notify_by s.num s.list f

-- `notify`, a number of times: the waiters that it schedules, in their order.
abbrev pub add : {W : Type 0} → Option W → List W → List W
add none ws = ws
add (some w) ws = w ∷ ws

unfoldable pub notify_times : {W : Type 0} → ℕ → FiberSemaphore W → FiberSemaphore W × List W
unfolding notify
notify_times zero s = (s, [])
notify_times (suc n) s = let rest = notify_times n (notify s).0 in (rest.0, add (notify s).1 rest.1)

-- `notify` as often as there are fibers in a front of the list schedules just these, in their
-- order, and leaves the rest of the list and the count.
pub notify_times_lem :
    {W : Type 0} (ws rest : List W) (num : ℕ)
    → notify_times (length ws) (record { num = num; list = ws ++ rest })
      ≡ (record { num = num; list = rest }, ws)
unfolding notify_times
notify_times_lem [] rest num = refl
notify_times_lem (w ∷ ws) rest num = rw (notify_times_lem ws rest num) refl
