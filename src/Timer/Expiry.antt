-- ===== src/Timer/Expiry.antt =====
-- `listTimeroutCallback` of seaice/timer.cpp: which timers it takes, whose callbacks it hands out, and
-- what it leaves in the set.
use mathlib.Core.List.{Perm}
use mathlib.Core.Bool.{true≢false}
use seaice.Prelude.{
  ℕ, ◌≡◌, ◌≢◌, inl, inr, refl, ◌∙◌, ap, sym, subst, List, [], ◌∷◌, ◌++◌, Bool, true, false, Option,
  All, if◌then◌else◌, Bool-cases,
}
use seaice.Timer.{
  Timer, TimerManager, before, expired, pending, callbacks, put_back, list_timeout_callback,
}
use seaice.Timer.Order.{pending_lem}
use seaice.Timer.Insertion.{
  Precedes, InOrder, before-Precedes, Precedes-before, IsSorted-InOrder, InOrder-IsSorted,
}
use seaice.Timer.Renewal.{Distinct, Apart, renewed, put_back-Joined}

-- The callbacks of the timers that are not cancelled, in the order of the timers.
pub data Hands : List Timer → List (Option ℕ) → Type 0 where
  all_seen : Hands [] []
  passed :
      {t : Timer} {ts : List Timer} {cbs : List (Option ℕ)}
      → t.cancelled ≡ true
      → Hands ts cbs
      → Hands (t ∷ ts) cbs
  handed :
      {t : Timer} {ts : List Timer} {cbs : List (Option ℕ)}
      → t.cancelled ≡ false
      → Hands ts cbs
      → Hands (t ∷ ts) (t.cb ∷ cbs)

callbacks-Hands : (ts : List Timer) → Hands ts (callbacks ts)
unfolding callbacks
callbacks-Hands [] = all_seen
callbacks-Hands (t ∷ ts) = elim (Bool-cases t.cancelled) [
  | inl gone ↦
      subst (Hands (t ∷ ts))
        (sym (ap (λ (b : Bool). if b then callbacks ts else t.cb ∷ callbacks ts) gone))
        (passed gone (callbacks-Hands ts))
  | inr alive ↦
      subst (Hands (t ∷ ts))
        (sym (ap (λ (b : Bool). if b then callbacks ts else t.cb ∷ callbacks ts) alive))
        (handed alive (callbacks-Hands ts))
]

expired-pending : (limit : Timer) (xs : List Timer) → expired limit xs ++ pending limit xs ≡ xs
unfolding expired pending
expired-pending limit [] = refl
expired-pending limit (x ∷ xs) = split (before x limit) (expired-pending limit xs)
  where
    split :
        (b : Bool)
        → expired limit xs ++ pending limit xs ≡ xs
        → (if b then x ∷ expired limit xs else []) ++ (if b then pending limit xs else x ∷ xs)
          ≡ x ∷ xs
    split true e = ap (◌∷◌ x) e
    split false e = refl

expired-All :
    (limit : Timer) (xs : List Timer) → All (λ t. before t limit ≡ true) (expired limit xs)
unfolding expired
expired-All limit [] = tt
expired-All limit (x ∷ xs) = split (before x limit) refl (expired-All limit xs)
  where
    split :
        (b : Bool)
        → before x limit ≡ b
        → All (λ t. before t limit ≡ true) (expired limit xs)
        → All (λ t. before t limit ≡ true) (if b then x ∷ expired limit xs else [])
    split true p a = (p, a)
    split false p a = tt

All-Precedes :
    (limit : Timer) (xs : List Timer)
    → All (λ t. before t limit ≡ true) xs
    → All (λ t. Precedes t limit) xs
All-Precedes limit [] a = tt
All-Precedes limit (x ∷ xs) a = (before-Precedes x limit a.0, All-Precedes limit xs a.1)

All-behind :
    (limit : Timer) (xs : List Timer)
    → All (λ t. before t limit ≡ false) xs
    → All (λ t. ¬ Precedes t limit) xs
All-behind limit [] a = tt
All-behind limit (x ∷ xs) a =
    (λ p. true≢false (sym (Precedes-before x limit p) ∙ a.0), All-behind limit xs a.1)

All-parts :
    (x : Timer) (front rest : List Timer)
    → All (λ y. x.addr ≢ y.addr) (front ++ rest)
    → All (λ y. x.addr ≢ y.addr) front × All (λ y. x.addr ≢ y.addr) rest
All-parts x [] rest a = (tt, a)
All-parts x (y ∷ front) rest a = let (near, far) = All-parts x front rest a.1 in ((a.0, near), far)

Distinct-parts :
    (front rest : List Timer) → Distinct (front ++ rest) → Distinct front × Apart front rest
unfolding Distinct Apart
Distinct-parts [] rest d = (tt, tt)
Distinct-parts (x ∷ front) rest d =
    let (near, far) = All-parts x front rest d.0 in
    let (inside, across) = Distinct-parts front rest d.1 in ((near, inside), (far, across))

-- What a call of `listTimeroutCallback` gives, with the front of the set that has expired.
pub record Listed (now : ℕ) (clock : ℕ → ℕ) (m : TimerManager) (cbs : List (Option ℕ))
    (after : TimerManager) : Type 0 where
  pub front : List Timer
  pub rest : List Timer
  pub split : m.timer_set ≡ front ++ rest
  pub front_expired : All (λ t. Precedes t (record m.timer { expire_ms = now })) front
  pub rest_pending : All (λ t. ¬ Precedes t (record m.timer { expire_ms = now })) rest
  pub called : Hands front cbs
  pub in_order : InOrder after.timer_set
  pub kept : Perm after.timer_set (renewed clock front ++ rest)

-- On a set of timers that is not empty, whose times rise, and at the same time their addresses,
-- and in which no two are one object, `listTimeroutCallback` splits the set into a front that
-- precedes the present time and a rest that does not, hands out the callbacks of those in front
-- that are not cancelled, in their order, and leaves a set in the same order: all of the rest,
-- and every cyclic timer of the front that is not cancelled, with its time counted from the next
-- reading of the clock, and nothing else.
pub list_timeout_callback-Listed :
    (now : ℕ) (clock : ℕ → ℕ) (cbs : List (Option ℕ)) (t limit : Timer) (ts : List Timer)
    (ticks : ℕ)
    → InOrder (t ∷ ts)
    → Distinct (t ∷ ts)
    → (out : List (Option ℕ)) × (after : TimerManager) × (list_timeout_callback now clock cbs
          (record { timer_set = t ∷ ts; timer = limit; front_callbacks = ticks })
        ≡ (out, after))
      × Listed now clock
          (record { timer_set = t ∷ ts; timer = limit; front_callbacks = ticks })
          out
          after
unfolding list_timeout_callback
list_timeout_callback-Listed now clock cbs t limit ts ticks s d =
    let at : Timer = record limit { expire_ms = now } in
    let front = expired at (t ∷ ts) in
    let rest = pending at (t ∷ ts) in
    let whole : front ++ rest ≡ t ∷ ts = expired-pending at (t ∷ ts) in
    let (sorted, waiting) = pending_lem at (t ∷ ts) (InOrder-IsSorted (t ∷ ts) s) in
    let left : TimerManager = record { timer_set = rest; timer = at; front_callbacks = ticks } in
    let (inside, across) = Distinct-parts front rest (subst Distinct (sym whole) d) in
    let final = put_back-Joined clock front left sorted inside across in
    (
      callbacks front,
      put_back clock front left,
      refl,
      record {
        front = front;
        rest = rest;
        split = sym whole;
        front_expired = All-Precedes at front (expired-All at (t ∷ ts));
        rest_pending = All-behind at rest waiting;
        called = callbacks-Hands front;
        in_order = IsSorted-InOrder (put_back clock front left).timer_set final.sorted;
        kept = final.same;
      },
    )
