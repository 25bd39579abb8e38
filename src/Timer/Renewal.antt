-- ===== src/Timer/Renewal.antt =====
-- The cyclic timers of `listTimeroutCallback` in seaice/timer.cpp: how they go back to the set.
use mathlib.Core.List.{Perm, perm_middle}
use mathlib.Core.List.Perm
use seaice.Prelude.{
  ℕ, suc, ◌+◌, ◌%◌, ◌^◌, ◌≡◌, ◌≢◌, inl, inr, ap, sym, subst, List, [], ◌∷◌, ◌++◌, Bool, true, false,
  not, ◌&&◌, All, arith, if◌then◌else◌, Bool-cases,
}
use seaice.Timer.{Timer, TimerManager, refresh, insert, add_timer, added, put_back}
use seaice.Timer.Order.{IsSorted, insert-IsSorted, insert-All}
use seaice.Timer.Insertion.{Has, insert-Inserted}

-- A timer with its time counted from `now`.
abbrev pub renewed_at : ℕ → Timer → Timer
renewed_at now t = record t { expire_ms = (t.ms + now) % 2 ^ 64 }

-- The cyclic timers that are not cancelled, each with its time counted from the next reading.
pub renewed : (ℕ → ℕ) → List Timer → List Timer
renewed clock [] = []
renewed clock (t ∷ ts) =
    let rest = renewed clock ts in
    let next = renewed (λ i. clock (suc i)) ts in
    if t.cycle && not t.cancelled then renewed_at (clock 0) t ∷ next else rest

-- No two timers are one object.
unfoldable pub Distinct : List Timer → Type 0
Distinct [] = Unit
Distinct (x ∷ xs) = All (λ y. x.addr ≢ y.addr) xs × Distinct xs

-- None of the timers is one object with one of the set.
unfoldable pub Apart : List Timer → List Timer → Type 0
Apart ts set = All (λ t. All (λ y. t.addr ≢ y.addr) set) ts

Has-shared : (t : Timer) (xs : List Timer) → All (λ y. t.addr ≢ y.addr) xs → Has t xs → ⊥
unfolding Has
Has-shared t [] apart found = found
Has-shared t (x ∷ xs) apart found = elim found [
  | inl same ↦ apart.0 (sym same.1)
  | inr further ↦ Has-shared t xs apart.1 further
]

insert-Perm :
    (t : Timer) (xs : List Timer) → All (λ y. t.addr ≢ y.addr) xs → Perm (insert t xs) (t ∷ xs)
insert-Perm t xs apart = elim (insert-Inserted t xs) [
  | inl p ↦ p
  | inr (same, found) ↦ absurd (Has-shared t xs apart found)
]

Apart-insert :
    (t : Timer) (ts set : List Timer)
    → All (λ u. t.addr ≢ u.addr) ts
    → Apart ts set
    → Apart ts (insert t set)
unfolding Apart
Apart-insert t [] set h a = tt
Apart-insert t (u ∷ ts) set h a =
    (insert-All (λ y. u.addr ≢ y.addr) t set (λ e. h.0 (sym e)) a.0, Apart-insert t ts set h.1 a.1)

-- What a sequence of insertions of the timers `us` makes of a set.
pub record Joined (us set after : List Timer) : Type 0 where
  pub sorted : IsSorted after
  pub same : Perm after (us ++ set)

put_back-keeps :
    (clock : ℕ → ℕ) (t : Timer) (ts : List Timer) (m : TimerManager)
    → (t.cycle && not t.cancelled) ≡ false
    → put_back clock (t ∷ ts) m ≡ put_back clock ts m
unfolding put_back
put_back-keeps clock t ts m h = ground (arith, h)

put_back-again :
    (clock : ℕ → ℕ) (t : Timer) (ts : List Timer) (m : TimerManager)
    → (t.cycle && not t.cancelled) ≡ true
    → put_back clock (t ∷ ts) m
      ≡ put_back (λ i. clock (suc i)) ts (added (renewed_at (clock 0) t) m)
unfolding put_back add_timer refresh
put_back-again clock t ts m h = ground (arith, h)

renewed-again :
    (clock : ℕ → ℕ) (t : Timer) (ts : List Timer)
    → (t.cycle && not t.cancelled) ≡ true
    → renewed clock (t ∷ ts) ≡ renewed_at (clock 0) t ∷ renewed (λ i. clock (suc i)) ts
unfolding renewed
renewed-again clock t ts h =
    ap
      (λ (b : Bool).
        if b then renewed_at (clock 0) t ∷ renewed (λ i. clock (suc i)) ts else renewed clock ts)
      h

renewed-keeps :
    (clock : ℕ → ℕ) (t : Timer) (ts : List Timer)
    → (t.cycle && not t.cancelled) ≡ false
    → renewed clock (t ∷ ts) ≡ renewed clock ts
unfolding renewed
renewed-keeps clock t ts h =
    ap
      (λ (b : Bool).
        if b then renewed_at (clock 0) t ∷ renewed (λ i. clock (suc i)) ts else renewed clock ts)
      h

Joined-cons :
    (u : Timer) (us set after : List Timer)
    → All (λ y. u.addr ≢ y.addr) set
    → Joined us (insert u set) after
    → Joined (u ∷ us) set after
Joined-cons u us set after apart j = record {
  sorted = j.sorted;
  same =
      Perm.trans j.same
        (Perm.trans (Perm.append_left us (insert-Perm u set apart)) (perm_middle us set));
}

pub put_back-Joined :
    (clock : ℕ → ℕ) (ts : List Timer) (m : TimerManager)
    → IsSorted m.timer_set
    → Distinct ts
    → Apart ts m.timer_set
    → Joined (renewed clock ts) m.timer_set (put_back clock ts m).timer_set
unfolding put_back renewed Distinct Apart
put_back-Joined clock [] m s d a = record { sorted = s; same = Perm.rfl }
put_back-Joined clock (t ∷ ts) m s d a = elim (Bool-cases (t.cycle && not t.cancelled)) [
  | inl comes ↦
      let u = renewed_at (clock 0) t in
      let next : ℕ → ℕ = λ i. clock (suc i) in
      let rest =
        put_back-Joined next ts (added u m) (insert-IsSorted u m.timer_set s) d.1
          (Apart-insert u ts m.timer_set d.0 a.1) in
      subst (λ (us : List Timer). Joined us m.timer_set (put_back clock (t ∷ ts) m).timer_set)
        (sym (renewed-again clock t ts comes))
        (subst (λ (n : TimerManager). Joined (u ∷ renewed next ts) m.timer_set n.timer_set)
          (sym (put_back-again clock t ts m comes))
          (Joined-cons u (renewed next ts) m.timer_set _ a.0 rest))
  | inr goes ↦
      subst (λ (us : List Timer). Joined us m.timer_set (put_back clock (t ∷ ts) m).timer_set)
        (sym (renewed-keeps clock t ts goes))
        (subst (λ (n : TimerManager). Joined (renewed clock ts) m.timer_set n.timer_set)
          (sym (put_back-keeps clock t ts m goes)) (put_back-Joined clock ts m s d.1 a.1))
]
