-- ===== src/Timer/Insertion.antt =====
-- `std::set::insert` with the `TimerCmp` of seaice/timer.cpp, by the times and addresses of the timers.
use mathlib.Core.List.{Perm}
use mathlib.Core.List.Perm
use seaice.Prelude.{
  ◌<◌, ◌≡◌, ◌⊎◌, inl, inr, refl, ap, sym, subst, List, [], ◌∷◌, Bool, true, false, All, arith,
  if◌then◌else◌, Bool-cases,
}
use seaice.Timer.{Timer, before, insert}
use seaice.Timer.Order.{IsSorted, insert-IsSorted, insert-before, insert-behind}

-- A timer with an earlier time, or with the same time at a lower address.
abbrev pub Precedes : Timer → Timer → Type 0
Precedes a b = (a.expire_ms < b.expire_ms) ⊎ ((a.expire_ms ≡ b.expire_ms) × (a.addr < b.addr))

-- Every timer precedes all that follow it.
unfoldable pub InOrder : List Timer → Type 0
InOrder [] = Unit
InOrder (x ∷ xs) = All (Precedes x) xs × InOrder xs

-- One of the timers has the time and the address of `t`.
unfoldable pub Has : Timer → List Timer → Type 0
Has t [] = ⊥
Has t (x ∷ xs) = ((x.expire_ms ≡ t.expire_ms) × (x.addr ≡ t.addr)) ⊎ Has t xs

pub before-Precedes : (a b : Timer) → before a b ≡ true → Precedes a b
unfolding before
before-Precedes a b p = ground (arith, p)

pub Precedes-before : (a b : Timer) → Precedes a b → before a b ≡ true
unfolding before
Precedes-before a b p = ground (arith, p)

neither-same :
    (a b : Timer)
    → before a b ≡ false
    → before b a ≡ false
    → (b.expire_ms ≡ a.expire_ms) × (b.addr ≡ a.addr)
unfolding before
neither-same a b p q = ground (arith, p, q)

All-before-Precedes :
    (x : Timer) (xs : List Timer) → All (λ y. before x y ≡ true) xs → All (Precedes x) xs
All-before-Precedes x [] h = tt
All-before-Precedes x (y ∷ ys) h = (before-Precedes x y h.0, All-before-Precedes x ys h.1)

All-Precedes-before :
    (x : Timer) (xs : List Timer) → All (Precedes x) xs → All (λ y. before x y ≡ true) xs
All-Precedes-before x [] h = tt
All-Precedes-before x (y ∷ ys) h = (Precedes-before x y h.0, All-Precedes-before x ys h.1)

pub IsSorted-InOrder : (xs : List Timer) → IsSorted xs → InOrder xs
unfolding IsSorted InOrder
IsSorted-InOrder [] s = tt
IsSorted-InOrder (x ∷ xs) s = (All-before-Precedes x xs s.0, IsSorted-InOrder xs s.1)

pub InOrder-IsSorted : (xs : List Timer) → InOrder xs → IsSorted xs
unfolding IsSorted InOrder
InOrder-IsSorted [] s = tt
InOrder-IsSorted (x ∷ xs) s = (All-Precedes-before x xs s.0, InOrder-IsSorted xs s.1)

-- The set has the timer too, or is as it was and has one with its time and address.
abbrev pub Inserted : Timer → List Timer → List Timer → Type 0
Inserted t xs ys = Perm ys (t ∷ xs) ⊎ ((ys ≡ xs) × Has t xs)

Inserted-cons : (t x : Timer) (xs ys : List Timer) → Inserted t xs ys → Inserted t (x ∷ xs) (x ∷ ys)
unfolding Has
Inserted-cons t x xs ys h = elim h [
  | inl p ↦ inl (Perm.trans (Perm.cons x p) (Perm.swap t x xs))
  | inr (e, found) ↦ inr (ap (◌∷◌ x) e, inr found)
]

pub insert-Inserted : (t : Timer) (xs : List Timer) → Inserted t xs (insert t xs)
unfolding insert Has
insert-Inserted t [] = inl Perm.rfl
insert-Inserted t (x ∷ xs) = elim (Bool-cases (before t x)) [
  | inl front ↦ subst (Inserted t (x ∷ xs)) (sym (insert-before t x xs front)) (inl Perm.rfl)
  | inr behind ↦
      subst (Inserted t (x ∷ xs)) (sym (insert-behind t x xs behind))
        (elim (Bool-cases (before x t)) [
          | inl after ↦
              subst (Inserted t (x ∷ xs))
                (sym (ap (λ (b : Bool). if b then x ∷ insert t xs else x ∷ xs) after))
                (Inserted-cons t x xs (insert t xs) (insert-Inserted t xs))
          | inr same ↦
              subst (Inserted t (x ∷ xs))
                (sym (ap (λ (b : Bool). if b then x ∷ insert t xs else x ∷ xs) same))
                (inr (refl, inl (neither-same t x behind same)))
        ])
]

-- An insertion into a set of timers whose times rise, and at the same time their addresses, gives
-- such a set again: it has all the timers and the new one, or it is as it was and has one with
-- the time and the address of the new one.
pub insert-InOrder :
    (t : Timer) (xs : List Timer) → InOrder xs → InOrder (insert t xs) × Inserted t xs (insert t xs)
insert-InOrder t xs s = (
  IsSorted-InOrder (insert t xs) (insert-IsSorted t xs (InOrder-IsSorted xs s)),
  insert-Inserted t xs,
)
