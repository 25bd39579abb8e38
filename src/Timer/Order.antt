-- ===== src/Timer/Order.antt =====
-- The set of seaice/timer.cpp stays in the order of the times, and the methods take out of it what
-- has expired.
use seaice.Prelude.{
  ◌≡◌, inl, inr, refl, ◌∙◌, ap, sym, subst, List, [], ◌∷◌, Bool, true, false, All, arith,
  if◌then◌else◌, Bool-cases,
}
use mathlib.Core.Bool.{true≢false}
use seaice.Timer.{Timer, before, insert, erase, pending}

-- Every timer is in front of all that follow it.
unfoldable pub IsSorted : List Timer → Type 0
IsSorted [] = Unit
IsSorted (x ∷ xs) = All (λ y. before x y ≡ true) xs × IsSorted xs

before_trans : (a b c : Timer) → before a b ≡ true → before b c ≡ true → before a c ≡ true
unfolding before
before_trans a b c p q = ground (arith, p, q)

-- One is in front of the other, or neither is: then a third is in the same place to both.
All-before :
    (t x : Timer) (xs : List Timer)
    → before t x ≡ true
    → All (λ y. before x y ≡ true) xs
    → All (λ y. before t y ≡ true) xs
All-before t x [] p q = tt
All-before t x (y ∷ xs) p q = (before_trans t x y p q.0, All-before t x xs p q.1)

pub insert-before :
    (t x : Timer) (xs : List Timer) → before t x ≡ true → insert t (x ∷ xs) ≡ t ∷ x ∷ xs
unfolding insert
insert-before t x xs p =
    ap (λ (b : Bool). if b then t ∷ x ∷ xs else (if before x t then x ∷ insert t xs else x ∷ xs)) p

pub insert-behind :
    (t x : Timer) (xs : List Timer)
    → before t x ≡ false
    → insert t (x ∷ xs) ≡ (if before x t then x ∷ insert t xs else x ∷ xs)
unfolding insert
insert-behind t x xs p =
    ap (λ (b : Bool). if b then t ∷ x ∷ xs else (if before x t then x ∷ insert t xs else x ∷ xs)) p

-- What holds of a timer and of all in the set holds of all in the set with it.
pub insert-All {ℓ} :
    (P : Timer → Type ℓ) (t : Timer) (xs : List Timer) → P t → All P xs → All P (insert t xs)
unfolding insert
insert-All P t [] p q = (p, tt)
insert-All P t (x ∷ xs) p q = elim (Bool-cases (before t x)) [
  | inl front ↦ subst (All P) (sym (insert-before t x xs front)) (p, q)
  | inr behind ↦ subst (All P) (sym (insert-behind t x xs behind)) (elim (Bool-cases (before x t)) [
    | inl after ↦
        subst (All P) (sym (ap (λ (b : Bool). if b then x ∷ insert t xs else x ∷ xs) after))
          (q.0, insert-All P t xs p q.1)
    | inr same ↦
        subst (All P) (sym (ap (λ (b : Bool). if b then x ∷ insert t xs else x ∷ xs) same)) q
  ])
]

-- A set of timers in the order of `TimerCmp` is in this order after an insertion.
pub insert-IsSorted : (t : Timer) (xs : List Timer) → IsSorted xs → IsSorted (insert t xs)
unfolding insert IsSorted
insert-IsSorted t [] s = (tt, tt)
insert-IsSorted t (x ∷ xs) s = elim (Bool-cases (before t x)) [
  | inl front ↦
      subst IsSorted (sym (insert-before t x xs front)) ((front, All-before t x xs front s.0), s)
  | inr behind ↦
      subst IsSorted (sym (insert-behind t x xs behind)) (elim (Bool-cases (before x t)) [
        | inl after ↦
            subst IsSorted (sym (ap (λ (b : Bool). if b then x ∷ insert t xs else x ∷ xs) after))
              (insert-All (λ y. before x y ≡ true) t xs after s.0, insert-IsSorted t xs s.1)
        | inr same ↦
            subst IsSorted (sym (ap (λ (b : Bool). if b then x ∷ insert t xs else x ∷ xs) same)) s
      ])
]

erase-eq :
    (t x : Timer) (xs : List Timer)
    → erase t (x ∷ xs)
      ≡ (if before t x then x ∷ xs else (if before x t then x ∷ erase t xs else xs))
unfolding erase
erase-eq t x xs = refl

-- A choice of lists has what each has.
All-choice {ℓ} :
    (P : List Timer → Type ℓ) (b c : Bool) (xs ys zs : List Timer)
    → P xs
    → P ys
    → P zs
    → P (if b then xs else (if c then ys else zs))
All-choice P true c xs ys zs p q r = p
All-choice P false true xs ys zs p q r = q
All-choice P false false xs ys zs p q r = r

erase-All {ℓ} : (P : Timer → Type ℓ) (t : Timer) (xs : List Timer) → All P xs → All P (erase t xs)
unfolding erase
erase-All P t [] p = tt
erase-All P t (x ∷ xs) p =
    All-choice (All P) (before t x) (before x t) (x ∷ xs) (x ∷ erase t xs) xs p
      (p.0, erase-All P t xs p.1) p.1

-- A set of timers in the order of `TimerCmp` is in this order after a timer has been erased.
pub erase-IsSorted : (t : Timer) (xs : List Timer) → IsSorted xs → IsSorted (erase t xs)
unfolding erase IsSorted
erase-IsSorted t [] s = tt
erase-IsSorted t (x ∷ xs) s =
    All-choice IsSorted (before t x) (before x t) (x ∷ xs) (x ∷ erase t xs) xs s
      (erase-All (λ y. before x y ≡ true) t xs s.0, erase-IsSorted t xs s.1) s.1

-- Behind a timer that has not expired, none has.
none_before :
    (limit x : Timer) (xs : List Timer)
    → before x limit ≡ false
    → All (λ y. before x y ≡ true) xs
    → All (λ y. before y limit ≡ false) xs
none_before limit x [] p q = tt
none_before limit x (y ∷ xs) p q = (
  elim (Bool-cases (before y limit)) [
    | inl front ↦ absurd (true≢false (sym (before_trans x y limit q.0 front) ∙ p))
    | inr behind ↦ behind
  ],
  none_before limit x xs p q.1,
)

pub pending_lem :
    (limit : Timer) (xs : List Timer)
    → IsSorted xs
    → IsSorted (pending limit xs) × All (λ y. before y limit ≡ false) (pending limit xs)
unfolding pending IsSorted
pending_lem limit [] s = (tt, tt)
pending_lem limit (x ∷ xs) s = elim (Bool-cases (before x limit)) [
  | inl front ↦
      subst (λ (ys : List Timer). IsSorted ys × All (λ y. before y limit ≡ false) ys)
        (sym (ap (λ (b : Bool). if b then pending limit xs else x ∷ xs) front))
        (pending_lem limit xs s.1)
  | inr behind ↦
      subst (λ (ys : List Timer). IsSorted ys × All (λ y. before y limit ≡ false) ys)
        (sym (ap (λ (b : Bool). if b then pending limit xs else x ∷ xs) behind))
        (s, (behind, none_before limit x xs behind s.0))
]
