-- ===== src/Prelude/Entries.antt =====
-- Reading a list at an index after a write in place, and after an append.
use Prim.Native.Nat.{ℕ, zero, suc, ◌≤◌, ◌<◌}
use mathlib.Core.Path.{◌≡◌, refl, ap}
use mathlib.Core.Logic.{◌≢◌}
use mathlib.Core.List.{List, [], ◌∷◌, ◌++◌}
use native.Mathlib.Omega.{arith}
use seaice.Prelude.Lists.{length, get_or, set, replicate}

module _ {ℓ} {A : Type ℓ} where
  pub length-set : (xs : List A) (n : ℕ) (v : A) → length (set xs n v) ≡ length xs
  length-set [] n v = refl
  length-set (x ∷ xs) zero v = refl
  length-set (x ∷ xs) (suc n) v = ap suc (length-set xs n v)

  pub get_or-set_same :
      (xs : List A) (n : ℕ) (v d : A) → n < length xs → get_or (set xs n v) n d ≡ v
  get_or-set_same [] n v d h = absurd (omega arith)
  get_or-set_same (x ∷ xs) zero v d h = refl
  get_or-set_same (x ∷ xs) (suc n) v d h = get_or-set_same xs n v d (omega arith)

  pub get_or-set_other :
      (xs : List A) (n m : ℕ) (v d : A) → n ≢ m → get_or (set xs n v) m d ≡ get_or xs m d
  get_or-set_other [] n m v d h = refl
  get_or-set_other (x ∷ xs) zero zero v d h = absurd (h refl)
  get_or-set_other (x ∷ xs) zero (suc m) v d h = refl
  get_or-set_other (x ∷ xs) (suc n) zero v d h = refl
  get_or-set_other (x ∷ xs) (suc n) (suc m) v d h = get_or-set_other xs n m v d (λ e. h (ap suc e))

  pub get_or-replicate : (n m : ℕ) (d : A) → get_or (replicate n d) m d ≡ d
  get_or-replicate zero m d = refl
  get_or-replicate (suc n) zero d = refl
  get_or-replicate (suc n) (suc m) d = get_or-replicate n m d

  pub get_or-append :
      (xs : List A) (k m : ℕ) (d : A) → get_or (xs ++ replicate k d) m d ≡ get_or xs m d
  get_or-append [] k m d = get_or-replicate k m d
  get_or-append (x ∷ xs) k zero d = refl
  get_or-append (x ∷ xs) k (suc m) d = get_or-append xs k m d

  pub get_or-append_lt :
      (xs ys : List A) (m : ℕ) (d : A) → m < length xs → get_or (xs ++ ys) m d ≡ get_or xs m d
  get_or-append_lt [] ys m d h = absurd (omega arith)
  get_or-append_lt (x ∷ xs) ys zero d h = refl
  get_or-append_lt (x ∷ xs) ys (suc m) d h = get_or-append_lt xs ys m d (omega arith)

  pub get_or-append_at :
      (xs : List A) (y : A) (ys : List A) (d : A) → get_or (xs ++ y ∷ ys) (length xs) d ≡ y
  get_or-append_at [] y ys d = refl
  get_or-append_at (x ∷ xs) y ys d = get_or-append_at xs y ys d

  pub get_or_past : (xs : List A) (m : ℕ) (d : A) → length xs ≤ m → get_or xs m d ≡ d
  get_or_past [] m d h = refl
  get_or_past (x ∷ xs) zero d h = absurd (omega arith)
  get_or_past (x ∷ xs) (suc m) d h = get_or_past xs m d (omega arith)
