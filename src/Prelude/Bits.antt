-- ===== src/Prelude/Bits.antt =====
-- The bit operations of the native numbers at variables, by one step on the lowest digit.
use Prim.Native.Nat.{ℕ, zero, suc, ◌+◌, ◌-◌, ◌*◌, ◌/◌, ◌%◌, ◌^◌, ◌≤◌, ◌<◌, min, max}
use Prim.Native.Nat.{bit_and, bit_or, bit_xor, digits, bitwise, differ}
use Prim.Native.Nat.{bit_and-bitwise, bit_or-bitwise, bit_xor-bitwise}
use mathlib.Core.Path.{◌≡◌, refl, ap}
use native.Mathlib.Omega.{arith}
use native.Mathlib.Nat.{pow-suc, one-le-pow, div-add-mod', mod-lt}

-- Two amounts of fuel that reach the first number give the same digits.
same_digits :
    (one : ℕ → ℕ) (both : ℕ → ℕ → ℕ) (x y k l : ℕ)
    → x ≤ k
    → x ≤ l
    → digits one both k x y ≡ digits one both l x y
same_digits one both zero y zero zero p q = refl
same_digits one both zero y zero (suc l) p q = refl
same_digits one both zero y (suc k) zero p q = refl
same_digits one both zero y (suc k) (suc l) p q = refl
same_digits one both (suc x) y zero l p q = absurd (omega arith)
same_digits one both (suc x) y (suc k) zero p q = absurd (omega arith)
same_digits one both (suc x) y (suc k) (suc l) p q =
    ap (λ (rest : ℕ). rest * 2 + both (suc x % 2) (y % 2))
      (same_digits one both (suc x / 2) (y / 2) k l (omega arith) (omega arith))

peel :
    (one : ℕ → ℕ) (both : ℕ → ℕ → ℕ) (x y : ℕ)
    → bitwise one both (suc x) y
      ≡ bitwise one both (suc x / 2) (y / 2) * 2 + both (suc x % 2) (y % 2)
peel one both x y =
    ap (λ (rest : ℕ). rest * 2 + both (suc x % 2) (y % 2))
      (same_digits one both (suc x / 2) (y / 2) x (suc x / 2) (omega arith) (omega arith))

pub bit_and_step : (x y : ℕ) → bit_and x y ≡ min (x % 2) (y % 2) + bit_and (x / 2) (y / 2) * 2
bit_and_step zero y = simp bit_and-bitwise (omega arith)
bit_and_step (suc x) y = simp bit_and-bitwise (omega (arith, peel (λ _. 0) min x y))

pub bit_or_step : (x y : ℕ) → bit_or x y ≡ max (x % 2) (y % 2) + bit_or (x / 2) (y / 2) * 2
bit_or_step zero y = simp bit_or-bitwise (omega arith)
bit_or_step (suc x) y = simp bit_or-bitwise (omega (arith, peel (λ n. n) max x y))

differ_bits : (x y : ℕ) → x < 2 → y < 2 → differ x y ≡ (x + y) % 2
differ_bits zero y hx hy = omega arith
differ_bits (suc zero) zero hx hy = omega arith
differ_bits (suc zero) (suc zero) hx hy = omega arith
differ_bits (suc zero) (suc (suc y)) hx hy = absurd (omega arith)
differ_bits (suc (suc x)) y hx hy = absurd (omega arith)

xor_peel : (a b : ℕ) → bit_xor a b ≡ bit_xor (a / 2) (b / 2) * 2 + differ (a % 2) (b % 2)
xor_peel zero b = simp bit_xor-bitwise (omega arith)
xor_peel (suc a) b = simp bit_xor-bitwise (peel (λ y. y) differ a b)

pub bit_xor_step : (a b : ℕ) → bit_xor a b ≡ bit_xor (a / 2) (b / 2) * 2 + (a + b) % 2
bit_xor_step a b =
    omega (arith, xor_peel a b, differ_bits (a % 2) (b % 2) (omega arith) (omega arith))

-- Halving a number below a bound `n` leaves one below it: recursion on the bound.
below_ind {ℓ} :
    (P : ℕ → Type ℓ) → P 0 → ((a : ℕ) → P (suc a / 2) → P (suc a)) → (n a : ℕ) → a ≤ n → P a
below_ind P z s zero zero h = z
below_ind P z s zero (suc a) h = absurd (omega arith)
below_ind P z s (suc n) zero h = z
below_ind P z s (suc n) (suc a) h = s a (below_ind P z s n (suc a / 2) (omega arith))

pub bit_or-zero : (a : ℕ) → bit_or a 0 ≡ a
bit_or-zero a =
    below_ind (λ k. bit_or k 0 ≡ k) refl (λ k ih. omega (arith, bit_or_step (suc k) 0, ih)) a a
      (omega arith)

pub bit_xor-zero : (a : ℕ) → bit_xor a 0 ≡ a
bit_xor-zero a =
    below_ind (λ k. bit_xor k 0 ≡ k) refl (λ k ih. omega (arith, bit_xor_step (suc k) 0, ih)) a a
      (omega arith)

bit_and-zero : (a : ℕ) → bit_and a 0 ≡ 0
bit_and-zero a =
    below_ind (λ k. bit_and k 0 ≡ 0) refl (λ k ih. omega (arith, bit_and_step (suc k) 0, ih)) a a
      (omega arith)

bit_and-fields : (k q r : ℕ) → r < 2 ^ k → bit_and (q * 2 ^ k + r) (2 ^ k - 1) ≡ r
bit_and-fields zero q r h = omega (arith, bit_and-zero (q * 2 ^ 0 + r))
bit_and-fields (suc k) q r h = ground (
  arith,
  ap (λ (t : ℕ). q * t) (pow-suc 2 k),
  pow-suc 2 k,
  one-le-pow k 2,
  bit_and_step (q * 2 ^ suc k + r) (2 ^ suc k - 1),
  bit_and-fields k q (r / 2) (omega (arith, pow-suc 2 k)),
)

-- A mask of `k` low bits is the remainder by `2 ^ k`.
pub bit_and-mask : (k a : ℕ) → bit_and a (2 ^ k - 1) ≡ a % 2 ^ k
bit_and-mask k a =
    rw (div-add-mod' a (2 ^ k)) at
      (bit_and-fields k (a / 2 ^ k) (a % 2 ^ k) (mod-lt a (omega (arith, one-le-pow k 2))))

-- Fields that share no bit: `|` is the sum.
pub bit_or-fields : (k q r : ℕ) → r < 2 ^ k → bit_or r (q * 2 ^ k) ≡ r + q * 2 ^ k
bit_or-fields zero q zero h = omega (arith, bit_or-bitwise 0 (q * 2 ^ 0))
bit_or-fields zero q (suc r) h = absurd (omega arith)
bit_or-fields (suc k) q r h = ground (
  arith,
  ap (λ (t : ℕ). q * t) (pow-suc 2 k),
  pow-suc 2 k,
  bit_or_step r (q * 2 ^ suc k),
  bit_or-fields k q (r / 2) (omega arith),
)

-- The same with the upper field in front.
pub bit_or-shifted : (k q r : ℕ) → r < 2 ^ k → bit_or (q * 2 ^ k) r ≡ q * 2 ^ k + r
bit_or-shifted zero q zero h = omega (arith, bit_or-zero (q * 2 ^ 0))
bit_or-shifted zero q (suc r) h = absurd (omega arith)
bit_or-shifted (suc k) q r h = ground (
  arith,
  ap (λ (t : ℕ). q * t) (pow-suc 2 k),
  pow-suc 2 k,
  bit_or_step (q * 2 ^ suc k) r,
  bit_or-shifted k q (r / 2) (omega arith),
)

-- Exclusive or with all ones is the complement.
pub bit_xor-ones : (k a : ℕ) → a < 2 ^ k → bit_xor a (2 ^ k - 1) ≡ 2 ^ k - 1 - a
bit_xor-ones zero zero h = refl
bit_xor-ones zero (suc a) h = absurd (omega arith)
bit_xor-ones (suc k) a h = ground (
  arith,
  pow-suc 2 k,
  one-le-pow k 2,
  bit_xor_step a (2 ^ suc k - 1),
  bit_xor-ones k (a / 2) (omega (arith, pow-suc 2 k)),
)

halved : (x y : ℕ) → bit_xor x y / 2 ≡ bit_xor (x / 2) (y / 2)
halved x y = omega (arith, bit_xor_step x y)

-- The same key twice gives back the number, at every width.
pub bit_xor-cancel : (a b : ℕ) → bit_xor (bit_xor a b) b ≡ a
bit_xor-cancel a b = go (a + b) a b (omega arith)
  where
    go : (n x y : ℕ) → x + y ≤ n → bit_xor (bit_xor x y) y ≡ x
    go zero zero zero h = refl
    go zero (suc x) y h = absurd (omega arith)
    go zero zero (suc y) h = absurd (omega arith)
    go (suc n) zero zero h = refl
    go (suc n) x y h = omega (
      arith,
      bit_xor_step (bit_xor x y) y,
      bit_xor_step x y,
      ap (λ (t : ℕ). bit_xor t (y / 2)) (halved x y),
      go n (x / 2) (y / 2) (omega arith),
    )

pub bit_xor-lt : (k a b : ℕ) → a < 2 ^ k → b < 2 ^ k → bit_xor a b < 2 ^ k
bit_xor-lt zero zero zero h g = omega arith
bit_xor-lt zero zero (suc b) h g = absurd (omega arith)
bit_xor-lt zero (suc a) b h g = absurd (omega arith)
bit_xor-lt (suc k) a b h g = omega (
  arith,
  pow-suc 2 k,
  bit_xor_step a b,
  bit_xor-lt k (a / 2) (b / 2) (omega (arith, pow-suc 2 k)) (omega (arith, pow-suc 2 k)),
)
