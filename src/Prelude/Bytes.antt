-- ===== src/Prelude/Bytes.antt =====
-- Byte strings: numbers laid out in memory, and `memcpy` into a buffer.
use Prim.Native.Nat.{ℕ, zero, suc, ◌+◌, ◌*◌, ◌/◌, ◌%◌, ◌^◌, ◌≤◌, ◌<◌}
use mathlib.Core.Path.{◌≡◌, refl, ap, ◌∙◌}
use mathlib.Core.List.{List, [], ◌∷◌, ◌++◌, append_assoc}
use native.Mathlib.Omega.{arith}
use native.Mathlib.Nat.{pow-suc}
use seaice.Prelude.Lists.{
  length, take, drop, All, length-append, length-take, length-drop, take-append_le, drop-append_le,
  take-append_ge, drop-append_ge, take_all, drop_all, take-append-drop,
}

abbrev pub IsByte : ℕ → Type 0
IsByte b = b < 256

abbrev pub IsBytes : List ℕ → Type 0
IsBytes = All IsByte

-- The `k` bytes of a number, lowest first, and the number that bytes stand for.
unfoldable pub le_bytes : ℕ → ℕ → List ℕ
le_bytes zero v = []
le_bytes (suc k) v = v % 256 ∷ le_bytes k (v / 256)

unfoldable pub of_le : List ℕ → ℕ
of_le [] = 0
of_le (b ∷ bs) = b + 256 * of_le bs

pub length-le_bytes : (k v : ℕ) → length (le_bytes k v) ≡ k
unfolding le_bytes
length-le_bytes zero v = refl
length-le_bytes (suc k) v = ap suc (length-le_bytes k (v / 256))

pub le_bytes-IsBytes : (k v : ℕ) → IsBytes (le_bytes k v)
unfolding le_bytes
le_bytes-IsBytes zero v = tt
le_bytes-IsBytes (suc k) v = (omega arith, le_bytes-IsBytes k (v / 256))

pub of_le-le_bytes : (k v : ℕ) → v < 256 ^ k → of_le (le_bytes k v) ≡ v
unfolding le_bytes of_le
of_le-le_bytes zero v h = omega arith
of_le-le_bytes (suc k) v h =
    omega (arith, pow-suc 256 k, of_le-le_bytes k (v / 256) (omega (arith, pow-suc 256 k)))

pub le_bytes-of_le : (bs : List ℕ) → IsBytes bs → le_bytes (length bs) (of_le bs) ≡ bs
unfolding le_bytes of_le
le_bytes-of_le [] h = refl
le_bytes-of_le (b ∷ bs) h =
    let low : (b + 256 * of_le bs) % 256 ≡ b = omega arith in
    let high : (b + 256 * of_le bs) / 256 ≡ of_le bs = omega arith in
    rw (low, high, le_bytes-of_le bs h.1)

pub of_le-lt : (bs : List ℕ) → IsBytes bs → of_le bs < 256 ^ length bs
unfolding of_le
of_le-lt [] h = omega arith
of_le-lt (b ∷ bs) h = omega (arith, pow-suc 256 (length bs), of_le-lt bs h.1)

module _ {ℓ} {A : Type ℓ} where
  -- `memcpy(dest + p, src, src.size())`
  abbrev pub memcpy : List A → ℕ → List A → List A
  memcpy dest p src = take p dest ++ (src ++ drop (p + length src) dest)

  pub length-memcpy :
      (dest : List A) (p : ℕ) (src : List A)
      → p + length src ≤ length dest
      → length (memcpy dest p src) ≡ length dest
  length-memcpy dest p src h = omega (
    arith,
    length-append (take p dest) (src ++ drop (p + length src) dest),
    length-append src (drop (p + length src) dest),
    length-take p dest,
    length-drop (p + length src) dest,
  )

  -- A copy that ends inside the first part leaves the second alone.
  pub memcpy-append_le :
      (xs zs : List A) (p : ℕ) (ys : List A)
      → p + length ys ≤ length xs
      → memcpy (xs ++ zs) p ys ≡ memcpy xs p ys ++ zs
  memcpy-append_le xs zs p ys h =
      rw (take-append_le p xs zs (omega arith), drop-append_le (p + length ys) xs zs h)
        (simp append_assoc)

  -- A copy across the border of two parts is one copy into each.
  pub memcpy-append_across :
      (xs zs : List A) (p : ℕ) (ys ws : List A)
      → p + length ys ≡ length xs
      → memcpy (xs ++ zs) p (ys ++ ws) ≡ memcpy xs p ys ++ memcpy zs 0 ws
  memcpy-append_across xs zs p ys ws h =
      rw
        (
          take-append_le p xs zs (omega arith),
          drop-append_ge (p + length (ys ++ ws)) (0 + length ws) xs zs
              (omega (arith, length-append ys ws)),
          drop_all (p + length ys) xs (omega arith),
        )
        (simp append_assoc)

  -- What stands up to the end of the copy, and what stands behind it.
  pub take-memcpy :
      (dest : List A) (p : ℕ) (src : List A)
      → p ≤ length dest
      → take (p + length src) (memcpy dest p src) ≡ take p dest ++ src
  take-memcpy dest p src h =
      take-append_ge (p + length src) (length src) (take p dest) _
        (omega (arith, length-take p dest))
      ∙ ap (◌++◌ (take p dest)) (
          take-append_le (length src) src _ (omega arith) ∙ take_all (length src) src (omega arith))

  pub drop-memcpy :
      (dest : List A) (p : ℕ) (src : List A)
      → p ≤ length dest
      → drop (p + length src) (memcpy dest p src) ≡ drop (p + length src) dest
  drop-memcpy dest p src h =
      drop-append_ge (p + length src) (length src) (take p dest) _
        (omega (arith, length-take p dest))
      ∙ drop-append_ge (length src) 0 src _ (omega arith)

  pub memcpy-nil : (dest : List A) (p : ℕ) → memcpy dest p [] ≡ dest
  memcpy-nil dest p =
      ap (λ (k : ℕ). take p dest ++ drop k dest) (omega arith) ∙ take-append-drop p dest

  -- A copy behind the first part.
  pub memcpy-append_ge :
      (xs zs : List A) (q p : ℕ) (ys : List A)
      → q ≡ length xs + p
      → memcpy (xs ++ zs) q ys ≡ xs ++ memcpy zs p ys
  memcpy-append_ge xs zs q p ys h =
      rw
        (
          take-append_ge q p xs zs h,
          drop-append_ge (q + length ys) (p + length ys) xs zs (omega arith),
        )
        (simp append_assoc)
