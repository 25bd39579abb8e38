-- ===== src/Tests/Streams.antt =====
-- Streams for the runs: one that gives a byte at a time, and one that takes a byte at a time.
use seaice.Prelude.{ℕ, ◌≤◌, ◌<◌, ◌≡◌, refl, List, [], ◌∷◌, ◌++◌, length, arith}
use seaice.Stream.{Received, received, Sent, sent}
use seaice.Stream.Complete.{IsSource, IsTarget}

-- A stream that gives one byte at a time, and one that takes one at a time.
abbrev pub trickle : ℕ → List ℕ → List ℕ × Received
trickle n [] = ([], received [])
trickle n (x ∷ xs) = (xs, received (x ∷ []))

pub trickle-IsSource : IsSource trickle (λ s. s)
trickle-IsSource = record { read_some = one }
  where
    one :
        (n : ℕ) (s : List ℕ)
        → 0 < n
        → n ≤ length s
        → (x : ℕ) × (bs : List ℕ) × (t : List ℕ) × (trickle n s ≡ (t, received (x ∷ bs)))
          × (length (x ∷ bs) ≤ n)
          × (s ≡ (x ∷ bs) ++ t)
    one n [] h g = absurd (omega arith)
    one n (x ∷ xs) h g = (x, [], xs, refl, omega arith, refl)

abbrev pub drip : List ℕ → List ℕ → List ℕ × Sent
drip [] s = (s, sent 0)
drip (x ∷ bs) s = (s ++ x ∷ [], sent 1)

pub drip-IsTarget : IsTarget drip (λ s. s)
drip-IsTarget = record { write_some = λ x bs s. (0, s ++ x ∷ [], refl, omega arith, refl) }
