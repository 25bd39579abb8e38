-- ===== src/Stream.antt =====
-- seaice/stream.cpp: `readFixSize` and `writeFixSize` over a buffer in memory, for any stream. What a
-- stream's own `read` and `write` do is a parameter.
pub mod Complete
pub mod Exchange
pub mod Buffered
use seaice.Prelude.{
  ℕ, zero, suc, ◌+◌, ◌-◌, ◌%◌, ◌^◌, List, [], ◌∷◌, ◌++◌, ltb, ◌==◌, if◌then◌else◌, length, drop,
}
use seaice.ByteArray.{sub_size}

-- What a call of `read` returns: the bytes it has stored, where their number is the result, or a
-- negative result.
pub data Received : Type 0 where
  received : List ℕ → Received
  read_error : ℕ → Received

-- What a call of `write` returns: how many bytes it took, or a negative result.
pub data Sent : Type 0 where
  sent : ℕ → Sent
  write_error : ℕ → Sent

-- How the loops end: with `length`, with a result of the stream that is not positive, or not at all
-- within the rounds given.
pub data Outcome {ℓ} (A : Type ℓ) : Type ℓ where
  complete : A → Outcome A
  closed : Outcome A
  failed : ℕ → Outcome A
  unfinished : Outcome A

abbrev pub put_front {ℓ} : {S : Type ℓ} → List ℕ → S × Outcome (List ℕ) → S × Outcome (List ℕ)
put_front bs (s, complete rest) = (s, complete (bs ++ rest))
put_front bs (s, closed) = (s, closed)
put_front bs (s, failed e) = (s, failed e)
put_front bs (s, unfinished) = (s, unfinished)

-- What the loop does after a call of `read`, with the rest of the loop.
abbrev pub after_received {ℓ} :
    {S : Type ℓ} → (ℕ → S → S × Outcome (List ℕ)) → ℕ → S × Received → S × Outcome (List ℕ)
after_received loop left (s, received []) = (s, closed)
after_received loop left (s, received (x ∷ bs)) =
    put_front (x ∷ bs) (loop (sub_size left (length (x ∷ bs))) s)
after_received loop left (s, read_error e) = (s, failed e)

abbrev pub after_sent {ℓ} :
    {S : Type ℓ}
    → (List ℕ → S → S × Outcome (Unit {0}))
    → List ℕ
    → S × Sent
    → S × Outcome (Unit {0})
after_sent loop left (s, sent zero) = (s, closed)
after_sent loop left (s, sent (suc n)) = loop (drop (suc n) left) s
after_sent loop left (s, write_error e) = (s, failed e)

module _ {ℓ} {S : Type ℓ} (read : ℕ → S → S × Received) where
  -- The bytes stored from `buffer` on, by the rounds given and the bytes left.
  pub read_fix_size : ℕ → ℕ → S → S × Outcome (List ℕ)
  read_fix_size zero left s = if left == 0 then (s, complete []) else (s, unfinished)
  read_fix_size (suc rounds) left s =
      if left == 0
      then (s, complete [])
      else after_received (λ n t. read_fix_size rounds n t) left (read left s)

module _ {ℓ} {S : Type ℓ} (write : List ℕ → S → S × Sent) where
  -- The loop, over the bytes that are left to write.
  pub write_loop : ℕ → List ℕ → S → S × Outcome (Unit {0})
  write_loop rounds [] s = (s, complete tt)
  write_loop zero (x ∷ bs) s = (s, unfinished)
  write_loop (suc rounds) (x ∷ bs) s =
      after_sent (λ left t. write_loop rounds left t) (x ∷ bs) (write (x ∷ bs) s)

  -- `int left = length`: a length whose bit 31 is set is negative as an `int`, and the loop is not
  -- entered.
  unfoldable pub write_fix_size : ℕ → List ℕ → S → S × Outcome (Unit {0})
  unfolding write_loop
  write_fix_size rounds buffer s =
      if ltb (length buffer % 2 ^ 32) (2 ^ 31) then write_loop rounds buffer s else (s, complete tt)
