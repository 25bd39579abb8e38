-- ===== src/Stream/Buffered.antt =====
-- seaice/stream.cpp: `readFixSize` and `writeFixSize` between a stream and a ByteArray. A stream's own
-- `read` and `write` with a ByteArray are parameters.
use seaice.Prelude.{ℕ, zero, suc, ◌-◌, ◌≤◌, ◌%◌, ◌^◌, ◌≡◌, refl, ◌∙◌, ap, arith, ltb, if◌then◌else◌}
use seaice.ByteArray.{sub_size}
use seaice.Stream.{Outcome, complete, closed, failed, unfinished}

-- What such a call returns: how many bytes it has moved, or a negative result.
pub data Moved : Type 0 where
  moved : ℕ → Moved
  move_error : ℕ → Moved

abbrev pub after_moved :
    {T : Type 0} → (ℕ → T → T × Outcome (Unit {0})) → ℕ → T × Moved → T × Outcome (Unit {0})
after_moved loop left (t, moved zero) = (t, closed)
after_moved loop left (t, moved (suc n)) = loop (sub_size left (suc n)) t
after_moved loop left (t, move_error e) = (t, failed e)

module _ {T : Type 0} (step : ℕ → T → T × Moved) where
  -- The loop of both functions, by the rounds given.
  unfoldable pub move_loop : ℕ → ℕ → T → T × Outcome (Unit {0})
  move_loop rounds zero t = (t, complete tt)
  move_loop zero (suc left) t = (t, unfinished)
  move_loop (suc rounds) (suc left) t =
      after_moved (λ n u. move_loop rounds n u) (suc left) (step (suc left) t)

  unfoldable pub read_fix_buffer : ℕ → T → T × Outcome (Unit {0})
  unfolding move_loop
  read_fix_buffer n t = move_loop n n t

  -- `int left = length`
  unfoldable pub write_fix_buffer : ℕ → T → T × Outcome (Unit {0})
  unfolding move_loop
  write_fix_buffer n t = if ltb (n % 2 ^ 32) (2 ^ 31) then move_loop n n t else (t, complete tt)

  -- A call moves some of the bytes that are left, and `Left` says what holds with so many left.
  unfoldable pub Advances : (ℕ → T → Type 0) → Type 0
  Advances Left =
      (left : ℕ) (t : T)
      → Left (suc left) t
      → (n : ℕ) × (u : T) × (step (suc left) t ≡ (u, moved (suc n)))
        × (n ≤ left)
        × Left (left - n) u

  pub move_loop-complete :
      (Left : ℕ → T → Type 0)
      → Advances Left
      → (rounds left : ℕ) (t : T) → left ≤ rounds
      → Left left t
      → (u : T) × (move_loop rounds left t ≡ (u, complete tt)) × Left 0 u
  unfolding move_loop Advances
  move_loop-complete Left h rounds zero t few now = (t, refl, now)
  move_loop-complete Left h zero (suc left) t few now = absurd (omega arith)
  move_loop-complete Left h (suc rounds) (suc left) t few now =
      let (n, u, e, short, next) = h left t now in
      let (v, e', end) = move_loop-complete Left h rounds (left - n) u (omega arith) next in
      let loop : ℕ → T → T × Outcome (Unit {0}) = λ n u. move_loop rounds n u in
      let less : sub_size (suc left) (suc n) ≡ left - n = ground arith in
      (v, ap (after_moved loop (suc left)) e ∙ ap (λ (k : ℕ). loop k u) less ∙ e', end)
