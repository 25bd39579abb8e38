-- ===== src/Stream/Complete.antt =====
-- The loops of seaice/stream.cpp over a stream that makes progress.
use seaice.Prelude.{
  ℕ, zero, suc, ◌+◌, ◌-◌, ◌^◌, ◌≤◌, ◌<◌, ◌≡◌, refl, ◌∙◌, ap, sym, List, [], ◌∷◌, ◌++◌, append_assoc,
  append-nil, length, take, drop, arith, length-append, length-drop, take-append-drop,
  take-append_ge, drop-append_ge,
}
use seaice.Stream.{
  Received, received, Sent, sent, Outcome, complete, read_fix_size, write_loop, write_fix_size,
  put_front, after_received, after_sent,
}

-- A stream with bytes ahead gives some of those that were asked for, in their order.
pub record IsSource {ℓ} {S : Type ℓ} (read : ℕ → S → S × Received) (ahead : S → List ℕ)
    : Type ℓ where
  pub read_some :
      (n : ℕ) (s : S)
      → 0 < n
      → n ≤ length (ahead s)
      → (x : ℕ) × (bs : List ℕ) × (t : S) × (read n s ≡ (t, received (x ∷ bs)))
        × (length (x ∷ bs) ≤ n)
        × (ahead s ≡ (x ∷ bs) ++ ahead t)

-- A stream that takes some of the bytes it is given, from their first on.
pub record IsTarget {ℓ} {S : Type ℓ} (write : List ℕ → S → S × Sent) (taken : S → List ℕ)
    : Type ℓ where
  pub write_some :
      (x : ℕ) (bs : List ℕ) (s : S)
      → (n : ℕ) × (t : S) × (write (x ∷ bs) s ≡ (t, sent (suc n)))
        × (suc n ≤ length (x ∷ bs))
        × (taken t ≡ taken s ++ take (suc n) (x ∷ bs))

-- One round that gets bytes.
read-round {ℓ} :
    {S : Type ℓ} (read : ℕ → S → S × Received) (rounds n : ℕ) (s t : S) (x : ℕ) (bs : List ℕ)
    → read (suc n) s ≡ (t, received (x ∷ bs))
    → length (x ∷ bs) ≤ suc n
    → read_fix_size read (suc rounds) (suc n) s
      ≡ put_front (x ∷ bs) (read_fix_size read rounds (suc n - length (x ∷ bs)) t)
unfolding read_fix_size
read-round {S} read rounds n s t x bs e short =
    let loop : ℕ → S → S × Outcome (List ℕ) = λ m u. read_fix_size read rounds m u in
    ground (arith, ap (after_received loop (suc n)) e)

-- On a stream that gives at least one and at most the wanted number of the bytes ahead of it at
-- every call, `readFixSize` returns with exactly the next `n` bytes, if there are as many, within
-- `n` rounds, and leaves the rest of them ahead.
pub read_fix_size-complete {ℓ} :
    {S : Type ℓ} (read : ℕ → S → S × Received) (ahead : S → List ℕ)
    → IsSource read ahead
    → (rounds n : ℕ) (s : S) → n ≤ rounds
    → n ≤ length (ahead s)
    → (t : S) × (read_fix_size read rounds n s ≡ (t, complete (take n (ahead s))))
      × (ahead t ≡ drop n (ahead s))
unfolding read_fix_size
read_fix_size-complete read ahead h zero zero s few enough = (s, refl, refl)
read_fix_size-complete read ahead h zero (suc n) s few enough = absurd (omega arith)
read_fix_size-complete read ahead h (suc rounds) zero s few enough = (s, refl, refl)
read_fix_size-complete read ahead h (suc rounds) (suc n) s few enough =
    let (x, bs, s', e, short, split) = h.read_some (suc n) s (omega arith) enough in
    let total : length (ahead s) ≡ length (x ∷ bs) + length (ahead s') =
      ap length split ∙ length-append (x ∷ bs) (ahead s') in
    let (t, e', left) =
      read_fix_size-complete read ahead h rounds (suc n - length (x ∷ bs)) s' (omega arith)
        (omega (arith, total)) in
    (
      t,
      read-round read rounds n s s' x bs e short
          ∙ ap (put_front (x ∷ bs)) e'
          ∙ ap (λ (cs : List ℕ). (t, complete cs))
              (sym (
                  take-append_ge (suc n) (suc n - length (x ∷ bs)) (x ∷ bs) (ahead s')
                    (omega arith))
                ∙ ap (take (suc n)) (sym split)),
      left
          ∙ sym (drop-append_ge (suc n) (suc n - length (x ∷ bs)) (x ∷ bs) (ahead s') (omega arith))
          ∙ ap (drop (suc n)) (sym split),
    )

write_loop-complete {ℓ} :
    {S : Type ℓ} (write : List ℕ → S → S × Sent) (taken : S → List ℕ)
    → IsTarget write taken
    → (rounds : ℕ) (bs : List ℕ) (s : S) → length bs ≤ rounds
    → (t : S) × (write_loop write rounds bs s ≡ (t, complete tt)) × (taken t ≡ taken s ++ bs)
unfolding write_loop
write_loop-complete write taken h rounds [] s few = (s, refl, sym (append-nil (taken s)))
write_loop-complete write taken h zero (x ∷ bs) s few = absurd (omega arith)
write_loop-complete write taken h (suc rounds) (x ∷ bs) s few =
    let (n, s', e, short, more) = h.write_some x bs s in
    let (t, e', all) =
      write_loop-complete write taken h rounds (drop (suc n) (x ∷ bs)) s'
        (omega (arith, length-drop (suc n) (x ∷ bs))) in
    (
      t,
      ap (after_sent (λ left u. write_loop write rounds left u) (x ∷ bs)) e ∙ e',
      all
          ∙ ap (λ (cs : List ℕ). cs ++ drop (suc n) (x ∷ bs)) more
          ∙ append_assoc (taken s) (take (suc n) (x ∷ bs)) (drop (suc n) (x ∷ bs))
          ∙ ap (λ (cs : List ℕ). taken s ++ cs) (take-append-drop (suc n) (x ∷ bs)),
    )

-- On a stream that takes at least one of the bytes it is given at every call, from the first on,
-- `writeFixSize` of fewer than 2 ^ 31 bytes returns with all of them taken in their order, within
-- as many rounds as there are bytes.
pub write_fix_size-complete {ℓ} :
    {S : Type ℓ} (write : List ℕ → S → S × Sent) (taken : S → List ℕ)
    → IsTarget write taken
    → (rounds : ℕ) (bs : List ℕ) (s : S) → length bs ≤ rounds
    → length bs < 2 ^ 31
    → (t : S) × (write_fix_size write rounds bs s ≡ (t, complete tt)) × (taken t ≡ taken s ++ bs)
unfolding write_fix_size
write_fix_size-complete write taken h rounds bs s few small =
    let (t, e, all) = write_loop-complete write taken h rounds bs s few in
    (t, ground (arith, e), all)
