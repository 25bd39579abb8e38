-- ===== src/HashUtil/Split/Fields.antt =====
-- The pieces of `split`.
use seaice.Prelude.{
  true, some, ℕ, zero, suc, ◌+◌, ◌-◌, ◌%◌, ◌^◌, ◌≤◌, ◌≡◌, refl, ◌∙◌, ap, sym, List, [], ◌∷◌, ◌++◌,
  append_assoc, append-nil, inl, inr, arith, Bool, false, ◌==◌, if◌then◌else◌, Bool-cases, length,
  length-append, take, drop, drop-append_ge, take-append_le, take_all,
}
use seaice.HashUtil.Split.{find, find_in, split, split_loop}
use seaice.HashUtil.Split.Replace.{find-append, find_in-hit, find_in-miss, length-snoc}

abbrev pub less_one : ℕ → ℕ
less_one max = (max + 2 ^ 64 - 1) % 2 ^ 64

-- The pieces of a text, character by character: `seg` is the piece so far.
unfoldable pub fields : ℕ → ℕ → List ℕ → List ℕ → List (List ℕ)
fields delim max seg [] = seg ∷ []
fields delim max seg (x ∷ xs) =
    let more = fields delim max (seg ++ x ∷ []) xs in
    let rest = fields delim (less_one max) [] xs in
    if x == delim then seg ∷ (if less_one max == 1 then xs ∷ [] else rest) else more

-- The pieces with the delimiter between them.
unfoldable pub join : ℕ → List (List ℕ) → List ℕ
join delim [] = []
join delim (s ∷ []) = s
join delim (s ∷ t ∷ ss) = s ++ delim ∷ join delim (t ∷ ss)

-- The text around the place that the loop is at, the character there going to the front.
shift : (pre seg xs : List ℕ) (x : ℕ) → pre ++ (seg ++ x ∷ xs) ≡ (pre ++ (seg ++ x ∷ [])) ++ xs
shift pre seg xs x =
    ap (λ (t : List ℕ). pre ++ t) (sym (append_assoc seg (x ∷ []) xs))
    ∙ sym (append_assoc pre (seg ++ x ∷ []) xs)

piece :
    (pre seg rest : List ℕ) (last pos : ℕ)
    → last ≡ length pre
    → pos ≡ length pre + length seg
    → take (pos - last) (drop last (pre ++ (seg ++ rest))) ≡ seg
piece pre seg rest last pos h g =
    ap (take (pos - last)) (drop-append_ge last 0 pre (seg ++ rest) (omega arith))
    ∙ take-append_le (pos - last) seg rest (omega arith)
    ∙ take_all (pos - last) seg (omega arith)

module _ (delim : ℕ) where
  pub hit_fields :
      (max x : ℕ) (seg xs : List ℕ)
      → (x == delim) ≡ true
      → fields delim max seg (x ∷ xs)
        ≡ seg ∷ (if less_one max == 1 then xs ∷ [] else fields delim (less_one max) [] xs)
  unfolding fields
  hit_fields max x seg xs h =
      ap
        (λ (b : Bool).
          if b
          then seg ∷ (if less_one max == 1 then xs ∷ [] else fields delim (less_one max) [] xs)
          else fields delim max (seg ++ x ∷ []) xs)
        h

  pub miss_fields :
      (max x : ℕ) (seg xs : List ℕ)
      → (x == delim) ≡ false
      → fields delim max seg (x ∷ xs) ≡ fields delim max (seg ++ x ∷ []) xs
  unfolding fields
  miss_fields max x seg xs h =
      ap
        (λ (b : Bool).
          if b
          then seg ∷ (if less_one max == 1 then xs ∷ [] else fields delim (less_one max) [] xs)
          else fields delim max (seg ++ x ∷ []) xs)
        h

  -- One round that cuts: the piece, and the text or the pieces behind it.
  cut_step :
      (rounds max : ℕ) (str seg xs : List ℕ) (last pos : ℕ) (rest : List (List ℕ))
      → take (pos - last) (drop last str) ≡ seg
      → drop (pos + 1) str ≡ xs
      → split_loop rounds str delim (less_one max) (pos + 1) (find str delim (pos + 1)) ≡ rest
      → split_loop (suc rounds) str delim max last (some pos)
        ≡ seg ∷ (if less_one max == 1 then xs ∷ [] else rest)
  unfolding split_loop find_in
  cut_step rounds max str seg xs last pos rest p q r =
      ap
        (λ (t : List ℕ).
          t
          ∷ (if less_one max == 1
              then drop (pos + 1) str ∷ []
              else split_loop rounds str delim (less_one max) (pos + 1) (find str delim (pos + 1))))
        p
      ∙ ap
          (λ (t : List ℕ).
            seg
            ∷ (if less_one max == 1
                then t ∷ []
                else split_loop rounds str delim (less_one max) (pos + 1)
                    (find str delim (pos + 1))))
          q
      ∙ ap (λ (t : List (List ℕ)). seg ∷ (if less_one max == 1 then xs ∷ [] else t)) r

  split_loop_lem :
      (rounds max : ℕ) (pre seg xs : List ℕ) (last pos : ℕ)
      → last ≡ length pre
      → pos ≡ length pre + length seg
      → length xs ≤ rounds
      → split_loop rounds (pre ++ (seg ++ xs)) delim max last (find_in delim xs pos)
        ≡ fields delim max seg xs
  unfolding split_loop find_in fields
  split_loop_lem rounds max pre seg [] last pos h g few =
      ap (λ (t : List ℕ). t ∷ [])
        (drop-append_ge last 0 pre (seg ++ []) (omega arith) ∙ append-nil seg)
  split_loop_lem zero max pre seg (x ∷ xs) last pos h g few = absurd (omega arith)
  split_loop_lem (suc rounds) max pre seg (x ∷ xs) last pos h g few =
      let str = pre ++ (seg ++ x ∷ xs) in
      let done = pre ++ (seg ++ x ∷ []) in
      let size : pos + 1 ≡ length done =
        omega (arith, length-append pre (seg ++ x ∷ []), length-snoc seg x) in
      elim (Bool-cases (x == delim)) [
        | inl hit ↦
            ap (split_loop (suc rounds) str delim max last) (find_in-hit delim x pos xs hit)
            ∙ cut_step rounds max str seg xs last pos (fields delim (less_one max) [] xs)
                (piece pre seg (x ∷ xs) last pos h g)
                (ap (drop (pos + 1)) (shift pre seg xs x)
                  ∙ drop-append_ge (pos + 1) 0 done xs (omega (arith, size)))
                (ap
                    (λ (t : List ℕ).
                      split_loop rounds t delim (less_one max) (pos + 1) (find t delim (pos + 1)))
                    (shift pre seg xs x)
                  ∙ ap (split_loop rounds (done ++ xs) delim (less_one max) (pos + 1))
                      (find-append done xs delim (pos + 1) size)
                  ∙ split_loop_lem rounds (less_one max) done [] xs (pos + 1) (pos + 1) size
                      (omega (arith, size)) (omega arith))
            ∙ sym (hit_fields max x seg xs hit)
        | inr miss ↦
            ap (split_loop (suc rounds) str delim max last) (find_in-miss delim x pos xs miss)
            ∙ ap
                (λ (t : List ℕ).
                  split_loop (suc rounds) (pre ++ t) delim max last (find_in delim xs (pos + 1)))
                (sym (append_assoc seg (x ∷ []) xs))
            ∙ split_loop_lem (suc rounds) max pre (seg ++ x ∷ []) xs last (pos + 1) h
                (omega (arith, length-snoc seg x)) (omega arith)
            ∙ sym (miss_fields max x seg xs miss)
      ]

  -- `split` cuts a text that is not empty at its delimiters, from the left, until the count is used
  -- up.
  pub split_lem :
      (max : ℕ) (x : ℕ) (xs : List ℕ) → split (x ∷ xs) delim max ≡ fields delim max [] (x ∷ xs)
  unfolding split find_in
  split_lem max x xs =
      ap
        (λ (b : Bool).
          if b
          then []
          else split_loop (length (x ∷ xs)) (x ∷ xs) delim max 0 (find (x ∷ xs) delim 0))
        empty
      ∙ split_loop_lem (length (x ∷ xs)) max [] [] (x ∷ xs) 0 0 refl refl (omega arith)
    where
      empty : (length (x ∷ xs) == 0) ≡ false
      empty = ground arith
