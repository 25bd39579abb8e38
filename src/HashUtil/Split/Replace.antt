-- ===== src/HashUtil/Split/Replace.antt =====
-- `replace` by positions is replacement character by character.
use seaice.Prelude.{
  ℕ, zero, suc, ◌+◌, ◌≤◌, ◌≡◌, refl, ◌∙◌, ap, sym, List, [], ◌∷◌, ◌++◌, append_assoc, map, some,
  inl, inr, arith, Bool, true, false, ◌==◌, if◌then◌else◌, Bool-cases, length, length-append, take,
  drop, set, flatten, drop-append_ge, take-append_le, take_all,
}
use seaice.HashUtil.Split.{
  find, find_in, replace, replace_loop, replace_string, replace_string_loop,
}

pub set-append :
    (pre : List ℕ) (x y : ℕ) (xs : List ℕ)
    → set (pre ++ x ∷ xs) (length pre) y ≡ (pre ++ y ∷ []) ++ xs
set-append [] x y xs = refl
set-append (p ∷ pre) x y xs = ap (◌∷◌ p) (set-append pre x y xs)

-- The search behind a prefix.
pub find-append :
    (pre xs : List ℕ) (c n : ℕ) → n ≡ length pre → find (pre ++ xs) c n ≡ find_in c xs n
unfolding find_in
find-append pre xs c n h =
    ap (λ (t : List ℕ). find_in c t n) (drop-append_ge n 0 pre xs (omega arith))

pub length-snoc : (pre : List ℕ) (x : ℕ) → length (pre ++ x ∷ []) ≡ length pre + 1
length-snoc pre x = length-append pre (x ∷ [])

pub find_in-hit : (c x pos : ℕ) (xs : List ℕ) → (x == c) ≡ true → find_in c (x ∷ xs) pos ≡ some pos
unfolding find_in
find_in-hit c x pos xs h = ap (λ (b : Bool). if b then some pos else find_in c xs (pos + 1)) h

pub find_in-miss :
    (c x pos : ℕ) (xs : List ℕ) → (x == c) ≡ false → find_in c (x ∷ xs) pos ≡ find_in c xs (pos + 1)
unfolding find_in
find_in-miss c x pos xs h = ap (λ (b : Bool). if b then some pos else find_in c xs (pos + 1)) h

module _ (c by : ℕ) where
  pub swap : ℕ → ℕ
  swap x = if x == c then by else x

  replace_loop_lem :
      (rounds : ℕ) (pre xs : List ℕ) (n : ℕ)
      → n ≡ length pre
      → length xs ≤ rounds
      → replace_loop rounds c by (pre ++ xs) (find_in c xs n) ≡ pre ++ map swap xs
  unfolding replace_loop find_in swap
  replace_loop_lem rounds pre [] n h few = refl
  replace_loop_lem zero pre (x ∷ xs) n h few = absurd (omega arith)
  replace_loop_lem (suc rounds) pre (x ∷ xs) n h few = elim (Bool-cases (x == c)) [
    | inl hit ↦
        ap (replace_loop (suc rounds) c by (pre ++ x ∷ xs)) (find_in-hit c x n xs hit)
        ∙ ap (λ (t : List ℕ). replace_loop rounds c by t (find t c (n + 1)))
            (ap (λ (k : ℕ). set (pre ++ x ∷ xs) k by) h ∙ set-append pre x by xs)
        ∙ ap (replace_loop rounds c by ((pre ++ by ∷ []) ++ xs))
            (find-append (pre ++ by ∷ []) xs c (n + 1) (omega (arith, length-snoc pre by)))
        ∙ replace_loop_lem rounds (pre ++ by ∷ []) xs (n + 1) (omega (arith, length-snoc pre by))
            (omega arith)
        ∙ append_assoc pre (by ∷ []) (map swap xs)
        ∙ ap (λ (b : Bool). pre ++ (if b then by else x) ∷ map swap xs) (sym hit)
    | inr miss ↦
        ap (replace_loop (suc rounds) c by (pre ++ x ∷ xs)) (find_in-miss c x n xs miss)
        ∙ ap (λ (t : List ℕ). replace_loop (suc rounds) c by t (find_in c xs (n + 1)))
            (sym (append_assoc pre (x ∷ []) xs))
        ∙ replace_loop_lem (suc rounds) (pre ++ x ∷ []) xs (n + 1)
            (omega (arith, length-snoc pre x)) (omega arith)
        ∙ append_assoc pre (x ∷ []) (map swap xs)
        ∙ ap (λ (b : Bool). pre ++ (if b then by else x) ∷ map swap xs) (sym miss)
  ]

  -- `replace` with two characters is the text with every occurrence of the first replaced by the
  -- second and the others left.
  pub replace_lem : (str : List ℕ) → replace str c by ≡ map swap str
  unfolding replace find_in
  replace_lem str = replace_loop_lem (length str) [] str 0 refl (omega arith)

module _ (c : ℕ) (by : List ℕ) where
  pub expand : ℕ → List ℕ
  expand x = if x == c then by else x ∷ []

  cut :
      (pre xs : List ℕ) (x n : ℕ)
      → n ≡ length pre
      → take n (pre ++ x ∷ xs) ++ (by ++ drop (n + 1) (pre ++ x ∷ xs)) ≡ (pre ++ by) ++ xs
  cut pre xs x n h =
      ap (λ (t : List ℕ). t ++ (by ++ drop (n + 1) (pre ++ x ∷ xs)))
        (take-append_le n pre (x ∷ xs) (omega arith) ∙ take_all n pre (omega arith))
      ∙ ap (λ (t : List ℕ). pre ++ (by ++ t)) (drop-append_ge (n + 1) 1 pre (x ∷ xs) (omega arith))
      ∙ sym (append_assoc pre by xs)

  replace_string_loop_lem :
      (rounds : ℕ) (pre xs : List ℕ) (n : ℕ)
      → n ≡ length pre
      → length xs ≤ rounds
      → replace_string_loop rounds c by (pre ++ xs) (find_in c xs n)
        ≡ pre ++ flatten (map expand xs)
  unfolding replace_string_loop find_in expand
  replace_string_loop_lem rounds pre [] n h few = refl
  replace_string_loop_lem zero pre (x ∷ xs) n h few = absurd (omega arith)
  replace_string_loop_lem (suc rounds) pre (x ∷ xs) n h few = elim (Bool-cases (x == c)) [
    | inl hit ↦
        ap (replace_string_loop (suc rounds) c by (pre ++ x ∷ xs)) (find_in-hit c x n xs hit)
        ∙ ap (λ (t : List ℕ). replace_string_loop rounds c by t (find t c (n + length by)))
            (cut pre xs x n h)
        ∙ ap (replace_string_loop rounds c by ((pre ++ by) ++ xs))
            (find-append (pre ++ by) xs c (n + length by) (omega (arith, length-append pre by)))
        ∙ replace_string_loop_lem rounds (pre ++ by) xs (n + length by)
            (omega (arith, length-append pre by)) (omega arith)
        ∙ append_assoc pre by (flatten (map expand xs))
        ∙ ap (λ (b : Bool). pre ++ ((if b then by else x ∷ []) ++ flatten (map expand xs)))
            (sym hit)
    | inr miss ↦
        ap (replace_string_loop (suc rounds) c by (pre ++ x ∷ xs)) (find_in-miss c x n xs miss)
        ∙ ap (λ (t : List ℕ). replace_string_loop (suc rounds) c by t (find_in c xs (n + 1)))
            (sym (append_assoc pre (x ∷ []) xs))
        ∙ replace_string_loop_lem (suc rounds) (pre ++ x ∷ []) xs (n + 1)
            (omega (arith, length-snoc pre x)) (omega arith)
        ∙ append_assoc pre (x ∷ []) (flatten (map expand xs))
        ∙ ap (λ (b : Bool). pre ++ ((if b then by else x ∷ []) ++ flatten (map expand xs)))
            (sym miss)
  ]

  -- `replace` of a character by a string is the text with the string in place of each occurrence
  -- of the character and the others left; occurrences in what was put in are not replaced again.
  pub replace_string_lem : (str : List ℕ) → replace_string str c by ≡ flatten (map expand str)
  unfolding replace_string find_in
  replace_string_lem str = replace_string_loop_lem (length str) [] str 0 refl (omega arith)
