-- ===== src/HashUtil/Split/Join.antt =====
-- What the pieces of `split` have to do with the text.
use seaice.Prelude.{
  ℕ, ◌^◌, ◌≤◌, ◌<◌, ◌≡◌, ◌⊎◌, refl, ◌∙◌, ap, sym, subst, List, [], ◌∷◌, ◌++◌, append_assoc,
  append-nil, inl, inr, arith, Bool, true, false, ◌==◌, ==_iff, if◌then◌else◌, Bool-cases, length,
}
use seaice.HashUtil.Split.{split}
use seaice.HashUtil.Split.Fields.{hit_fields, miss_fields, fields, join, less_one, split_lem}

join-cons :
    (delim : ℕ) (s : List ℕ) (ts : List (List ℕ))
    → 0 < length ts
    → join delim (s ∷ ts) ≡ s ++ delim ∷ join delim ts
unfolding join
join-cons delim s [] h = absurd (omega arith)
join-cons delim s (t ∷ ts) h = refl

module _ (delim : ℕ) where
  length-fields : (max : ℕ) (seg xs : List ℕ) → 0 < length (fields delim max seg xs)
  unfolding fields
  length-fields max seg [] = omega arith
  length-fields max seg (x ∷ xs) = elim (Bool-cases (x == delim)) [
    | inl hit ↦
        subst (λ (ts : List (List ℕ)). 0 < length ts) (sym (hit_fields delim max x seg xs hit))
          (omega arith)
    | inr miss ↦
        subst (λ (ts : List (List ℕ)). 0 < length ts) (sym (miss_fields delim max x seg xs miss))
          (length-fields max (seg ++ x ∷ []) xs)
  ]

  join-fields : (max : ℕ) (seg xs : List ℕ) → join delim (fields delim max seg xs) ≡ seg ++ xs
  unfolding fields join
  join-fields max seg [] = sym (append-nil seg)
  join-fields max seg (x ∷ xs) = elim (Bool-cases (x == delim)) [
    | inl hit ↦
        ap (join delim) (hit_fields delim max x seg xs hit)
        ∙ rest max seg xs (join-fields (less_one max) [] xs) (Bool-cases (less_one max == 1))
        ∙ ap (λ (c : ℕ). seg ++ c ∷ xs) (sym ((==_iff x delim).0 hit))
    | inr miss ↦
        ap (join delim) (miss_fields delim max x seg xs miss)
        ∙ join-fields max (seg ++ x ∷ []) xs
        ∙ append_assoc seg (x ∷ []) xs
  ]
    where
      rest :
          (max : ℕ) (seg xs : List ℕ)
          → join delim (fields delim (less_one max) [] xs) ≡ xs
          → ((less_one max == 1) ≡ true) ⊎ ((less_one max == 1) ≡ false)
          → join delim
              (seg ∷ (if less_one max == 1 then xs ∷ [] else fields delim (less_one max) [] xs))
            ≡ seg ++ delim ∷ xs
      rest max seg xs ih (inl last) =
          ap
            (λ (b : Bool).
              join delim (seg ∷ (if b then xs ∷ [] else fields delim (less_one max) [] xs)))
            last
      rest max seg xs ih (inr more) =
          ap
            (λ (b : Bool).
              join delim (seg ∷ (if b then xs ∷ [] else fields delim (less_one max) [] xs)))
            more
          ∙ join-cons delim seg (fields delim (less_one max) [] xs)
              (length-fields (less_one max) [] xs)
          ∙ ap (λ (t : List ℕ). seg ++ delim ∷ t) ih

  -- For a text that is not empty and any `max`, the pieces of `split` with the delimiter between
  -- them are the text.
  pub join-split : (max x : ℕ) (xs : List ℕ) → join delim (split (x ∷ xs) delim max) ≡ x ∷ xs
  join-split max x xs = ap (join delim) (split_lem delim max x xs) ∙ join-fields max [] (x ∷ xs)

  fields_most :
      (max : ℕ) (seg xs : List ℕ) → 2 ≤ max → max < 2 ^ 64 → length (fields delim max seg xs) ≤ max
  unfolding fields
  fields_most max seg [] h g = omega arith
  fields_most max seg (x ∷ xs) h g = elim (Bool-cases (x == delim)) [
    | inl hit ↦
        subst (λ (ts : List (List ℕ)). length ts ≤ max) (sym (hit_fields delim max x seg xs hit))
          (counted max xs seg h g (λ k. fields_most (less_one max) [] xs k (omega arith)))
    | inr miss ↦
        subst (λ (ts : List (List ℕ)). length ts ≤ max) (sym (miss_fields delim max x seg xs miss))
          (fields_most max (seg ++ x ∷ []) xs h g)
  ]
    where
      counted :
          (max : ℕ) (xs seg : List ℕ)
          → 2 ≤ max
          → max < 2 ^ 64
          → (2 ≤ less_one max → length (fields delim (less_one max) [] xs) ≤ less_one max)
          → length
              (seg ∷ (if less_one max == 1 then xs ∷ [] else fields delim (less_one max) [] xs))
            ≤ max
      counted max xs seg h g ih = elim (Bool-cases (less_one max == 1)) [
        | inl last ↦ ground (arith, last)
        | inr more ↦ ground (arith, more, ih (ground (arith, more)))
      ]

  -- For a text that is not empty and a `max` of at least 2 and below 2 ^ 64, `split` returns at
  -- most `max` pieces.
  pub split_most :
      (max x : ℕ) (xs : List ℕ) → 2 ≤ max → max < 2 ^ 64 → length (split (x ∷ xs) delim max) ≤ max
  split_most max x xs h g =
      subst (λ (ts : List (List ℕ)). length ts ≤ max) (sym (split_lem delim max x xs))
        (fields_most max [] (x ∷ xs) h g)
