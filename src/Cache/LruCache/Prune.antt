-- ===== src/Cache/LruCache/Prune.antt =====
-- The loop of `prune`: it ends, it uses no place that the list does not have, and it keeps the
-- entries used most recently.
use mathlib.Core.List.{reverse, reverse-cons, reverse-reverse}
use seaice.Cache.{Eq}
use seaice.Cache.LruCache.{Node, at, find, erase, call, prune_loop}
use seaice.Cache.LruCache.Index.{
  IsMap, IsDistinct, place_of, items, find-erase_same, find-erase_other, length-erase, erase-IsMap,
}
use seaice.Prelude.{
  ℕ, suc, ◌+◌, ◌-◌, ◌≤◌, ◌<◌, ◌≡◌, refl, ◌∙◌, sym, ap, List, [], ◌∷◌, ◌++◌, Bool, true, false, none,
  some, arith, ltb, if◌then◌else◌, length, take, drop, take_all, drop_all, take-append_le,
  drop-append_le, append_assoc, length-append, Bool-cases, inl, inr, ltb→lt, ltb→le, lt→ltb, le→ltb,
  subst,
}

module _ {K V : Type 0} ⦃e : Eq K⦄ where
  -- The map leads from each key to its entry, and to nothing else.
  pub record Indexed (keys : List (Node K V)) (cache : List (K × ℕ)) : Type 0 where
    pub is_map : IsMap cache
    pub distinct : IsDistinct keys
    pub same : (k : K) → find k cache ≡ place_of k keys
    pub sizes : length cache ≡ length keys

  place_of-snoc_none :
      (k : K) (xs : List (Node K V)) (n : Node K V)
      → place_of k xs ≡ none
      → place_of k (xs ++ n ∷ []) ≡ (if e.beq n.key k then some n.place else none)
  place_of-snoc_none k [] n h = refl
  place_of-snoc_none k (x ∷ xs) n h = ground (arith, place_of-snoc_none k xs n)

  place_of-snoc_other :
      (k : K) (xs : List (Node K V)) (n : Node K V)
      → e.beq n.key k ≡ false
      → place_of k (xs ++ n ∷ []) ≡ place_of k xs
  place_of-snoc_other k [] n h = rw h refl
  place_of-snoc_other k (x ∷ xs) n h = ground (arith, place_of-snoc_other k xs n h)

  at-snoc_none :
      (i : ℕ) (xs : List (Node K V)) (n : Node K V) → at i (xs ++ n ∷ []) ≡ none → at i xs ≡ none
  at-snoc_none i [] n h = refl
  at-snoc_none i (x ∷ xs) n h = ground (arith, at-snoc_none i xs n)

  place_of-before_none :
      (k : K) (xs : List (Node K V)) (n : Node K V)
      → place_of k (xs ++ n ∷ []) ≡ none
      → (place_of k xs ≡ none) × (e.beq n.key k ≡ false)
  place_of-before_none k [] n h = ground arith
  place_of-before_none k (x ∷ xs) n h = ground (arith, place_of-before_none k xs n)

  IsDistinct-snoc :
      (xs : List (Node K V)) (n : Node K V)
      → IsDistinct (xs ++ n ∷ [])
      → IsDistinct xs × (place_of n.key xs ≡ none)
  IsDistinct-snoc [] n d = (tt, refl)
  IsDistinct-snoc (x ∷ xs) n (dk, dp, d) =
      let ih = IsDistinct-snoc xs n d in
      let b = place_of-before_none x.key xs n dk in
      (
        (b.0, at-snoc_none x.place xs n dp, ih.0),
        ground (arith, ih.1, b.1, e.beq_iff n.key x.key, e.beq_iff x.key n.key),
      )

  pop-Indexed :
      (xs : List (Node K V)) (n : Node K V) (cache : List (K × ℕ))
      → Indexed (xs ++ n ∷ []) cache
      → Indexed xs (erase n.key cache)
  pop-Indexed xs n cache r =
      let d = IsDistinct-snoc xs n r.distinct in
      let here : find n.key cache ≡ some n.place =
        r.same n.key
        ∙ place_of-snoc_none n.key xs n d.1
        ∙ rw ((e.beq_iff n.key n.key).1 refl) refl in
      let count = length-erase n.key cache n.place here in
      record {
        is_map = erase-IsMap n.key cache r.is_map;
        distinct = d.0;
        same = λ k. elim (Bool-cases (e.beq n.key k)) [
          | inl eq ↦
              let p : n.key ≡ k = (e.beq_iff n.key k).0 eq in
              subst (λ (j : K). find j (erase n.key cache) ≡ place_of j xs) p
                (find-erase_same n.key cache r.is_map ∙ sym d.1)
          | inr ne ↦ find-erase_other n.key k cache ne ∙ r.same k ∙ place_of-snoc_other k xs n ne
        ];
        sizes = omega (arith, count, r.sizes, length-append xs (n ∷ []));
      }

  items-append : (xs ys : List (Node K V)) → items (xs ++ ys) ≡ items xs ++ items ys
  items-append [] ys = refl
  items-append (x ∷ xs) ys = ap (λ (l : List (K × V)). (x.key, x.value) ∷ l) (items-append xs ys)

  -- The calls for the entries `dropped`, the last entry's first.
  abbrev pub called : Bool → List (Node K V) → List (K × V) → List (K × V)
  called has_cb dropped calls = if has_cb then items dropped ++ calls else calls

  called-snoc :
      (has_cb : Bool) (xs : List (Node K V)) (n : Node K V) (calls : List (K × V))
      → called has_cb xs (call has_cb n calls) ≡ called has_cb (xs ++ n ∷ []) calls
  called-snoc true xs n calls = sym (
      ap (λ (l : List (K × V)). l ++ calls) (items-append xs (n ∷ []))
      ∙ append_assoc (items xs) ((n.key, n.value) ∷ []) calls)
  called-snoc false xs n calls = refl

  -- What the loop leaves.
  pub record Kept (max_size : ℕ) (has_cb : Bool) (keys : List (Node K V)) (cache : List (K × ℕ))
      (calls : List (K × V)) (count : ℕ) (back : List (Node K V)) : Type 0 where
    pub cache' : List (K × ℕ)
    pub runs :
        prune_loop max_size has_cb back cache calls count
        ≡ some (
          reverse (take max_size keys),
          cache',
          called has_cb (drop max_size keys) calls,
          count + (length keys - max_size),
        )
    pub indexed : Indexed (take max_size keys) cache'

  stops :
      (max_size : ℕ) (has_cb : Bool) (back : List (Node K V)) (cache : List (K × ℕ))
      (calls : List (K × V)) (count : ℕ)
      → length cache ≤ max_size
      → prune_loop max_size has_cb back cache calls count ≡ some (back, cache, calls, count)
  unfolding prune_loop
  stops max_size has_cb [] cache calls count h = rw (le→ltb max_size (length cache) h) refl
  stops max_size has_cb (n ∷ rest) cache calls count h = rw (le→ltb max_size (length cache) h) refl

  called_none : (has_cb : Bool) (calls : List (K × V)) → called has_cb [] calls ≡ calls
  called_none true calls = refl
  called_none false calls = refl

  stops-Kept :
      (max_size : ℕ) (has_cb : Bool) (back : List (Node K V)) (cache : List (K × ℕ))
      (calls : List (K × V)) (count : ℕ)
      → Indexed (reverse back) cache
      → length (reverse back) ≤ max_size
      → Kept max_size has_cb (reverse back) cache calls count back
  stops-Kept max_size has_cb back cache calls count r h =
      let whole : take max_size (reverse back) ≡ reverse back =
        take_all max_size (reverse back) h in
      let gone : drop max_size (reverse back) ≡ [] = drop_all max_size (reverse back) h in
      let zero_left : count + (length (reverse back) - max_size) ≡ count = omega arith in
      record {
        cache' = cache;
        runs =
            rw (whole, gone, zero_left, called_none has_cb calls, reverse-reverse back)
              (stops max_size has_cb back cache calls count (omega (arith, r.sizes)));
        indexed = rw whole r;
      }

  pops :
      (max_size : ℕ) (has_cb : Bool) (n : Node K V) (rest : List (Node K V)) (cache : List (K × ℕ))
      (calls : List (K × V)) (count : ℕ)
      → max_size < length cache
      → prune_loop max_size has_cb (n ∷ rest) cache calls count
        ≡ prune_loop max_size has_cb rest (erase n.key cache) (call has_cb n calls) (suc count)
  unfolding prune_loop
  pops max_size has_cb n rest cache calls count h = rw (lt→ltb max_size (length cache) h) refl

  pops-Kept :
      (max_size : ℕ) (has_cb : Bool) (n : Node K V) (rest keys : List (Node K V))
      (cache : List (K × ℕ)) (calls : List (K × V)) (count : ℕ)
      → max_size ≤ length keys
      → max_size < length cache
      → Kept max_size has_cb keys (erase n.key cache) (call has_cb n calls) (suc count) rest
      → Kept max_size has_cb (keys ++ n ∷ []) cache calls count (n ∷ rest)
  pops-Kept max_size has_cb n rest keys cache calls count h lt ih =
      let kept = take-append_le max_size keys (n ∷ []) h in
      let gone = drop-append_le max_size keys (n ∷ []) h in
      let count' : count + (length (keys ++ n ∷ []) - max_size)
          ≡ suc count + (length keys - max_size) =
        omega (arith, length-append keys (n ∷ [])) in
      record {
        cache' = ih.cache';
        runs =
            rw (kept, gone, count', ← called-snoc has_cb (drop max_size keys) n calls)
              (pops max_size has_cb n rest cache calls count lt ∙ ih.runs);
        indexed = rw kept ih.indexed;
      }

  pub prune_loop-Kept :
      (max_size : ℕ) (has_cb : Bool) (back : List (Node K V)) (cache : List (K × ℕ))
      (calls : List (K × V)) (count : ℕ)
      → Indexed (reverse back) cache
      → Kept max_size has_cb (reverse back) cache calls count back
  prune_loop-Kept max_size has_cb [] cache calls count r =
      stops-Kept max_size has_cb [] cache calls count r (omega arith)
  prune_loop-Kept max_size has_cb (n ∷ rest) cache calls count r =
      elim (Bool-cases (ltb max_size (length cache))) [
        | inl more ↦
            let lt = ltb→lt max_size (length cache) more in
            let snoc : reverse (n ∷ rest) ≡ reverse rest ++ n ∷ [] = reverse-cons n rest in
            let r' : Indexed (reverse rest ++ n ∷ []) cache =
              subst (λ (l : List (Node K V)). Indexed l cache) snoc r in
            let ih =
              prune_loop-Kept max_size has_cb rest (erase n.key cache) (call has_cb n calls)
                (suc count) (pop-Indexed (reverse rest) n cache r') in
            subst (λ (l : List (Node K V)). Kept max_size has_cb l cache calls count (n ∷ rest))
              (sym snoc)
              (pops-Kept max_size has_cb n rest (reverse rest) cache calls count
                (omega (arith, r'.sizes, length-append (reverse rest) (n ∷ []))) lt ih)
        | inr done ↦
            stops-Kept max_size has_cb (n ∷ rest) cache calls count r
              (omega (arith, r.sizes, ltb→le max_size (length cache) done))
      ]
