-- ===== src/Cache/LruCache/Index.antt =====
-- The entries that a map of places leads to: what a search of the map, an erased entry and a moved
-- entry do to it.
use seaice.Cache.{Eq}
use seaice.Cache.LruCache.{Node, at, erase_at, find, erase}
use seaice.Prelude.{
  ℕ, suc, ◌≡◌, refl, List, [], ◌∷◌, true, false, Option, none, some, arith, take, drop, zero, ◌==◌,
  if◌then◌else◌, ap, length, Bool-cases, inl, inr, ==_iff,
}

module _ {K : Type 0} ⦃e : Eq K⦄ where
  -- No key has two places in the map.
  abbrev pub IsMap : List (K × ℕ) → Type 0
  IsMap [] = Unit
  IsMap ((k, i) ∷ rest) = (find k rest ≡ none) × IsMap rest

  pub find-erase_other :
      (j k : K) (c : List (K × ℕ)) → e.beq j k ≡ false → find k (erase j c) ≡ find k c
  find-erase_other j k [] h = refl
  find-erase_other j k ((a, i) ∷ c) h =
      ground (arith, find-erase_other j k c h, e.beq_iff a j, e.beq_iff a k)

  pub find-erase_same : (k : K) (c : List (K × ℕ)) → IsMap c → find k (erase k c) ≡ none
  find-erase_same k [] m = refl
  find-erase_same k ((a, i) ∷ c) (u, m) = ground (arith, find-erase_same k c m, e.beq_iff a k)

  pub length-erase :
      (k : K) (c : List (K × ℕ)) (i : ℕ) → find k c ≡ some i → suc (length (erase k c)) ≡ length c
  length-erase k [] i h = cc
  length-erase k ((a, j) ∷ c) i h = ground (arith, length-erase k c i)

  find-erase-none : (j k : K) (c : List (K × ℕ)) → find k c ≡ none → find k (erase j c) ≡ none
  find-erase-none j k [] h = refl
  find-erase-none j k ((a, i) ∷ c) h = ground (arith, find-erase-none j k c)

  pub erase-IsMap : (k : K) (c : List (K × ℕ)) → IsMap c → IsMap (erase k c)
  erase-IsMap k [] m = tt
  erase-IsMap k ((a, i) ∷ c) (u, m) = elim (Bool-cases (e.beq a k)) [
    | inl same ↦ rw same m
    | inr other ↦ rw other (find-erase-none k a c u, erase-IsMap k c m)
  ]

module _ {K V : Type 0} ⦃e : Eq K⦄ where
  -- The place of the first entry with the key.
  abbrev pub place_of : K → List (Node K V) → Option ℕ
  place_of k [] = none
  place_of k (n ∷ rest) = if e.beq n.key k then some n.place else place_of k rest

  -- No two entries have the same key or the same place.
  abbrev pub IsDistinct : List (Node K V) → Type 0
  IsDistinct [] = Unit
  IsDistinct (n ∷ rest) = (place_of n.key rest ≡ none) × (at n.place rest ≡ none) × IsDistinct rest

  -- The entries without the first one of the key.
  abbrev pub remove : K → List (K × V) → List (K × V)
  remove k [] = []
  remove k ((j, v) ∷ rest) = if e.beq j k then rest else (j, v) ∷ remove k rest

  abbrev pub lookup : K → List (K × V) → Option V
  lookup k [] = none
  lookup k ((j, v) ∷ rest) = if e.beq j k then some v else lookup k rest

  abbrev pub items : List (Node K V) → List (K × V)
  items [] = []
  items (n ∷ rest) = (n.key, n.value) ∷ items rest

  -- The entry at the place of a key: it has the key and its value, and without it the list is as
  -- without the key.
  pub record Entry (k : K) (i : ℕ) (keys : List (Node K V)) : Type 0 where
    pub node : Node K V
    pub found : at i keys ≡ some node
    pub has_key : node.key ≡ k
    pub has_place : node.place ≡ i
    pub value : lookup k (items keys) ≡ some node.value
    pub others : items (erase_at i keys) ≡ remove k (items keys)

  at-cons_other :
      (i : ℕ) (n m : Node K V) (rest : List (Node K V))
      → at n.place rest ≡ none
      → at i rest ≡ some m
      → (n.place == i) ≡ false
  at-cons_other i n m rest h f = elim (Bool-cases (n.place == i)) [
    | inl same ↦ let p : n.place ≡ i = (==_iff n.place i).0 same in let q : none ≡ some m = cc in cc
    | inr other ↦ other
  ]

  Entry-front :
      (k : K) (i : ℕ) (n : Node K V) (rest : List (Node K V))
      → e.beq n.key k ≡ true
      → n.place ≡ i
      → Entry k i (n ∷ rest)
  Entry-front k i n rest same p =
      let t : (n.place == i) ≡ true = (==_iff n.place i).1 p in
      record {
        node = n;
        found = rw t refl;
        has_key = (e.beq_iff n.key k).0 same;
        has_place = p;
        value = rw same refl;
        others = rw (same, t) refl;
      }

  Entry-later :
      (k : K) (i : ℕ) (n : Node K V) (rest : List (Node K V))
      → e.beq n.key k ≡ false
      → at n.place rest ≡ none
      → Entry k i rest
      → Entry k i (n ∷ rest)
  Entry-later k i n rest other dp r =
      let t : (n.place == i) ≡ false = at-cons_other i n r.node rest dp r.found in
      record {
        node = r.node;
        found = rw t r.found;
        has_key = r.has_key;
        has_place = r.has_place;
        value = rw other r.value;
        others = rw (other, t) (ap (λ (l : List (K × V)). (n.key, n.value) ∷ l) r.others);
      }

  pub entry :
      (k : K) (i : ℕ) (keys : List (Node K V))
      → IsDistinct keys
      → place_of k keys ≡ some i
      → Entry k i keys
  entry k i [] d h = cc
  entry k i (n ∷ rest) (dk, dp, d) h = elim (Bool-cases (e.beq n.key k)) [
    | inl same ↦ Entry-front k i n rest same (ground (arith, same, h))
    | inr other ↦ Entry-later k i n rest other dp (entry k i rest d (ground (arith, other, h)))
  ]

  pub at-erase_at-none :
      (i j : ℕ) (keys : List (Node K V)) → at j keys ≡ none → at j (erase_at i keys) ≡ none
  at-erase_at-none i j [] h = refl
  at-erase_at-none i j (n ∷ rest) h = ground (arith, at-erase_at-none i j rest)

  pub at-erase_at :
      (i : ℕ) (keys : List (Node K V)) → IsDistinct keys → at i (erase_at i keys) ≡ none
  at-erase_at i [] d = refl
  at-erase_at i (n ∷ rest) (dk, dp, d) = ground (arith, at-erase_at i rest d)

  place_of-erase_at-none :
      (i : ℕ) (k : K) (keys : List (Node K V))
      → place_of k keys ≡ none
      → place_of k (erase_at i keys) ≡ none
  place_of-erase_at-none i k [] h = refl
  place_of-erase_at-none i k (n ∷ rest) h = ground (arith, place_of-erase_at-none i k rest)

  pub erase_at-IsDistinct :
      (i : ℕ) (keys : List (Node K V)) → IsDistinct keys → IsDistinct (erase_at i keys)
  erase_at-IsDistinct i [] d = tt
  erase_at-IsDistinct i (n ∷ rest) (dk, dp, d) = elim (Bool-cases (n.place == i)) [
    | inl same ↦ rw same d
    | inr other ↦ rw other (
      place_of-erase_at-none i n.key rest dk,
      at-erase_at-none i n.place rest dp,
      erase_at-IsDistinct i rest d,
    )
  ]

  -- Without the entry of a key the list has the other keys where it had them.
  pub place_of-erase_at :
      (k : K) (i : ℕ) (keys : List (Node K V))
      → IsDistinct keys
      → place_of k keys ≡ some i
      → (j : K) → place_of j (erase_at i keys) ≡ (if e.beq k j then none else place_of j keys)
  place_of-erase_at k i [] d h j = cc
  place_of-erase_at k i (n ∷ rest) (dk, dp, d) h j = elim (Bool-cases (e.beq n.key k)) [
    | inl same ↦ ground (arith, same, h, dk, e.beq_iff n.key k, e.beq_iff n.key j, e.beq_iff k j)
    | inr other ↦
        let later : place_of k rest ≡ some i = ground (arith, other, h) in
        let r = entry k i rest d later in
        let t : (n.place == i) ≡ false = at-cons_other i n r.node rest dp r.found in
        let ih = place_of-erase_at k i rest d later j in
        rw t (ground (arith, ih, e.beq_iff n.key k, e.beq_iff n.key j, e.beq_iff k j))
  ]

  pub length-erase_at :
      (i : ℕ) (keys : List (Node K V)) (n : Node K V)
      → at i keys ≡ some n
      → suc (length (erase_at i keys)) ≡ length keys
  length-erase_at i [] n h = cc
  length-erase_at i (m ∷ rest) n h = ground (arith, length-erase_at i rest n)

  pub lookup-items-none :
      (k : K) (keys : List (Node K V)) → place_of k keys ≡ none → lookup k (items keys) ≡ none
  lookup-items-none k [] h = refl
  lookup-items-none k (n ∷ rest) h = ground (arith, lookup-items-none k rest)

  pub items-take : (m : ℕ) (keys : List (Node K V)) → items (take m keys) ≡ take m (items keys)
  items-take zero keys = refl
  items-take (suc m) [] = refl
  items-take (suc m) (n ∷ rest) = ap (◌∷◌ (n.key, n.value)) (items-take m rest)

  pub items-drop : (m : ℕ) (keys : List (Node K V)) → items (drop m keys) ≡ drop m (items keys)
  items-drop zero keys = refl
  items-drop (suc m) [] = refl
  items-drop (suc m) (n ∷ rest) = items-drop m rest

  pub length-items : (keys : List (Node K V)) → length (items keys) ≡ length keys
  length-items [] = refl
  length-items (n ∷ rest) = ap suc (length-items rest)
