-- ===== src/Cache/LruCache/Moves.antt =====
-- What the operations of LruCache do to the map and the list together: an entry moved, deleted, and
-- the list cut.
use mathlib.Core.List.{reverse, reverse-reverse}
use seaice.Cache.{Eq}
use seaice.Cache.CacheStatus.{inc_prune}
use seaice.Cache.LruCache.{Node, LruCache, at, erase_at, find, erase, prune, get_max_allow_size}
use seaice.Cache.LruCache.Index.{
  place_of, items, entry, at-erase_at, erase_at-IsDistinct, place_of-erase_at, find-erase_same,
  find-erase_other, length-erase, erase-IsMap, length-erase_at, items-take, items-drop,
  length-items,
}
use seaice.Cache.LruCache.Prune.{Indexed, called, Kept, prune_loop-Kept}
use seaice.Cache.LruCache.Promise.{trim, view}
use seaice.Prelude.{
  ℕ, zero, suc, ◌+◌, ◌-◌, ◌%◌, ◌^◌, ◌≤◌, ◌≡◌, refl, ◌∙◌, sym, List, [], ◌∷◌, Bool, true, false,
  ◌||◌, none, some, arith, ltb, ◌==◌, if◌then◌else◌, length, take, drop, Bool-cases, inl, inr,
  subst,
}

module _ {K V : Type 0} ⦃e : Eq K⦄ where
  pub record IsValid (c : LruCache K V) : Type 0 where
    pub indexed : Indexed c.keys c.cache
    pub fresh : (i : ℕ) → c.next ≤ i → at i c.keys ≡ none

  -- An entry that comes to the front, with its key and its place.
  pub move-Indexed :
      (keys : List (Node K V)) (cache : List (K × ℕ)) (k : K) (i : ℕ) (m : Node K V)
      → Indexed keys cache
      → place_of k keys ≡ some i
      → m.key ≡ k
      → m.place ≡ i
      → Indexed (m ∷ erase_at i keys) cache
  move-Indexed keys cache k i m r h hk hp =
      let t = entry k i keys r.distinct h in
      let others = place_of-erase_at k i keys r.distinct h in
      let self : e.beq k k ≡ true = (e.beq_iff k k).1 refl in
      record {
        is_map = r.is_map;
        distinct = (
          rw hk (others k ∙ rw self refl),
          rw hp (at-erase_at i keys r.distinct),
          erase_at-IsDistinct i keys r.distinct,
        );
        same = λ j. ground (arith, r.same j, others j, e.beq_iff k j, hk, hp, h);
        sizes = r.sizes ∙ sym (length-erase_at i keys t.node t.found);
      }

  pub del-Indexed :
      (keys : List (Node K V)) (cache : List (K × ℕ)) (k : K) (i : ℕ)
      → Indexed keys cache
      → place_of k keys ≡ some i
      → Indexed (erase_at i keys) (erase k cache)
  del-Indexed keys cache k i r h =
      let t = entry k i keys r.distinct h in
      let others = place_of-erase_at k i keys r.distinct h in
      record {
        is_map = erase-IsMap k cache r.is_map;
        distinct = erase_at-IsDistinct i keys r.distinct;
        same = λ j. elim (Bool-cases (e.beq k j)) [
          | inl eq ↦
              let self : e.beq k k ≡ true = (e.beq_iff k k).1 refl in
              subst (λ (j : K). find j (erase k cache) ≡ place_of j (erase_at i keys))
                ((e.beq_iff k j).0 eq)
                (find-erase_same k cache r.is_map ∙ sym (others k ∙ rw self refl))
          | inr ne ↦ find-erase_other k j cache ne ∙ r.same j ∙ sym (others j ∙ rw ne refl)
        ];
        sizes = omega (
          arith,
          length-erase k cache i (r.same k ∙ h),
          length-erase_at i keys t.node t.found,
          r.sizes,
        );
      }

  -- The pruned cache is what the promise cuts.
  pub record Cut (c : LruCache K V) : Type 0 where
    pub c' : LruCache K V
    pub count : ℕ
    pub runs : prune c ≡ some (c', count)
    pub cut : view c' ≡ trim (view c)
    pub valid : IsValid c'

  -- The test of `prune` for an early return.
  abbrev is_small : LruCache K V → Bool
  is_small c = (c.max_size == 0) || ltb (length c.cache) ((c.max_size + c.elasticity) % 2 ^ 64)

  trim_test :
      (c : LruCache K V)
      → IsValid c
      → trim (view c) ≡ (
          if is_small c then view c else record (view c) {
            entries = items (take c.max_size c.keys);
            calls = called c.has_cb (drop c.max_size c.keys) c.calls;
          })
  trim_test c v =
      rw
        (
          items-take c.max_size c.keys,
          items-drop c.max_size c.keys,
          v.indexed.sizes ∙ sym (length-items c.keys),
        )
        refl

  prune_small : (c : LruCache K V) → IsValid c → is_small c ≡ true → Cut c
  unfolding prune get_max_allow_size
  prune_small c v small = record {
    c' = c;
    count = 0;
    runs = rw small refl;
    cut = sym (trim_test c v ∙ rw small refl);
    valid = v;
  }

  at-take-none : (i m : ℕ) (keys : List (Node K V)) → at i keys ≡ none → at i (take m keys) ≡ none
  at-take-none i zero keys h = refl
  at-take-none i (suc m) [] h = refl
  at-take-none i (suc m) (n ∷ rest) h = ground (arith, at-take-none i m rest)

  prune_large : (c : LruCache K V) → IsValid c → is_small c ≡ false → Cut c
  unfolding prune get_max_allow_size inc_prune
  prune_large c v large =
      let back = reverse-reverse c.keys in
      let r : Indexed (reverse (reverse c.keys)) c.cache =
        subst (λ (l : List (Node K V)). Indexed l c.cache) (sym back) v.indexed in
      let kept : Kept c.max_size c.has_cb c.keys c.cache c.calls 0 (reverse c.keys) =
        subst
          (λ (l : List (Node K V)). Kept c.max_size c.has_cb l c.cache c.calls 0 (reverse c.keys))
          back (prune_loop-Kept c.max_size c.has_cb (reverse c.keys) c.cache c.calls 0 r) in
      record {
        c' = record c {
          keys = take c.max_size c.keys;
          cache = kept.cache';
          calls = called c.has_cb (drop c.max_size c.keys) c.calls;
          status = inc_prune 1 c.status;
        };
        count = 0 + (length c.keys - c.max_size);
        runs = rw (large, kept.runs, reverse-reverse (take c.max_size c.keys)) refl;
        cut = sym (trim_test c v ∙ rw large refl);
        valid = record {
          indexed = kept.indexed;
          fresh = λ i h. at-take-none i c.max_size c.keys (v.fresh i h);
        };
      }

  pub prune-Cut : (c : LruCache K V) → IsValid c → Cut c
  prune-Cut c v = elim (Bool-cases (is_small c)) [
    | inl small ↦ prune_small c v small
    | inr large ↦ prune_large c v large
  ]
