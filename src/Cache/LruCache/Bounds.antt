-- ===== src/Cache/LruCache/Bounds.antt =====
-- What `set` of LruCache promises by itself: the size, and what `get` finds after it.
use seaice.Cache.{Eq}
use seaice.Cache.LruCache
use seaice.Cache.LruCache.{
  Node, LruCache, at, erase_at, find, erase, splice, assign_splice, set_new, find_get, value_or,
  new_lru,
}
use seaice.Cache.LruCache.Index.{items, lookup, remove, length-items}
use seaice.Cache.LruCache.Promise.{Lru, Request, Answer, trim, put, specify, perform, view}
use seaice.Cache.LruCache.Moves.{IsValid}
use seaice.Cache.LruCache.Refines.{perform-Refined}
use seaice.Prelude.{
  ℕ, suc, ◌^◌, ◌+◌, ◌≤◌, ◌<◌, ◌≡◌, ◌≢◌, refl, ◌∙◌, sym, ap, List, [], ◌∷◌, Option, none, some,
  arith, length, length-take, take, zero,
}

module _ {K V : Type 0} ⦃e : Eq K⦄ where
  -- `set` by itself, from the promise.
  record Stored (k : K) (v : V) (c : LruCache K V) : Type 0 where
    c' : LruCache K V
    runs : LruCache.set k v c ≡ some c'
    promised : put k v (lookup k (items c.keys)) (view c) ≡ view c'
    valid : IsValid c'

  set-ran :
      (v0 : V) (k : K) (v : V) (c c' : LruCache K V) (a : Answer V)
      → perform v0 (Request.set k v) c ≡ some (c', a)
      → LruCache.set k v c ≡ some c'
  unfolding perform
  set-ran v0 k v c c' a h = ground arith

  set-Stored : (k : K) (v : V) (c : LruCache K V) → IsValid c → Stored k v c
  unfolding specify
  set-Stored k v c valid =
      let r = perform-Refined v (Request.set k v) c valid in
      record {
        c' = r.c';
        runs = set-ran v k v c r.c' r.answer r.runs;
        promised = ap (λ (p : Lru K V × Answer V). p.0) r.promised;
        valid = r.valid;
      }

  length-remove : (k : K) (l : List (K × V)) → length (remove k l) ≤ length l
  length-remove k [] = omega arith
  length-remove k ((j, v) ∷ l) = ground (arith, length-remove k l)

  length-remove_found :
      (k : K) (v : V) (l : List (K × V))
      → lookup k l ≡ some v
      → suc (length (remove k l)) ≡ length l
  length-remove_found k v [] h = cc
  length-remove_found k v ((j, w) ∷ l) h = ground (arith, length-remove_found k v l)

  length-trim :
      (l : Lru K V)
      → l.max_size ≢ 0
      → l.max_size + l.elasticity < 2 ^ 64
      → length (trim l).entries ≤ l.max_size + l.elasticity
  length-trim l h f = ground (arith, length-take l.max_size l.entries)

  length-put :
      (k : K) (v : V) (found : Option V) (l : Lru K V)
      → lookup k l.entries ≡ found
      → l.max_size ≢ 0
      → l.max_size + l.elasticity < 2 ^ 64
      → length l.entries ≤ l.max_size + l.elasticity
      → length (put k v found l).entries ≤ l.max_size + l.elasticity
  length-put k v none l h m f b = length-trim (record l { entries = (k, v) ∷ l.entries }) m f
  length-put k v (some old) l h m f b = omega (arith, length-remove_found k old l.entries h)

  -- On a cache whose map and list agree, with a maximum that is not 0 and whose sum with the
  -- elasticity does not wrap round, of at most that many entries: `set` succeeds, map and list
  -- agree again, and there are still at most that many entries.
  pub set-size_le :
      (k : K) (v : V) (c : LruCache K V)
      → IsValid c
      → c.max_size ≢ 0
      → c.max_size + c.elasticity < 2 ^ 64
      → LruCache.size c ≤ c.max_size + c.elasticity
      → (c' : LruCache K V) × (LruCache.set k v c ≡ some c')
        × IsValid c'
        × (LruCache.size c' ≤ c.max_size + c.elasticity)
  unfolding LruCache.size
  set-size_le k v c valid m f b =
      let s = set-Stored k v c valid in
      let before = valid.indexed.sizes ∙ sym (length-items c.keys) in
      let after = s.valid.indexed.sizes ∙ sym (length-items s.c'.keys) in
      let bound =
        length-put k v (lookup k (items c.keys)) (view c) refl m f (omega (arith, before)) in
      (
        s.c',
        s.runs,
        s.valid,
        omega (arith, after, bound, ap (λ (l : Lru K V). length l.entries) s.promised),
      )

  lookup-first : (k : K) (v : V) (rest : List (K × V)) → lookup k ((k, v) ∷ rest) ≡ some v
  lookup-first k v rest = rw ((e.beq_iff k k).1 refl) refl

  lookup-take_first :
      (k : K) (v : V) (rest : List (K × V)) (m : ℕ)
      → m ≢ 0
      → lookup k (take m ((k, v) ∷ rest)) ≡ some v
  lookup-take_first k v rest zero h = absurd (h refl)
  lookup-take_first k v rest (suc m) h = lookup-first k v (take m rest)

  lookup-trim :
      (k : K) (v : V) (rest : List (K × V)) (l : Lru K V)
      → lookup k (trim (record l { entries = (k, v) ∷ rest })).entries ≡ some v
  lookup-trim k v rest l =
      ground (arith, lookup-first k v rest, lookup-take_first k v rest l.max_size)

  lookup-put :
      (k : K) (v : V) (found : Option V) (l : Lru K V) → lookup k (put k v found l).entries ≡ some v
  lookup-put k v none l = lookup-trim k v l.entries l
  lookup-put k v (some old) l = lookup-first k v (remove k l.entries)

  get-ran :
      (v0 v : V) (k : K) (c c' : LruCache K V)
      → perform v0 (Request.get k) c ≡ some (c', Answer.value v)
      → LruCache.get v0 k c ≡ some (c', v)
  unfolding perform
  get-ran v0 v k c c' h = ground arith

  -- On a cache whose map and list agree, `set` succeeds and `get` of the same key then gives the
  -- value.
  pub set-get :
      (v0 : V) (k : K) (v : V) (c : LruCache K V)
      → IsValid c
      → (c' c'' : LruCache K V) × (LruCache.set k v c ≡ some c')
        × (LruCache.get v0 k c' ≡ some (c'', v))
  unfolding specify
  set-get v0 k v c valid =
      let s = set-Stored k v c valid in
      let g = perform-Refined v0 (Request.get k) s.c' s.valid in
      let found : lookup k (items s.c'.keys) ≡ some v =
        ap (λ (l : Lru K V). lookup k l.entries) (sym s.promised)
        ∙ lookup-put k v (lookup k (items c.keys)) (view c) in
      let a : Answer.value v ≡ g.answer =
        ap (λ (o : Option V). Answer.value (value_or v0 o)) (sym found)
        ∙ ap (λ (p : Lru K V × Answer V). p.1) g.promised in
      (s.c', g.c', s.runs, get-ran v0 v k s.c' g.c' (rw a g.runs))
