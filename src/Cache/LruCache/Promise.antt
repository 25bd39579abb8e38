-- ===== src/Cache/LruCache/Promise.antt =====
-- What a cache promises: a list of keys and values, the most recently used first, that is cut to
-- its size when it has grown by the elasticity.
use seaice.Cache.{Eq}
use seaice.Cache.LruCache
use seaice.Cache.LruCache.{LruCache, value_or}
use seaice.Cache.LruCache.Index.{items, lookup, remove}
use seaice.Prelude.{
  ℕ, ◌+◌, ◌%◌, ◌^◌, List, [], ◌∷◌, ◌++◌, Bool, true, false, ◌||◌, Option, none, some, ltb, ◌==◌,
  if◌then◌else◌, length, take, drop,
}

pub record Lru (K V : Type 0) : Type 0 where
  pub entries : List (K × V)
  pub max_size : ℕ
  pub elasticity : ℕ
  pub has_cb : Bool
  pub calls : List (K × V)

pub data Request (K V : Type 0) : Type 0 where
  set : K → V → Request K V
  get del exist : K → Request K V
  size empty clear set_prune_callback : Request K V
  set_max_size set_elasticity : ℕ → Request K V

pub data Answer (V : Type 0) : Type 0 where
  value : V → Answer V
  test : Bool → Answer V
  number : ℕ → Answer V
  done : Answer V

abbrev pub is_found : {V : Type 0} → Option V → Bool
is_found none = false
is_found (some v) = true

module _ {K V : Type 0} ⦃e : Eq K⦄ where
  abbrev pub trim : Lru K V → Lru K V
  trim l =
      if (l.max_size == 0) || ltb (length l.entries) ((l.max_size + l.elasticity) % 2 ^ 64)
      then l
      else record l {
        entries = take l.max_size l.entries;
        calls = if l.has_cb then drop l.max_size l.entries ++ l.calls else l.calls;
      }

  abbrev pub put : K → V → Option V → Lru K V → Lru K V
  put k v none l = trim (record l { entries = (k, v) ∷ l.entries })
  put k v (some old) l = record l { entries = (k, v) ∷ remove k l.entries }

  abbrev pub touch : K → Option V → Lru K V → Lru K V
  touch k none l = l
  touch k (some v) l = record l { entries = (k, v) ∷ remove k l.entries }

  -- The promise.
  unfoldable pub specify : V → Request K V → Lru K V → Lru K V × Answer V
  specify v0 (set k v) l = (put k v (lookup k l.entries) l, done)
  specify v0 (get k) l = (touch k (lookup k l.entries) l, value (value_or v0 (lookup k l.entries)))
  specify v0 (del k) l =
      (record l { entries = remove k l.entries }, test (is_found (lookup k l.entries)))
  specify v0 (exist k) l = (l, test (is_found (lookup k l.entries)))
  specify v0 size l = (l, number (length l.entries))
  specify v0 empty l = (l, test (length l.entries == 0))
  specify v0 clear l = (record l { entries = [] }, done)
  specify v0 set_prune_callback l = (record l { has_cb = true }, done)
  specify v0 (set_max_size n) l = (record l { max_size = n }, done)
  specify v0 (set_elasticity n) l = (record l { elasticity = n }, done)

  abbrev pub answered :
      {R : Type 0} → (R → Answer V) → Option (LruCache K V × R) → Option (LruCache K V × Answer V)
  answered f none = none
  answered f (some (c, r)) = some (c, f r)

  -- The method that a request calls.
  unfoldable pub perform : V → Request K V → LruCache K V → Option (LruCache K V × Answer V)
  perform v0 (set k v) c = elim (LruCache.set k v c) [ none ↦ none | some c' ↦ some (c', done) ]
  perform v0 (get k) c = answered value (LruCache.get v0 k c)
  perform v0 (del k) c = answered test (LruCache.del k c)
  perform v0 (exist k) c = some (c, test (LruCache.exist k c))
  perform v0 size c = some (c, number (LruCache.size c))
  perform v0 empty c = some (c, test (LruCache.empty c))
  perform v0 clear c = some (LruCache.clear c, done)
  perform v0 set_prune_callback c = some (LruCache.set_prune_callback c, done)
  perform v0 (set_max_size n) c = some (LruCache.set_max_size n c, done)
  perform v0 (set_elasticity n) c = some (LruCache.set_elasticity n c, done)

  -- What a cache is to its user.
  abbrev pub view : LruCache K V → Lru K V
  view c = record {
    entries = items c.keys;
    max_size = c.max_size;
    elasticity = c.elasticity;
    has_cb = c.has_cb;
    calls = c.calls;
  }
