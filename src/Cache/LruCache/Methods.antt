-- ===== src/Cache/LruCache/Methods.antt =====
-- What the methods of LruCache compute for a key that the map has, or does not have.
use seaice.Cache.{Eq}
use seaice.Cache.CacheStatus.{inc_set, inc_get, inc_del, inc_hit}
use seaice.Cache.LruCache
use seaice.Cache.LruCache.{
  Node, LruCache, at, erase_at, find, erase, splice, assign_splice, set_new, find_get, value_or,
  new_lru,
}
use seaice.Cache.LruCache.Promise.{Request, Answer, perform}
use seaice.Prelude.{ℕ, suc, ◌≡◌, ◌∷◌, true, false, none, some, arith, ==_iff}

module _ {K V : Type 0} ⦃e : Eq K⦄ where
  pub set-found :
      (v0 : V) (k : K) (v : V) (i : ℕ) (n : Node K V) (c : LruCache K V)
      → find k c.cache ≡ some i
      → at i c.keys ≡ some n
      → perform v0 (Request.set k v) c
        ≡ some (
          record c {
            keys = record n { value = v } ∷ erase_at i c.keys;
            status = inc_set 1 c.status;
          },
          Answer.done,
        )
  unfolding perform LruCache.set assign_splice
  set-found v0 k v i n c h f = ground (arith, h, f)

  pub set-missed :
      (v0 : V) (k : K) (v : V) (c c' : LruCache K V) (count : ℕ)
      → find k c.cache ≡ none
      → LruCache.prune (record c {
        keys = record { place = c.next; key = k; value = v } ∷ c.keys;
        cache = (k, c.next) ∷ c.cache;
        next = suc c.next;
        status = inc_set 1 c.status;
      })
        ≡ some (c', count)
      → perform v0 (Request.set k v) c ≡ some (c', Answer.done)
  unfolding perform LruCache.set set_new
  set-missed v0 k v c c' count h r = ground (arith, h, r)

  find_get-found :
      (k : K) (i : ℕ) (n : Node K V) (c : LruCache K V)
      → find k c.cache ≡ some i
      → at i c.keys ≡ some n
      → n.place ≡ i
      → find_get k c
        ≡ some (
          record c { keys = n ∷ erase_at i c.keys; status = inc_hit 1 (inc_get 1 c.status) },
          some n.value,
        )
  unfolding find_get splice
  find_get-found k i n c h f p = ground (arith, h, f, p, ==_iff n.place i)

  pub get-found :
      (v0 : V) (k : K) (i : ℕ) (n : Node K V) (c : LruCache K V)
      → find k c.cache ≡ some i
      → at i c.keys ≡ some n
      → n.place ≡ i
      → perform v0 (Request.get k) c
        ≡ some (
          record c { keys = n ∷ erase_at i c.keys; status = inc_hit 1 (inc_get 1 c.status) },
          Answer.value n.value,
        )
  unfolding perform LruCache.get
  get-found v0 k i n c h f p = ground (arith, find_get-found k i n c h f p)

  pub get-missed :
      (v0 : V) (k : K) (c : LruCache K V)
      → find k c.cache ≡ none
      → perform v0 (Request.get k) c
        ≡ some (record c { status = inc_get 1 c.status }, Answer.value v0)
  unfolding perform LruCache.get find_get
  get-missed v0 k c h = ground (arith, h)

  pub del-found :
      (v0 : V) (k : K) (i : ℕ) (n : Node K V) (c : LruCache K V)
      → find k c.cache ≡ some i
      → at i c.keys ≡ some n
      → perform v0 (Request.del k) c
        ≡ some (
          record c {
            keys = erase_at i c.keys;
            cache = erase k c.cache;
            status = inc_del 1 c.status;
          },
          Answer.test true,
        )
  unfolding perform LruCache.del
  del-found v0 k i n c h f = ground (arith, h, f)

  pub del-missed :
      (v0 : V) (k : K) (c : LruCache K V)
      → find k c.cache ≡ none
      → perform v0 (Request.del k) c
        ≡ some (record c { status = inc_del 1 c.status }, Answer.test false)
  unfolding perform LruCache.del
  del-missed v0 k c h = ground (arith, h)

  pub exist-found :
      (v0 : V) (k : K) (i : ℕ) (c : LruCache K V)
      → find k c.cache ≡ some i
      → perform v0 (Request.exist k) c ≡ some (c, Answer.test true)
  unfolding perform LruCache.exist
  exist-found v0 k i c h = ground (arith, h)

  pub exist-missed :
      (v0 : V) (k : K) (c : LruCache K V)
      → find k c.cache ≡ none
      → perform v0 (Request.exist k) c ≡ some (c, Answer.test false)
  unfolding perform LruCache.exist
  exist-missed v0 k c h = ground (arith, h)
