-- ===== src/Tests/Caches.antt =====
-- Runs of the caches.
use seaice.Prelude.{ℕ, ◌+◌, ◌≤◌, ◌≡◌, refl, List, [], ◌∷◌, true, some, arith, ◌==◌, ==_iff}
use seaice.Cache.{Eq}
use seaice.Cache.CacheStatus.{new_status}
use seaice.Cache.LruCache
use seaice.Cache.LruCache.{Node, LruCache, new_lru, find}
use seaice.Cache.LruCache.Moves.{IsValid}
use seaice.Cache.LruCache.Promise.{Request}
use seaice.Cache.LruCache.Runs.{RefinedAll, new_lru-RefinedAll}
use seaice.Cache.LruCache.Bounds.{set-size_le, set-get}

instance abbrev nat_eq : Eq ℕ
nat_eq = record { beq = ◌==◌; beq_iff = ==_iff }

abbrev requests : List (Request ℕ ℕ)
requests =
    Request.set 1 10 ∷ Request.set 2 20 ∷ Request.get 1 ∷ Request.set 3 30 ∷ Request.exist 2 ∷ []

abbrev fresh : LruCache ℕ ℕ
unfolding new_lru new_status
fresh = new_lru 1 2 0 new_status

new_lru-RefinedAll_example : RefinedAll 0 requests (new_lru 1 2 0 new_status)
new_lru-RefinedAll_example = new_lru-RefinedAll 1 2 0 new_status 0 requests

-- A cache with one entry.
abbrev one_entry : LruCache ℕ ℕ
unfolding new_status
one_entry = record {
  keys = record { place = 0; key = 1; value = 10 } ∷ [];
  cache = (1, 0) ∷ [];
  next = 1;
  max_size = 2;
  elasticity = 1;
  has_cb = true;
  calls = [];
  status = new_status;
}

one_entry-IsValid : IsValid one_entry
unfolding new_status
one_entry-IsValid = record {
  indexed = record {
    is_map = (refl, tt);
    distinct = (refl, refl, tt);
    same = λ k. refl;
    sizes = refl;
  };
  fresh = λ i h. ground arith;
}

set-size_le_example :
    (c' : LruCache ℕ ℕ) × (LruCache.set 2 20 one_entry ≡ some c')
    × IsValid c'
    × (LruCache.size c' ≤ one_entry.max_size + one_entry.elasticity)
unfolding LruCache.size new_status
set-size_le_example =
    set-size_le 2 20 one_entry one_entry-IsValid (omega arith) (omega arith) (omega arith)

set-get_example :
    (c' : LruCache ℕ ℕ) × (c'' : LruCache ℕ ℕ) × (LruCache.set 1 11 one_entry ≡ some c')
    × (LruCache.get 0 1 c' ≡ some (c'', 11))
set-get_example = set-get 0 1 11 one_entry one_entry-IsValid
