-- ===== src/Cache/LruCache.antt =====
-- seaice/ds/lru_cache.h, class LruCache: a list of entries, the most recently used first, and a map
-- from a key to the place of its entry in the list. A place, an iterator of the list, is a number
-- that the entry keeps when it moves; `none` stands for undefined behaviour, the use of a place that
-- the list does not have. The callback of `prune` is the list of the calls made, the last first.
pub mod Index
pub mod Prune
pub mod Promise
pub mod Moves
pub mod Methods
pub mod Refines
pub mod Runs
pub mod Bounds
use seaice.Cache.{Eq}
use seaice.Cache.CacheStatus.{CacheStatus, inc_set, inc_get, inc_del, inc_hit, inc_prune}
use seaice.Prelude.{
  ℕ, suc, ◌+◌, ◌%◌, ◌^◌, List, [], ◌∷◌, Bool, true, false, ◌||◌, Option, none, some, ltb, ◌==◌,
  if◌then◌else◌, length,
}
use mathlib.Core.List.{reverse}

pub record Node (K V : Type 0) : Type 0 where
  pub place : ℕ
  pub key : K
  pub value : V

-- `next` is the place that the list gives to its next entry.
pub record LruCache (K V : Type 0) : Type 0 where
  pub keys : List (Node K V)
  pub cache : List (K × ℕ)
  pub next : ℕ
  pub max_size : ℕ
  pub elasticity : ℕ
  pub has_cb : Bool
  pub calls : List (K × V)
  pub status : CacheStatus

-- The operations of `std::list` by a place.
module _ {K V : Type 0} where
  abbrev pub at : ℕ → List (Node K V) → Option (Node K V)
  at i [] = none
  at i (n ∷ rest) = if n.place == i then some n else at i rest

  abbrev pub erase_at : ℕ → List (Node K V) → List (Node K V)
  erase_at i [] = []
  erase_at i (n ∷ rest) = if n.place == i then rest else n ∷ erase_at i rest

  -- `splice(begin(), *this, it)`: the entry comes to the front.
  unfoldable pub splice : ℕ → List (Node K V) → Option (List (Node K V))
  splice i keys = elim (at i keys) [ none ↦ none | some n ↦ some (n ∷ erase_at i keys) ]

  -- `it->second->second = v`, then `splice`.
  unfoldable pub assign_splice : ℕ → V → List (Node K V) → Option (List (Node K V))
  assign_splice i v keys = elim (at i keys) [
    | none ↦ none
    | some n ↦ some (record n { value = v } ∷ erase_at i keys)
  ]

-- The operations of `std::unordered_map`.
module _ {K : Type 0} ⦃e : Eq K⦄ where
  abbrev pub find : K → List (K × ℕ) → Option ℕ
  find k [] = none
  find k ((j, i) ∷ rest) = if e.beq j k then some i else find k rest

  abbrev pub erase : K → List (K × ℕ) → List (K × ℕ)
  erase k [] = []
  erase k ((j, i) ∷ rest) = if e.beq j k then rest else (j, i) ∷ erase k rest

abbrev pub value_or : {V : Type 0} → V → Option V → V
value_or v0 none = v0
value_or v0 (some v) = v

module _ {K V : Type 0} ⦃e : Eq K⦄ where
  -- The constructor. It assigns `m_elasticity` to itself, so that its value is any number that the
  -- memory has, and not its argument.
  unfoldable pub new_lru : ℕ → ℕ → ℕ → CacheStatus → LruCache K V
  new_lru memory max_size elasticity status = record {
    keys = [];
    cache = [];
    next = 0;
    max_size = max_size;
    elasticity = memory;
    has_cb = false;
    calls = [];
    status = status;
  }

  unfoldable pub get_max_allow_size : LruCache K V → ℕ
  get_max_allow_size c = (c.max_size + c.elasticity) % 2 ^ 64

  abbrev pub call : Bool → Node K V → List (K × V) → List (K × V)
  call has_cb n calls = if has_cb then (n.key, n.value) ∷ calls else calls

  -- The loop of `prune` over the list from its back; the result has the entries that are left, from
  -- the back, the map, the calls and the count.
  unfoldable pub prune_loop :
      ℕ
      → Bool
      → List (Node K V)
      → List (K × ℕ)
      → List (K × V)
      → ℕ
      → Option (List (Node K V) × List (K × ℕ) × List (K × V) × ℕ)
  prune_loop max_size has_cb [] cache calls count =
      if ltb max_size (length cache) then none else some ([], cache, calls, count)
  prune_loop max_size has_cb (n ∷ rest) cache calls count =
      if ltb max_size (length cache)
      then prune_loop max_size has_cb rest (erase n.key cache) (call has_cb n calls) (suc count)
      else some (n ∷ rest, cache, calls, count)

  unfoldable pub prune : LruCache K V → Option (LruCache K V × ℕ)
  unfolding prune_loop get_max_allow_size
  prune c =
      if (c.max_size == 0) || ltb (length c.cache) (get_max_allow_size c)
      then some (c, 0)
      else elim (prune_loop c.max_size c.has_cb (reverse c.keys) c.cache c.calls 0) [
        | none ↦ none
        | some (back, cache, calls, count) ↦ some (
          record c {
            keys = reverse back;
            cache = cache;
            calls = calls;
            status = inc_prune 1 c.status;
          },
          count,
        )
      ]

  -- `set` for a key that the map does not have.
  unfoldable pub set_new : K → V → LruCache K V → Option (LruCache K V)
  unfolding prune
  set_new k v c =
      elim (prune (record c {
        keys = record { place = c.next; key = k; value = v } ∷ c.keys;
        cache = (k, c.next) ∷ c.cache;
        next = suc c.next;
      })) [ none ↦ none | some (c', count) ↦ some c' ]

  unfoldable pub set : K → V → LruCache K V → Option (LruCache K V)
  unfolding set_new assign_splice inc_set
  set k v c = elim (find k c.cache) [
    | none ↦ set_new k v (record c { status = inc_set 1 c.status })
    | some i ↦ elim (assign_splice i v c.keys) [
      | none ↦ none
      | some keys ↦ some (record c { keys = keys; status = inc_set 1 c.status })
    ]
  ]

  -- `get`, of both forms: what is found, if anything.
  unfoldable pub find_get : K → LruCache K V → Option (LruCache K V × Option V)
  unfolding splice inc_get inc_hit
  find_get k c = elim (find k c.cache) [
    | none ↦ some (record c { status = inc_get 1 c.status }, none)
    | some i ↦ elim (splice i c.keys) [
      | none ↦ none
      | some keys ↦ elim (at i keys) [
        | none ↦ none
        | some n ↦
            some (record c { keys = keys; status = inc_hit 1 (inc_get 1 c.status) }, some n.value)
      ]
    ]
  ]

  -- `V get(k)`; `v0` is the value `V()`.
  unfoldable pub get : V → K → LruCache K V → Option (LruCache K V × V)
  unfolding find_get
  get v0 k c = elim (find_get k c) [ none ↦ none | some (c', found) ↦ some (c', value_or v0 found) ]

  unfoldable pub del : K → LruCache K V → Option (LruCache K V × Bool)
  unfolding inc_del
  del k c = elim (find k c.cache) [
    | none ↦ some (record c { status = inc_del 1 c.status }, false)
    | some i ↦ elim (at i c.keys) [
      | none ↦ none
      | some n ↦ some (
        record c { keys = erase_at i c.keys; cache = erase k c.cache; status = inc_del 1 c.status },
        true,
      )
    ]
  ]

  unfoldable pub exist : K → LruCache K V → Bool
  exist k c = elim (find k c.cache) [ none ↦ false | some i ↦ true ]

  unfoldable pub size : LruCache K V → ℕ
  size c = length c.cache

  unfoldable pub empty : LruCache K V → Bool
  empty c = length c.cache == 0

  unfoldable pub clear : LruCache K V → LruCache K V
  clear c = record c { keys = []; cache = [] }

  unfoldable pub set_max_size : ℕ → LruCache K V → LruCache K V
  set_max_size v c = record c { max_size = v }

  unfoldable pub set_elasticity : ℕ → LruCache K V → LruCache K V
  set_elasticity v c = record c { elasticity = v }

  unfoldable pub set_prune_callback : LruCache K V → LruCache K V
  set_prune_callback c = record c { has_cb = true }
