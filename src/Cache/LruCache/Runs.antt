-- ===== src/Cache/LruCache/Runs.antt =====
-- Runs of requests to a new cache.
use seaice.Cache.{Eq}
use seaice.Cache.CacheStatus.{CacheStatus}
use seaice.Cache.LruCache.{LruCache, new_lru}
use seaice.Cache.LruCache.Promise.{Lru, Request, Answer, specify, perform, view}
use seaice.Cache.LruCache.Moves.{IsValid}
use seaice.Cache.LruCache.Refines.{perform-Refined}
use seaice.Prelude.{ℕ, ◌≡◌, refl, List, [], ◌∷◌, Option, none, some}

abbrev pub prepend : {C A : Type 0} → A → Option (C × List A) → Option (C × List A)
prepend a none = none
prepend a (some (c, rest)) = some (c, a ∷ rest)

abbrev pub and_then :
    {C A : Type 0} → Option (C × A) → (C → Option (C × List A)) → Option (C × List A)
and_then none rest = none
and_then (some (c, a)) rest = prepend a (rest c)

module _ {K V : Type 0} ⦃e : Eq K⦄ where
  -- What a run of requests gives: the answers, in their order.
  abbrev pub perform_all :
      V → List (Request K V) → LruCache K V → Option (LruCache K V × List (Answer V))
  perform_all v0 [] c = some (c, [])
  perform_all v0 (r ∷ rs) c = and_then (perform v0 r c) (perform_all v0 rs)

  abbrev pub specify_all : V → List (Request K V) → Lru K V → Lru K V × List (Answer V)
  specify_all v0 [] l = (l, [])
  specify_all v0 (r ∷ rs) l =
      let (l', a) = specify v0 r l in let (l'', as') = specify_all v0 rs l' in (l'', a ∷ as')

  -- The cache after the requests is the one that is promised, and so are the answers.
  pub record RefinedAll (v0 : V) (requests : List (Request K V)) (c : LruCache K V) : Type 0 where
    pub c' : LruCache K V
    pub answers : List (Answer V)
    pub runs : perform_all v0 requests c ≡ some (c', answers)
    pub promised : specify_all v0 requests (view c) ≡ (view c', answers)
    pub valid : IsValid c'

  perform_all-IsValid :
      (v0 : V) (requests : List (Request K V)) (c : LruCache K V)
      → IsValid c
      → RefinedAll v0 requests c
  perform_all-IsValid v0 [] c valid = record {
    c' = c;
    answers = [];
    runs = refl;
    promised = refl;
    valid = valid;
  }
  perform_all-IsValid v0 (r ∷ rs) c valid =
      let step = perform-Refined v0 r c valid in
      let rest = perform_all-IsValid v0 rs step.c' step.valid in
      record {
        c' = rest.c';
        answers = step.answer ∷ rest.answers;
        runs = rw (step.runs, rest.runs) refl;
        promised = rw (step.promised, rest.promised) refl;
        valid = rest.valid;
      }

  new_lru-IsValid :
      (memory max_size elasticity : ℕ) (status : CacheStatus)
      → IsValid {K = K} {V = V} (new_lru memory max_size elasticity status)
  unfolding new_lru
  new_lru-IsValid memory max_size elasticity status = record {
    indexed = record { is_map = tt; distinct = tt; same = λ k. refl; sizes = refl };
    fresh = λ i h. refl;
  }

  -- For every list of requests to a new cache, with any value of the uninitialised elasticity: no
  -- call follows a place that the list does not have, the answers and the calls of the prune
  -- callback are those of the list of keys and values by recency that `specify` describes, and
  -- the cache then holds this list.
  pub new_lru-RefinedAll :
      (memory max_size elasticity : ℕ) (status : CacheStatus) (v0 : V)
      (requests : List (Request K V))
      → RefinedAll v0 requests (new_lru memory max_size elasticity status)
  new_lru-RefinedAll memory max_size elasticity status v0 requests =
      perform_all-IsValid v0 requests _ (new_lru-IsValid memory max_size elasticity status)
