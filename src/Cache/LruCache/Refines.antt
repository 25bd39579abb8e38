-- ===== src/Cache/LruCache/Refines.antt =====
-- Each method of LruCache keeps the promise of Promise.
use seaice.Cache.{Eq}
use seaice.Cache.CacheStatus.{CacheStatus, inc_set, inc_get, inc_del, inc_hit}
use seaice.Cache.LruCache
use seaice.Cache.LruCache.{
  Node, LruCache, at, erase_at, find, erase, splice, assign_splice, set_new, find_get, value_or,
  new_lru,
}
use seaice.Cache.LruCache.Index.{
  place_of, items, lookup, remove, entry, at-erase_at-none, lookup-items-none, length-items,
}
use seaice.Cache.LruCache.Promise.{Lru, Request, Answer, specify, perform, view}
use seaice.Cache.LruCache.Moves.{IsValid, move-Indexed, del-Indexed, prune-Cut}
use seaice.Cache.LruCache.Methods.{
  set-found, set-missed, get-found, get-missed, del-found, del-missed, exist-found, exist-missed,
}
use seaice.Prelude.{
  ℕ, suc, ◌≡◌, refl, ◌∙◌, sym, ap, List, [], ◌∷◌, true, false, Option, none, some, arith, ◌==◌,
  if◌then◌else◌, length, inl, inr, Option-cases, ==_iff,
}

module _ {K V : Type 0} ⦃e : Eq K⦄ where
  -- The method has a defined result, the promised answer, and leaves what is promised.
  pub record Refined (v0 : V) (request : Request K V) (c : LruCache K V) : Type 0 where
    pub c' : LruCache K V
    pub answer : Answer V
    pub runs : perform v0 request c ≡ some (c', answer)
    pub promised : specify v0 request (view c) ≡ (view c', answer)
    pub valid : IsValid c'

  push-IsValid :
      (k : K) (v : V) (status : CacheStatus) (c : LruCache K V)
      → IsValid c
      → find k c.cache ≡ none
      → IsValid (record c {
        keys = record { place = c.next; key = k; value = v } ∷ c.keys;
        cache = (k, c.next) ∷ c.cache;
        next = suc c.next;
        status = status;
      })
  push-IsValid k v status c valid absent =
      let r = valid.indexed in
      record {
        indexed = record {
          is_map = (absent, r.is_map);
          distinct = (sym (r.same k) ∙ absent, valid.fresh c.next (omega arith), r.distinct);
          same = λ j. ap (λ (o : Option ℕ). if e.beq k j then some c.next else o) (r.same j);
          sizes = ap suc r.sizes;
        };
        fresh = λ i h. ground (arith, valid.fresh i);
      }

  moved-IsValid :
      (i : ℕ) (m : Node K V) (k : K) (status : CacheStatus) (c : LruCache K V)
      → IsValid c
      → place_of k c.keys ≡ some i
      → m.key ≡ k
      → m.place ≡ i
      → IsValid (record c { keys = m ∷ erase_at i c.keys; status = status })
  moved-IsValid i m k status c valid h hk hp =
      let t = entry k i c.keys valid.indexed.distinct h in
      record {
        indexed = move-Indexed c.keys c.cache k i m valid.indexed h hk hp;
        fresh = λ j p.
            let gone = valid.fresh j p in
            let old = at-erase_at-none i j c.keys gone in
            ground (arith, old, gone, t.found, hp, ==_iff i j);
      }

  set_old :
      (v0 : V) (k : K) (v : V) (i : ℕ) (c : LruCache K V)
      → IsValid c
      → find k c.cache ≡ some i
      → Refined v0 (Request.set k v) c
  unfolding specify
  set_old v0 k v i c valid h =
      let p = sym (valid.indexed.same k) ∙ h in
      let t = entry k i c.keys valid.indexed.distinct p in
      let m : Node K V = record t.node { value = v } in
      record {
        c' = record c { keys = m ∷ erase_at i c.keys; status = inc_set 1 c.status };
        answer = Answer.done;
        runs = set-found v0 k v i t.node c h t.found;
        promised = rw (t.value, t.others, t.has_key) refl;
        valid = moved-IsValid i m k (inc_set 1 c.status) c valid p t.has_key t.has_place;
      }

  set_fresh :
      (v0 : V) (k : K) (v : V) (c : LruCache K V)
      → IsValid c
      → find k c.cache ≡ none
      → Refined v0 (Request.set k v) c
  unfolding specify
  set_fresh v0 k v c valid h =
      let absent = lookup-items-none k c.keys (sym (valid.indexed.same k) ∙ h) in
      let cut = prune-Cut _ (push-IsValid k v (inc_set 1 c.status) c valid h) in
      record {
        c' = cut.c';
        answer = Answer.done;
        runs = set-missed v0 k v c cut.c' cut.count h cut.runs;
        promised = rw absent (ap (λ (l : Lru K V). (l, Answer.done)) (sym cut.cut));
        valid = cut.valid;
      }

  get_found :
      (v0 : V) (k : K) (i : ℕ) (c : LruCache K V)
      → IsValid c
      → find k c.cache ≡ some i
      → Refined v0 (Request.get k) c
  unfolding specify
  get_found v0 k i c valid h =
      let p = sym (valid.indexed.same k) ∙ h in
      let t = entry k i c.keys valid.indexed.distinct p in
      let status = inc_hit 1 (inc_get 1 c.status) in
      record {
        c' = record c { keys = t.node ∷ erase_at i c.keys; status = status };
        answer = Answer.value t.node.value;
        runs = get-found v0 k i t.node c h t.found t.has_place;
        promised = rw (t.value, t.others, t.has_key) refl;
        valid = moved-IsValid i t.node k status c valid p t.has_key t.has_place;
      }

  get_missed :
      (v0 : V) (k : K) (c : LruCache K V)
      → IsValid c
      → find k c.cache ≡ none
      → Refined v0 (Request.get k) c
  unfolding specify
  get_missed v0 k c valid h =
      let absent = lookup-items-none k c.keys (sym (valid.indexed.same k) ∙ h) in
      record {
        c' = record c { status = inc_get 1 c.status };
        answer = Answer.value v0;
        runs = get-missed v0 k c h;
        promised = rw absent refl;
        valid = record { indexed = valid.indexed; fresh = valid.fresh };
      }

  del_found :
      (v0 : V) (k : K) (i : ℕ) (c : LruCache K V)
      → IsValid c
      → find k c.cache ≡ some i
      → Refined v0 (Request.del k) c
  unfolding specify
  del_found v0 k i c valid h =
      let p = sym (valid.indexed.same k) ∙ h in
      let t = entry k i c.keys valid.indexed.distinct p in
      record {
        c' = record c {
          keys = erase_at i c.keys;
          cache = erase k c.cache;
          status = inc_del 1 c.status;
        };
        answer = Answer.test true;
        runs = del-found v0 k i t.node c h t.found;
        promised = rw (t.value, t.others) refl;
        valid = record {
          indexed = del-Indexed c.keys c.cache k i valid.indexed p;
          fresh = λ j q. at-erase_at-none i j c.keys (valid.fresh j q);
        };
      }

  remove-none : (k : K) (l : List (K × V)) → lookup k l ≡ none → remove k l ≡ l
  remove-none k [] h = refl
  remove-none k ((j, v) ∷ l) h = ground (arith, remove-none k l)

  del_missed :
      (v0 : V) (k : K) (c : LruCache K V)
      → IsValid c
      → find k c.cache ≡ none
      → Refined v0 (Request.del k) c
  unfolding specify
  del_missed v0 k c valid h =
      let absent = lookup-items-none k c.keys (sym (valid.indexed.same k) ∙ h) in
      record {
        c' = record c { status = inc_del 1 c.status };
        answer = Answer.test false;
        runs = del-missed v0 k c h;
        promised = rw (absent, remove-none k (items c.keys) absent) refl;
        valid = record { indexed = valid.indexed; fresh = valid.fresh };
      }

  exist-Refined : (v0 : V) (k : K) (c : LruCache K V) → IsValid c → Refined v0 (Request.exist k) c
  unfolding specify
  exist-Refined v0 k c valid = elim (Option-cases (find k c.cache)) [
    | inl h ↦
        let absent = lookup-items-none k c.keys (sym (valid.indexed.same k) ∙ h) in
        record {
          c' = c;
          answer = Answer.test false;
          runs = exist-missed v0 k c h;
          promised = rw absent refl;
          valid = valid;
        }
    | inr (i, h) ↦
        let t = entry k i c.keys valid.indexed.distinct (sym (valid.indexed.same k) ∙ h) in
        record {
          c' = c;
          answer = Answer.test true;
          runs = exist-found v0 k i c h;
          promised = rw t.value refl;
          valid = valid;
        }
  ]

  -- Every method of a valid cache has a defined result and the promised answer.
  pub perform-Refined :
      (v0 : V) (request : Request K V) (c : LruCache K V) → IsValid c → Refined v0 request c
  unfolding perform specify LruCache.size LruCache.empty LruCache.clear LruCache.set_prune_callback
      LruCache.set_max_size LruCache.set_elasticity
  perform-Refined v0 (Request.set k v) c valid = elim (Option-cases (find k c.cache)) [
    | inl h ↦ set_fresh v0 k v c valid h
    | inr (i, h) ↦ set_old v0 k v i c valid h
  ]
  perform-Refined v0 (Request.get k) c valid = elim (Option-cases (find k c.cache)) [
    | inl h ↦ get_missed v0 k c valid h
    | inr (i, h) ↦ get_found v0 k i c valid h
  ]
  perform-Refined v0 (Request.del k) c valid = elim (Option-cases (find k c.cache)) [
    | inl h ↦ del_missed v0 k c valid h
    | inr (i, h) ↦ del_found v0 k i c valid h
  ]
  perform-Refined v0 (Request.exist k) c valid = exist-Refined v0 k c valid
  perform-Refined v0 Request.size c valid =
      let n = valid.indexed.sizes ∙ sym (length-items c.keys) in
      record {
        c' = c;
        answer = Answer.number (length c.cache);
        runs = refl;
        promised = rw n refl;
        valid = valid;
      }
  perform-Refined v0 Request.empty c valid =
      let n = valid.indexed.sizes ∙ sym (length-items c.keys) in
      record {
        c' = c;
        answer = Answer.test (length c.cache == 0);
        runs = refl;
        promised = rw n refl;
        valid = valid;
      }
  perform-Refined v0 Request.clear c valid = record {
    c' = record c { keys = []; cache = [] };
    answer = Answer.done;
    runs = refl;
    promised = refl;
    valid = record {
      indexed = record { is_map = tt; distinct = tt; same = λ k. refl; sizes = refl };
      fresh = λ i h. refl;
    };
  }
  perform-Refined v0 Request.set_prune_callback c valid = record {
    c' = record c { has_cb = true };
    answer = Answer.done;
    runs = refl;
    promised = refl;
    valid = record { indexed = valid.indexed; fresh = valid.fresh };
  }
  perform-Refined v0 (Request.set_max_size n) c valid = record {
    c' = record c { max_size = n };
    answer = Answer.done;
    runs = refl;
    promised = refl;
    valid = record { indexed = valid.indexed; fresh = valid.fresh };
  }
  perform-Refined v0 (Request.set_elasticity n) c valid = record {
    c' = record c { elasticity = n };
    answer = Answer.done;
    runs = refl;
    promised = refl;
    valid = record { indexed = valid.indexed; fresh = valid.fresh };
  }
