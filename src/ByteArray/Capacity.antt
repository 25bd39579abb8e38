-- ===== src/ByteArray/Capacity.antt =====
-- `addCapacity` of seaice/bytearray.cpp: the chain grows by the nodes that are missing.
use native.Mathlib.Decide.{dec_lt}
use seaice.Prelude.{
  ℕ, ◌+◌, ◌-◌, ◌*◌, ◌≤◌, ◌<◌, ◌≡◌, refl, ◌∙◌, ap, sym, ◌⊎◌, inl, ◌++◌, arith, length, flatten,
  replicate, flatten-append, length-append, append-nil, length-replicate, All-append,
}
use seaice.ByteArray.{ByteArray, ok, add_capacity}
use seaice.ByteArray.Chain.{Equal-replicate}
use seaice.ByteArray.State.{IsValid, IsReady, contents, grown, pos_of_mul, grown_none, grown_bounds}

-- What a call leaves as it was.
pub record Same (b c : ByteArray) : Type 0 where
  pub base : c.base_size ≡ b.base_size
  pub endian : c.endian ≡ b.endian
  pub fill : c.fill ≡ b.fill

-- What `addCapacity(n)` does: room for `n` bytes, and a cursor from which they can be written.
pub record Extended (b : ByteArray) (n : ℕ) (c : ByteArray) : Type 0 where
  pub same : Same b c
  pub valid : IsValid c
  pub pos : c.pos ≡ b.pos
  pub size : c.size ≡ b.size
  pub bytes :
      contents c ≡ contents b ++ flatten (replicate (grown b n) (replicate b.base_size b.fill))
  pub cap : c.cap ≡ b.cap + grown b n * b.base_size
  pub here : c.cur < length c.nodes
  pub lower : c.cur * c.base_size ≤ c.pos
  pub upper : c.pos ≤ c.cur * c.base_size + c.base_size
  pub room : (c.pos < c.cur * c.base_size + c.base_size) ⊎ (n ≡ 0)
  pub fits : c.pos + n ≤ c.cap
  pub forward : b.cur ≤ c.cur

abbrev bigger : ℕ → ℕ → ByteArray → ByteArray
bigger count i b = record b {
  nodes = b.nodes ++ replicate count (replicate b.base_size b.fill);
  cap = b.cap + count * b.base_size;
  cur = i;
}

add_capacity_full :
    (n : ℕ) (b : ByteArray)
    → IsReady b
    → b.cap - b.pos < n
    → b.cap ≡ b.pos
    → add_capacity n b ≡ (bigger (grown b n) (length b.nodes) b, ok tt)
unfolding add_capacity
add_capacity_full n b r more full = ground arith

add_capacity_part :
    (n : ℕ) (b : ByteArray)
    → IsReady b
    → b.cap - b.pos < n
    → b.pos < b.cap
    → add_capacity n b ≡ (bigger (grown b n) b.cur b, ok tt)
unfolding add_capacity
add_capacity_part n b r more part = ground arith

add_capacity_enough :
    (n : ℕ) (b : ByteArray) → IsReady b → n ≤ b.cap - b.pos → add_capacity n b ≡ (b, ok tt)
unfolding add_capacity
add_capacity_enough n b r enough = ground arith

Extended-bigger :
    (n : ℕ) (b : ByteArray) (i : ℕ)
    → IsReady b
    → b.cap - b.pos < n
    → b.cur ≤ i
    → i ≤ length b.nodes
    → i * b.base_size ≤ b.pos
    → b.pos < i * b.base_size + b.base_size
    → Extended b n (bigger (grown b n) i b)
Extended-bigger n b i r more forward here lower upper = record {
  same = record { base = refl; endian = refl; fill = refl };
  valid = record {
    base_pos = r.valid.base_pos;
    rooted = omega (arith, long, r.valid.rooted);
    equal = All-append _ b.nodes _ r.valid.equal (Equal-replicate b.base_size k b.fill);
    cap_eq = omega (arith, long, r.valid.cap_eq, ap (λ (m : ℕ). m * b.base_size) long);
    pos_le = omega arith;
  };
  pos = refl;
  size = refl;
  bytes = flatten-append b.nodes (replicate k (replicate b.base_size b.fill));
  cap = refl;
  here = omega (arith, long, pos_of_mul k b.base_size (omega (arith, bounds)));
  lower = lower;
  upper = omega arith;
  room = inl upper;
  fits = omega (arith, bounds);
  forward = forward;
}
  where
    k : ℕ
    k = grown b n

    bounds :
        (n - (b.cap - b.pos) ≤ k * b.base_size)
        × (k * b.base_size < n - (b.cap - b.pos) + b.base_size)
    bounds = grown_bounds b n r.valid.base_pos more

    long : length (b.nodes ++ replicate k (replicate b.base_size b.fill)) ≡ length b.nodes + k
    long =
        length-append b.nodes (replicate k (replicate b.base_size b.fill))
        ∙ ap (λ (m : ℕ). length b.nodes + m) (length-replicate k (replicate b.base_size b.fill))

Extended-same : (n : ℕ) (b : ByteArray) → IsReady b → n ≤ b.cap - b.pos → Extended b n b
Extended-same n b r h =
    let none : grown b n ≡ 0 = grown_none b n h in
    record {
      same = record { base = refl; endian = refl; fill = refl };
      valid = r.valid;
      pos = refl;
      size = refl;
      bytes =
          sym (append-nil (contents b))
          ∙ ap (λ (k : ℕ). contents b ++ flatten (replicate k (replicate b.base_size b.fill)))
              (sym none);
      cap = omega (arith, ap (λ (k : ℕ). k * b.base_size) none);
      here = r.here;
      lower = r.lower;
      upper = r.upper;
      room = ground arith;
      fits = omega (arith, r.valid.pos_le);
      forward = omega arith;
    }

-- `addCapacity(n)` on a buffer whose cursor is in place makes room for `n` bytes.
pub add_capacity-Extended :
    (n : ℕ) (b : ByteArray)
    → IsReady b
    → (c : ByteArray) × (add_capacity n b ≡ (c, ok tt)) × Extended b n c
add_capacity-Extended n b r = elim (dec_lt (b.cap - b.pos) n) [
  | yes more ↦ elim (dec_lt b.pos b.cap) [
    | yes part ↦ (
      bigger (grown b n) b.cur b,
      add_capacity_part n b r more part,
      Extended-bigger n b b.cur r more (omega arith) (omega arith) (omega arith) (omega arith),
    )
    | no full ↦ (
      bigger (grown b n) (length b.nodes) b,
      add_capacity_full n b r more (omega arith),
      Extended-bigger n b (length b.nodes) r more (omega arith) (omega arith) (omega arith)
          (omega arith),
    )
  ]
  | no enough ↦ (b, add_capacity_enough n b r (omega arith), Extended-same n b r (omega arith))
]
