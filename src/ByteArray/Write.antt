-- ===== src/ByteArray/Write.antt =====
-- `write` of seaice/bytearray.cpp against the bytes of the chain in a row.
use seaice.Prelude.{
  ℕ, ◌+◌, ◌-◌, ◌*◌, ◌%◌, ◌≤◌, ◌<◌, ◌≡◌, refl, ◌∙◌, ap, sym, ◌⊎◌, List, [], ◌∷◌, ◌++◌, arith, length,
  take, drop, flatten, replicate, take-append-drop, flatten-append, length-take, length-append,
  All-append, All-take, All-drop, length-drop,
}
use seaice.Prelude.Bytes.{memcpy, memcpy-append_ge}
use seaice.ByteArray.{ByteArray, Result, ok, write_nodes, after_write, write_loop, write, and_then}
use seaice.ByteArray.Chain.{
  Written, Written-nil, write_loop-Written, length-flatten, length-flatten-drop, write_loop_nil,
}
use seaice.ByteArray.Capacity.{Same, add_capacity-Extended}
use seaice.ByteArray.State.{IsValid, IsReady, contents, grown, cancel_lt, offset_of, mul_room}

-- What `write` does to a chain that has room for the buffer.
pub record Overwritten (b : ByteArray) (bs : List ℕ) (c : ByteArray) : Type 0 where
  pub same : Same b c
  pub valid : IsValid c
  pub bytes : contents c ≡ memcpy (contents b) b.pos bs
  pub pos : c.pos ≡ b.pos + length bs
  pub size : c.size ≡ b.size + length bs
  pub cap : c.cap ≡ b.cap
  pub here : c.cur < length c.nodes
  pub lower : c.cur * c.base_size ≤ c.pos
  pub upper : c.pos ≤ c.cur * c.base_size + c.base_size
  pub forward : b.cur ≤ c.cur

abbrev stored : List ℕ → List (List ℕ) → ℕ → ByteArray → ByteArray
stored bs ns steps b = record b {
  nodes = take b.cur b.nodes ++ ns;
  cur = b.cur + steps;
  pos = b.pos + length bs;
  size = b.size + length bs;
}

write_nodes_lem :
    (bs : List ℕ) (b : ByteArray) (ns : List (List ℕ)) (steps : ℕ)
    → 0 < b.base_size
    → write_loop (drop b.cur b.nodes) (b.pos % b.base_size) bs ≡ ok (ns, steps)
    → write_nodes bs b ≡ (stored bs ns steps b, ok tt)
unfolding write_nodes
write_nodes_lem bs b ns steps h e = ground (arith, ap (after_write bs b) e)

Overwritten-stored :
    (bs : List ℕ) (b : ByteArray) (ns : List (List ℕ)) (p steps : ℕ)
    → IsValid b
    → b.cur < length b.nodes
    → b.pos ≡ b.cur * b.base_size + p
    → p ≤ b.base_size
    → b.pos + length bs ≤ b.cap
    → Written b.base_size (drop b.cur b.nodes) p bs ns steps
    → Overwritten b bs (stored bs ns steps b)
Overwritten-stored bs b ns p steps v here hp hb fits w = record {
  same = record { base = refl; endian = refl; fill = refl };
  valid = record {
    base_pos = v.base_pos;
    rooted = omega (arith, long, v.rooted);
    equal = All-append _ front ns (All-take _ b.cur b.nodes v.equal) w.equal;
    cap_eq = v.cap_eq ∙ ap (λ (n : ℕ). n * b.base_size) (sym long);
    pos_le = fits;
  };
  bytes =
      flatten-append front ns
      ∙ ap (◌++◌ (flatten front)) w.bytes
      ∙ sym (memcpy-append_ge (flatten front) (flatten back) b.pos p bs (omega (arith, front_size)))
      ∙ ap (λ (bytes : List ℕ). memcpy bytes b.pos bs) whole;
  pos = refl;
  size = refl;
  cap = refl;
  here = omega (
    arith,
    long,
    cancel_lt (b.cur + steps) (length b.nodes) b.base_size
        (omega (arith, w.lower, v.cap_eq, mul_room b.cur (length b.nodes) b.base_size here)),
  );
  lower = omega (arith, w.lower);
  upper = omega (arith, w.upper);
  forward = omega arith;
}
  where
    front : List (List ℕ)
    front = take b.cur b.nodes

    back : List (List ℕ)
    back = drop b.cur b.nodes

    long : length (front ++ ns) ≡ length b.nodes
    long = omega (
      arith,
      length-append front ns,
      length-take b.cur b.nodes,
      length-drop b.cur b.nodes,
      w.count,
    )

    front_size : length (flatten front) ≡ b.cur * b.base_size
    front_size =
        length-flatten b.base_size front (All-take _ b.cur b.nodes v.equal)
        ∙ ap (λ (n : ℕ). n * b.base_size) (omega (arith, length-take b.cur b.nodes))

    whole : flatten front ++ flatten back ≡ contents b
    whole = sym (flatten-append front back) ∙ ap flatten (take-append-drop b.cur b.nodes)

-- The copying loop of `write` on a buffer that `addCapacity` has made room in.
write_nodes-Overwritten :
    (bs : List ℕ) (b : ByteArray)
    → IsValid b
    → b.cur < length b.nodes
    → b.cur * b.base_size ≤ b.pos
    → b.pos ≤ b.cur * b.base_size + b.base_size
    → (b.pos < b.cur * b.base_size + b.base_size) ⊎ (length bs ≡ 0)
    → b.pos + length bs ≤ b.cap
    → (c : ByteArray) × (write_nodes bs b ≡ (c, ok tt)) × Overwritten b bs c
write_nodes-Overwritten [] b v here lo hi room fits = (
  stored [] (drop b.cur b.nodes) 0 b,
  write_nodes_lem [] b (drop b.cur b.nodes) 0 v.base_pos
      (write_loop_nil (drop b.cur b.nodes) (b.pos % b.base_size)),
  Overwritten-stored [] b (drop b.cur b.nodes) (b.pos - b.cur * b.base_size) 0 v here (omega arith)
      (omega arith) fits
      (Written-nil b.base_size (drop b.cur b.nodes) (b.pos - b.cur * b.base_size)
        (All-drop _ b.cur b.nodes v.equal) (omega arith)),
)
write_nodes-Overwritten (x ∷ src) b v here lo hi room fits =
    let p = b.pos - b.cur * b.base_size in
    let inside : b.pos < b.cur * b.base_size + b.base_size = omega arith in
    let (ns, steps, e, w) =
      write_loop-Written b.base_size (drop b.cur b.nodes) p (x ∷ src)
        (All-drop _ b.cur b.nodes v.equal) (omega arith)
        (omega
          (arith, v.cap_eq, length-flatten-drop b.base_size b.cur b.nodes v.equal (omega arith))) in
    (
      stored (x ∷ src) ns steps b,
      write_nodes_lem (x ∷ src) b ns steps v.base_pos (
          ap (λ (q : ℕ). write_loop (drop b.cur b.nodes) q (x ∷ src))
            (offset_of b.pos b.cur b.base_size lo inside)
          ∙ e),
      Overwritten-stored (x ∷ src) b ns p steps v here (omega arith) (omega arith) fits w,
    )

-- A completed `write`: the chain has grown by just the nodes that the bytes need, and holds the bytes
-- from `m_pos` on and what it held before everywhere else; `m_pos` and `m_size` have both gone up by
-- the number of bytes.
pub record Wrote (b : ByteArray) (bs : List ℕ) (c : ByteArray) : Type 0 where
  pub valid : IsValid c
  pub same : Same b c
  pub bytes :
      contents c
      ≡ memcpy
          (contents b ++ flatten (replicate (grown b (length bs)) (replicate b.base_size b.fill)))
          b.pos
          bs
  pub pos : c.pos ≡ b.pos + length bs
  pub size : c.size ≡ b.size + length bs
  pub cap : c.cap ≡ b.cap + grown b (length bs) * b.base_size
  pub here : c.cur < length c.nodes
  pub lower : c.cur * c.base_size ≤ c.pos
  pub upper : c.pos ≤ c.cur * c.base_size + c.base_size
  pub forward : b.cur ≤ c.cur

-- `write` on a buffer whose cursor stands at the node of `m_pos` succeeds: it adds the nodes that
-- are missing for the bytes and no more, stores the bytes from `m_pos` on and leaves all others,
-- moves `m_pos` and `m_size` up by their number, keeps the chain well formed and the cursor at
-- the node of `m_pos` or at its end.
pub write-Wrote :
    (bs : List ℕ) (b : ByteArray)
    → IsReady b
    → (c : ByteArray) × (write bs b ≡ (c, ok tt)) × Wrote b bs c
unfolding write
write-Wrote bs b r =
    let (m, grows, x) = add_capacity-Extended (length bs) b r in
    let (c, copies, w) =
      write_nodes-Overwritten bs m x.valid x.here x.lower x.upper x.room x.fits in
    (
      c,
      ap (λ (o : ByteArray × Result (Unit {0})). and_then o (λ _. write_nodes bs)) grows ∙ copies,
      record {
        valid = w.valid;
        same = record {
          base = w.same.base ∙ x.same.base;
          endian = w.same.endian ∙ x.same.endian;
          fill = w.same.fill ∙ x.same.fill;
        };
        bytes =
            w.bytes
            ∙ ap (λ (p : ℕ). memcpy (contents m) p bs) x.pos
            ∙ ap (λ (bytes : List ℕ). memcpy bytes b.pos bs) x.bytes;
        pos = omega (arith, w.pos, x.pos);
        size = omega (arith, w.size, x.size);
        cap = omega (arith, w.cap, x.cap);
        here = w.here;
        lower = w.lower;
        upper = w.upper;
        forward = omega (arith, w.forward, x.forward);
      },
    )
