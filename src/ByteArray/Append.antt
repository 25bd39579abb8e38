-- ===== src/ByteArray/Append.antt =====
-- A buffer that is only written to: seaice/bytearray.cpp between its constructor and `setPos`.
use seaice.Prelude.{
  ℕ, ◌+◌, ◌-◌, ◌*◌, ◌≤◌, ◌<◌, ◌≡◌, refl, ◌∙◌, ap, sym, ◌⊎◌, inl, inr, List, [], ◌++◌, arith, length,
  take, flatten, replicate, take-append_le, length-append, length-replicate,
}
use native.Mathlib.Decide.{dec_lt}
use seaice.Prelude.Bytes.{take-memcpy}
use seaice.ByteArray.{ByteArray, ok, new, write}
use seaice.ByteArray.Chain.{length-flatten}
use seaice.ByteArray.Capacity.{Same}
use seaice.ByteArray.Write.{Wrote, write-Wrote}
use seaice.ByteArray.State.{IsValid, IsReady, contents, grown, cancel_lt, grown_bounds, grown_none}

-- The buffer holds `text`, which has been written from its start on, and nothing else.
pub record Appending (b : ByteArray) (text : List ℕ) : Type 0 where
  pub ready : IsReady b
  pub last : b.cur + 1 ≡ length b.nodes
  pub at_end : b.pos ≡ b.size
  pub long : length text ≡ b.pos
  pub holds : take b.pos (contents b) ≡ text

pub new-Appending : (base fill : ℕ) → 0 < base → Appending (new base fill) []
unfolding new
new-Appending base fill h = record {
  ready = record {
    valid = record {
      base_pos = h;
      rooted = omega arith;
      equal = (length-replicate base fill, tt);
      cap_eq = omega arith;
      pos_le = omega arith;
    };
    here = omega arith;
    lower = omega arith;
    upper = omega arith;
    room = inl (omega arith);
  };
  last = refl;
  at_end = refl;
  long = refl;
  holds = refl;
}

pub length-contents : (b : ByteArray) → IsValid b → length (contents b) ≡ b.cap
length-contents b v = length-flatten b.base_size b.nodes v.equal ∙ sym v.cap_eq

-- After a write to a buffer in this state the cursor is at the last node again.
last_node :
    (b c : ByteArray) (bs : List ℕ) {text : List ℕ}
    → Appending b text
    → Wrote b bs c
    → c.cur + 1 ≡ length c.nodes
last_node b c bs a w = elim (dec_lt (b.cap - b.pos) (length bs)) [
  | yes more ↦ omega (
    arith,
    cancel_lt (length c.nodes) (c.cur + 2) c.base_size (
        omega (
          arith,
          w.valid.cap_eq,
          w.cap,
          w.upper,
          w.pos,
          w.same.base,
          a.ready.valid.pos_le,
          grown_bounds b (length bs) a.ready.valid.base_pos more,
        )),
    w.here,
  )
  | no enough ↦ omega (
    arith,
    cancel_lt (length c.nodes) (length b.nodes + 1) c.base_size (
        omega (
          arith,
          w.valid.cap_eq,
          w.cap,
          w.valid.base_pos,
          a.ready.valid.cap_eq,
          ap (λ (n : ℕ). length b.nodes * n) w.same.base,
          ap (λ (n : ℕ). n * b.base_size) (grown_none b (length bs) (omega arith)),
        )),
    w.here,
    w.forward,
    a.last,
  )
]

at_end :
    (c : ByteArray)
    → IsValid c
    → c.cur + 1 ≡ length c.nodes
    → c.pos ≤ c.cur * c.base_size + c.base_size
    → (c.pos < c.cur * c.base_size + c.base_size) ⊎ (c.pos ≡ c.cap)
at_end c v last upper = elim (dec_lt c.pos (c.cur * c.base_size + c.base_size)) [
  | yes inside ↦ inl inside
  | no full ↦ inr (omega (arith, v.cap_eq, ap (λ (n : ℕ). n * c.base_size) last))
]

holds_more :
    (b c : ByteArray) (bs : List ℕ) {text : List ℕ}
    → Appending b text
    → Wrote b bs c
    → take c.pos (contents c) ≡ text ++ bs
holds_more b c bs {text} a w =
    let size : length (contents b) ≡ b.cap = length-contents b a.ready.valid in
    let more = flatten (replicate (grown b (length bs)) (replicate b.base_size b.fill)) in
    ap (λ (n : ℕ). take n (contents c)) w.pos
    ∙ ap (take (b.pos + length bs)) w.bytes
    ∙ take-memcpy (contents b ++ more) b.pos bs
        (omega (arith, size, length-append (contents b) more, a.ready.valid.pos_le))
    ∙ ap (λ (front : List ℕ). front ++ bs)
        (take-append_le b.pos (contents b) more (omega (arith, size, a.ready.valid.pos_le))
          ∙ a.holds)

-- `write` on a buffer that has only been written to since its construction succeeds and appends
-- its bytes to those written before; the buffer is again such a buffer, and node size, byte order
-- and fill are unchanged.
pub write-Appending :
    (bs : List ℕ) (b : ByteArray) (text : List ℕ)
    → Appending b text
    → (c : ByteArray) × (write bs b ≡ (c, ok tt)) × Appending c (text ++ bs) × Same b c
write-Appending bs b text a =
    let (c, e, w) = write-Wrote bs b a.ready in
    let last : c.cur + 1 ≡ length c.nodes = last_node b c bs a w in
    (
      c,
      e,
      record {
        ready = record {
          valid = w.valid;
          here = w.here;
          lower = w.lower;
          upper = w.upper;
          room = at_end c w.valid last w.upper;
        };
        last = last;
        at_end = omega (arith, w.pos, w.size, a.at_end);
        long = omega (arith, w.pos, a.long, length-append text bs);
        holds = holds_more b c bs a w;
      },
      w.same,
    )
