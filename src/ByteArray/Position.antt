-- ===== src/ByteArray/Position.antt =====
-- `setPos` of seaice/bytearray.cpp, and reading what has been written.
use native.Mathlib.Decide.{dec_lt}
use native.Mathlib.Nat.{div-add-mod', mod-lt}
use seaice.Prelude.{
  ℕ, ◌+◌, ◌-◌, ◌*◌, ◌/◌, ◌%◌, ◌≤◌, ◌<◌, ◌≡◌, refl, ◌∙◌, ap, sym, subst, List, ◌++◌, arith, le→ltb,
  ltb, if◌then◌else◌, length, take, drop, drop-take, drop-append_ge, length-append,
}
use seaice.ByteArray.{ByteArray, ok, err, out_of_range, set_pos}
use seaice.ByteArray.Capacity.{Same}
use seaice.ByteArray.State.{IsValid, contents, cancel_lt}
use seaice.ByteArray.Append.{Appending}
use seaice.ByteArray.Read.{Reading}

at_pos-bounds :
    (b : ByteArray) (v : ℕ)
    → IsValid b
    → v ≤ b.cap
    → (v / b.base_size ≤ length b.nodes)
      × (v / b.base_size * b.base_size ≤ v)
      × (v < v / b.base_size * b.base_size + b.base_size)
at_pos-bounds b v valid h =
    let split : v / b.base_size * b.base_size + v % b.base_size ≡ v = div-add-mod' v b.base_size in
    let small : v % b.base_size < b.base_size = mod-lt v valid.base_pos in
    (
      omega (
        arith,
        cancel_lt (v / b.base_size) (length b.nodes + 1) b.base_size
            (omega (arith, valid.cap_eq, valid.base_pos)),
      ),
      omega arith,
      omega arith,
    )

-- On a well-formed buffer `setPos` throws `std::out_of_range` and changes nothing if the place
-- lies beyond the capacity, and otherwise sets `m_pos`, moves `m_size` up to it if it lies below,
-- and puts the cursor at the place's node; it never follows a null pointer.
pub set_pos_lem :
    (v : ℕ) (b : ByteArray)
    → IsValid b
    → set_pos v b ≡ (
        if ltb b.cap v then (b, err out_of_range) else (
          record b { pos = v; size = if ltb b.size v then v else b.size; cur = v / b.base_size },
          ok tt,
        ))
unfolding set_pos
set_pos_lem v b valid = elim (dec_lt b.cap v) [
  | yes out ↦ ground arith
  | no fits ↦ ground (arith, (at_pos-bounds b v valid (omega arith)).0, valid.base_pos)
]

pub set_pos-Reading :
    (v : ℕ) (b : ByteArray)
    → IsValid b
    → v ≤ b.size
    → b.size ≤ b.cap
    → (c : ByteArray) × (set_pos v b ≡ (c, ok tt))
      × Reading c (take (b.size - v) (drop v (contents b)))
      × Same b c
set_pos-Reading v b valid h g =
    let same : (if ltb b.size v then v else b.size) ≡ b.size = ground arith in
    let (near, lower, upper) = at_pos-bounds b v valid (omega arith) in
    (
      record b { pos = v; cur = v / b.base_size },
      rw (le→ltb b.cap v (omega arith)) at (set_pos_lem v b valid)
          ∙ ap
              (λ (n : ℕ).
                let c : ByteArray = record b { pos = v; size = n; cur = v / b.base_size } in
                (c, ok tt))
              same,
      record {
        valid = record {
          base_pos = valid.base_pos;
          rooted = valid.rooted;
          equal = valid.equal;
          cap_eq = valid.cap_eq;
          pos_le = omega arith;
        };
        lower = lower;
        upper = upper;
        written = h;
        inside = g;
        unread = refl;
      },
      record { base = refl; endian = refl; fill = refl },
    )

-- The bytes up to the place are `text`, wherever the cursor stands.
pub record Filled (b : ByteArray) (text : List ℕ) : Type 0 where
  pub valid : IsValid b
  pub at_end : b.pos ≡ b.size
  pub long : length text ≡ b.pos
  pub holds : take b.pos (contents b) ≡ text

pub Appending-Filled : (b : ByteArray) (text : List ℕ) → Appending b text → Filled b text
Appending-Filled b text a = record {
  valid = a.ready.valid;
  at_end = a.at_end;
  long = a.long;
  holds = a.holds;
}

-- `setPos(0)` does not look at the cursor.
pub Filled-rewind :
    (b : ByteArray) (text : List ℕ)
    → Filled b text
    → (c : ByteArray) × (set_pos 0 b ≡ (c, ok tt)) × Reading c text × Same b c
Filled-rewind b text a =
    let (c, e, r, s) =
      set_pos-Reading 0 b a.valid (omega arith) (omega (arith, a.at_end, a.valid.pos_le)) in
    let all : take (b.size - 0) (contents b) ≡ text =
      ap (λ (n : ℕ). take n (contents b)) (omega (arith, a.at_end)) ∙ a.holds in
    (c, e, subst (Reading c) all r, s)

-- `setPos(0)` on a buffer that has only been written to succeeds, and all that was written is
-- then unread.
pub rewind :
    (b : ByteArray) (text : List ℕ)
    → Appending b text
    → (c : ByteArray) × (set_pos 0 b ≡ (c, ok tt)) × Reading c text × Same b c
rewind b text a = Filled-rewind b text (Appending-Filled b text a)

-- `setPos` to a place behind `text` turns it into one from which the rest of what has been written
-- can be read.
pub reread :
    (b : ByteArray) (text bs : List ℕ)
    → Appending b (text ++ bs)
    → (c : ByteArray) × (set_pos (length text) b ≡ (c, ok tt)) × Reading c bs × Same b c
reread b text bs a =
    let n = length text in
    let size : b.size ≡ n + length bs = omega (arith, a.at_end, a.long, length-append text bs) in
    let (c, e, r, s) =
      set_pos-Reading n b a.ready.valid (omega (arith, size))
        (omega (arith, a.at_end, a.ready.valid.pos_le)) in
    let left : take (b.size - n) (drop n (contents b)) ≡ bs =
      sym (drop-take n (b.size - n) b.size (contents b) (omega (arith, size)))
      ∙ ap (λ (m : ℕ). drop n (take m (contents b))) (sym a.at_end)
      ∙ ap (drop n) a.holds
      ∙ drop-append_ge n 0 text bs (omega arith) in
    (c, e, subst (Reading c) left r, s)
