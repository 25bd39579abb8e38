-- ===== src/ByteArray/Read.antt =====
-- A buffer that is read from: `read` and `setPos` of seaice/bytearray.cpp.
use seaice.Prelude.{
  ℕ, ◌+◌, ◌-◌, ◌*◌, ◌%◌, ◌≤◌, ◌<◌, ◌≡◌, refl, ◌∙◌, ap, sym, List, ◌++◌, arith, length, take, drop,
  flatten, take-append_le, take_all, drop-drop, take-take, drop-take, length-take, length-drop,
  drop-append_ge, take-append-drop, flatten-append, length-append, All-take, All-drop, Bool-cases,
  ltb, ◌==◌, inl, inr,
}
use seaice.ByteArray.{Result, get_read_size, ByteArray, ok, err, read, after_read, read_loop}
use seaice.ByteArray.Chain.{read_loop-chain, length-flatten, length-flatten-drop}
use seaice.ByteArray.Capacity.{Same}
use seaice.ByteArray.State.{IsValid, contents, offset_of, cancel_lt}
use seaice.ByteArray.Append.{length-contents}

-- The bytes from `m_pos` to `m_size` are `text`, and the cursor stands at the node of `m_pos`.
pub record Reading (b : ByteArray) (text : List ℕ) : Type 0 where
  pub valid : IsValid b
  pub lower : b.cur * b.base_size ≤ b.pos
  pub upper : b.pos < b.cur * b.base_size + b.base_size
  pub written : b.pos ≤ b.size
  pub inside : b.size ≤ b.cap
  pub unread : take (b.size - b.pos) (drop b.pos (contents b)) ≡ text

pub length-unread : (b : ByteArray) (text : List ℕ) → Reading b text → length text ≡ b.size - b.pos
length-unread b text r =
    ap length (sym r.unread)
    ∙ length-take (b.size - b.pos) (drop b.pos (contents b))
    ∙ omega (arith, length-drop b.pos (contents b), length-contents b r.valid, r.inside)

read_lem :
    (n : ℕ) (b : ByteArray) (bs : List ℕ) (steps : ℕ)
    → 0 < b.base_size
    → b.pos + n ≤ b.size
    → read_loop (drop b.cur b.nodes) (b.pos % b.base_size) n ≡ ok (bs, steps)
    → read n b ≡ (record b { cur = b.cur + steps; pos = b.pos + n }, ok bs)
unfolding read
read_lem n b bs steps h fits e = ground (arith, ap (after_read n b) e)

-- The bytes from the cursor's node on are those of the chain from there on.
drop-contents :
    (b : ByteArray)
    → IsValid b
    → b.cur ≤ length b.nodes
    → b.cur * b.base_size ≤ b.pos
    → drop (b.pos - b.cur * b.base_size) (flatten (drop b.cur b.nodes)) ≡ drop b.pos (contents b)
drop-contents b v here lower =
    sym (
      drop-append_ge b.pos (b.pos - b.cur * b.base_size) (flatten front) (flatten back)
        (omega (arith, front_size)))
    ∙ ap (drop b.pos)
        (sym (flatten-append front back) ∙ ap flatten (take-append-drop b.cur b.nodes))
  where
    front : List (List ℕ)
    front = take b.cur b.nodes

    back : List (List ℕ)
    back = drop b.cur b.nodes

    front_size : length (flatten front) ≡ b.cur * b.base_size
    front_size =
        length-flatten b.base_size front (All-take _ b.cur b.nodes v.equal)
        ∙ ap (λ (n : ℕ). n * b.base_size) (omega (arith, length-take b.cur b.nodes))

Reading-advance :
    (b : ByteArray) (bs rest : List ℕ) (steps : ℕ)
    → Reading b (bs ++ rest)
    → b.pos + length bs ≤ b.size
    → (b.cur + steps) * b.base_size ≤ b.pos + length bs
    → b.pos + length bs < (b.cur + steps) * b.base_size + b.base_size
    → Reading (record b { cur = b.cur + steps; pos = b.pos + length bs }) rest
Reading-advance b bs rest steps r fits lower upper =
    let n = length bs in
    let left = b.size - (b.pos + n) in
    record {
      valid = record {
        base_pos = r.valid.base_pos;
        rooted = r.valid.rooted;
        equal = r.valid.equal;
        cap_eq = r.valid.cap_eq;
        pos_le = omega (arith, r.inside);
      };
      lower = lower;
      upper = upper;
      written = fits;
      inside = r.inside;
      unread =
          ap (take left) (sym (drop-drop n b.pos (b.pos + n) (contents b) (omega arith)))
          ∙ sym (drop-take n left (b.size - b.pos) (drop b.pos (contents b)) (omega arith))
          ∙ ap (drop n) r.unread
          ∙ drop-append_ge n 0 bs rest (omega arith);
    }

pub cur_le : (b : ByteArray) (text : List ℕ) → Reading b text → b.cur ≤ length b.nodes
cur_le b text r = omega (
  arith,
  cancel_lt b.cur (length b.nodes + 1) b.base_size
      (omega (arith, r.lower, r.valid.cap_eq, r.valid.pos_le, r.valid.base_pos)),
)

-- The loop from the cursor on, for no more bytes than are unread.
pub read_loop-Reading :
    (n : ℕ) (b : ByteArray) (text : List ℕ)
    → Reading b text
    → n ≤ length text
    → (steps : ℕ) × (read_loop (drop b.cur b.nodes) (b.pos % b.base_size) n
        ≡ ok (take n text, steps))
      × ((b.cur + steps) * b.base_size ≤ b.pos + n)
      × (b.pos + n < (b.cur + steps) * b.base_size + b.base_size)
read_loop-Reading n b text r h =
    let p = b.pos - b.cur * b.base_size in
    let here : b.cur ≤ length b.nodes = cur_le b text r in
    let size : n ≤ b.size - b.pos = omega (arith, length-unread b text r) in
    let (steps, e, lower, upper) =
      read_loop-chain b.base_size (drop b.cur b.nodes) p n (All-drop _ b.cur b.nodes r.valid.equal)
        (omega (arith, r.lower, r.upper))
        (omega (
          arith,
          size,
          r.lower,
          r.inside,
          r.written,
          r.valid.cap_eq,
          length-flatten-drop b.base_size b.cur b.nodes r.valid.equal here,
        )) in
    let value : take n (drop p (flatten (drop b.cur b.nodes))) ≡ take n text =
      ap (take n) (drop-contents b r.valid here r.lower)
      ∙ sym (take-take n (b.size - b.pos) (drop b.pos (contents b)) size)
      ∙ ap (take n) r.unread in
    (
      steps,
      ap (λ (q : ℕ). read_loop (drop b.cur b.nodes) q n)
            (offset_of b.pos b.cur b.base_size r.lower r.upper)
          ∙ e
          ∙ ap (λ (bytes : List ℕ). ok (bytes, steps)) value,
      omega (arith, lower, r.lower),
      omega (arith, upper, r.lower),
    )

-- `read` of as many bytes as a prefix of the unread bytes has returns this prefix, across nodes,
-- leaves the rest to be read, and changes neither node size, byte order nor fill.
pub read-Reading :
    (n : ℕ) (b : ByteArray) (bs rest : List ℕ)
    → Reading b (bs ++ rest)
    → n ≡ length bs
    → (c : ByteArray) × (read n b ≡ (c, ok bs)) × Reading c rest × Same b c
read-Reading n b bs rest r h =
    let size : length bs + length rest ≡ b.size - b.pos =
      omega (arith, length-unread b (bs ++ rest) r, length-append bs rest) in
    let fits : b.pos + length bs ≤ b.size = omega (arith, size, r.written) in
    let (steps, e, lower, upper) =
      read_loop-Reading (length bs) b (bs ++ rest) r (omega (arith, length-append bs rest)) in
    let value : take (length bs) (bs ++ rest) ≡ bs =
      take-append_le (length bs) bs rest (omega arith) ∙ take_all (length bs) bs (omega arith) in
    (
      record b { cur = b.cur + steps; pos = b.pos + length bs },
      ap (λ (k : ℕ). read k b) h
          ∙ read_lem (length bs) b bs steps r.valid.base_pos fits
              (e ∙ ap (λ (bytes : List ℕ). ok (bytes, steps)) value),
      Reading-advance b bs rest steps r fits lower upper,
      record { base = refl; endian = refl; fill = refl },
    )

after_read-size :
    (n : ℕ) (b : ByteArray) (r : Result (List ℕ × ℕ)) → (after_read n b r).0.size ≡ b.size
unfolding after_read
after_read-size n b (ok (bs, steps)) = refl
after_read-size n b (err e) = refl

-- `read` leaves the number of bytes written as it is.
pub read-size : (n : ℕ) (b : ByteArray) → (read n b).0.size ≡ b.size
unfolding read
read-size n b = elim (Bool-cases (ltb (get_read_size b) n)) [
  | inl short ↦ rw (short) refl
  | inr enough ↦ elim (Bool-cases (b.base_size == 0)) [
    | inl none_there ↦ rw (enough, none_there) refl
    | inr some_there ↦
        rw (enough, some_there)
          (after_read-size n b (read_loop (drop b.cur b.nodes) (b.pos % b.base_size) n))
  ]
]
