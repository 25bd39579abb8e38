-- ===== src/Rock/Carried.antt =====
-- A message of seaice/rock/rock_protocol.cpp over a stream that makes progress: what `serializeTo` sends,
-- and what `parseFrom` returns of it.
use seaice.Prelude.{
  ℕ, zero, suc, ◌+◌, ◌-◌, ◌^◌, ◌≤◌, ◌<◌, ◌≡◌, refl, ◌∙◌, ap, sym, subst, List, [], ◌∷◌, ◌++◌,
  append_assoc, append-nil, Option, none, some, length, take, drop, arith, true, drop-drop,
  length-append, length-drop, take-append_ge, drop-append_ge,
}
use seaice.Prelude.Bytes.{le_bytes, of_le-le_bytes}
use seaice.Endian.{big, byteswap_on_little_endian}
use seaice.ByteArray.{ByteArray, Result, and_then, ok, new}
use seaice.ByteArray.Position.{Filled, Appending-Filled, Filled-rewind}
use seaice.ByteArray.Streams.{Source}
use seaice.Rock.{Message, RockMsgHeader, new_header, header_for, decode, caught}
use seaice.Codec.Fixed.{byteswap-lt}
use seaice.Rock.Header.{header_for-accepted}
use seaice.Rock.RoundTrip.{IsMessage, message_bytes, message_bytes-some, decode-Reads, fresh-Sink}
use seaice.Rock.Streams.{
  header_bytes, header_of, parsed, parsed_of, parse_body_of, parse_from, after_header, after_read,
  after_body, after_check,
}
use seaice.Stream.{Received, complete}
use seaice.Stream.Complete.{IsSource}
use seaice.Stream.Exchange.{read_fix-Takes, is_positive}
use seaice.Stream.Buffered.{Moved, moved, read_fix_buffer, Advances, move_loop-complete}

take_none : (m : ℕ) → take {A = ℕ} m [] ≡ []
take_none zero = refl
take_none (suc m) = refl

take_add : (k m j : ℕ) (xs : List ℕ) → k + m ≡ j → take k xs ++ take m (drop k xs) ≡ take j xs
take_add zero m j xs h = ap (λ (i : ℕ). take i xs) (omega arith)
take_add (suc k) m j [] h = take_none m ∙ sym (take_none j)
take_add (suc k) m zero (x ∷ xs) h = absurd (omega arith)
take_add (suc k) m (suc j) (x ∷ xs) h = ap (λ (l : List ℕ). x ∷ l) (take_add k m j xs (omega arith))

module _ {S : Type 0} where
  -- A stream whose `read` with a ByteArray appends to it some of the bytes ahead. `Ready` says of
  -- which buffers it does so: of a new one, and of one that a call leaves with fewer bytes than it
  -- has been asked for. One with all of them may have its cursor behind the last node.
  pub record IsFiller (read_into : ℕ → S × ByteArray → (S × ByteArray) × Moved) (ahead : S → List ℕ)
      (Ready : ByteArray → List ℕ → Type 0) : Type 0 where
    pub ready_new : (fill : ℕ) → Ready (new 4096 fill) []
    pub fill_some :
        (left : ℕ) (s : S) (b : ByteArray) (text : List ℕ)
        → suc left ≤ length (ahead s)
        → Ready b text
        → Filled b text
        → (n : ℕ) × (t : S) × (c : ByteArray) × (read_into (suc left) (s, b)
            ≡ ((t, c), moved (suc n)))
          × (n ≤ left)
          × (ahead t ≡ drop (suc n) (ahead s))
          × (c.endian ≡ b.endian)
          × Filled c (text ++ take (suc n) (ahead s))
          × (n < left → Ready c (text ++ take (suc n) (ahead s)))

  -- The bytes still to be read make up `body` with those the buffer has.
  unfoldable Filling :
      (S → List ℕ) → (ByteArray → List ℕ → Type 0) → List ℕ → List ℕ → ℕ → S × ByteArray → Type 0
  Filling ahead Ready body rest left (s, b) =
      (text : List ℕ) × Filled b text
      × (0 < left → Ready b text)
      × (b.endian ≡ big)
      × (left ≤ length (ahead s))
      × (text ++ take left (ahead s) ≡ body)
      × (drop left (ahead s) ≡ rest)

  Filling-Advances :
      (read_into : ℕ → S × ByteArray → (S × ByteArray) × Moved) (ahead : S → List ℕ)
      (Ready : ByteArray → List ℕ → Type 0)
      → IsFiller read_into ahead Ready
      → (body rest : List ℕ) → Advances read_into (Filling ahead Ready body rest)
  unfolding Advances Filling
  Filling-Advances read_into ahead Ready h body rest left (s, b)
        (text, full, ready, order, enough, joined, after) =
      let (n, t, c, e, short, gone, order', full', ready') =
        h.fill_some left s b text enough (ready (omega arith)) full in
      let k = suc n in
      let m = left - n in
      let total : k + m ≡ suc left = omega arith in
      (
        n,
        (t, c),
        e,
        short,
        (
          text ++ take k (ahead s),
          full',
          λ some. ready' (omega arith),
          order' ∙ order,
          omega (arith, ap length gone, length-drop k (ahead s)),
          append_assoc text (take k (ahead s)) (take m (ahead t))
              ∙ ap (λ (l : List ℕ). text ++ (take k (ahead s) ++ take m l)) gone
              ∙ ap (λ (l : List ℕ). text ++ l) (take_add k m (suc left) (ahead s) total)
              ∙ joined,
          ap (drop m) gone ∙ drop-drop m k (suc left) (ahead s) (omega arith) ∙ after,
        ),
      )

  -- `readFixSize` of a body.
  filled :
      (read_into : ℕ → S × ByteArray → (S × ByteArray) × Moved) (ahead : S → List ℕ)
      (Ready : ByteArray → List ℕ → Type 0)
      → IsFiller read_into ahead Ready
      → (fill : ℕ) (body rest : List ℕ) (s : S) → ahead s ≡ body ++ rest
      → (t : S) × (b : ByteArray) × (read_fix_buffer read_into (length body) (s, new 4096 fill)
          ≡ ((t, b), complete tt))
        × Filled b body
        × (b.endian ≡ big)
        × (ahead t ≡ rest)
  unfolding read_fix_buffer Filling
  filled read_into ahead Ready h fill body rest s p =
      let n = length body in
      let size : length (ahead s) ≡ n + length rest = ap length p ∙ length-append body rest in
      let start : Filling ahead Ready body rest n (s, new 4096 fill) = (
        [],
        Appending-Filled (new 4096 fill) [] (fresh-Sink fill).appending,
        λ some. h.ready_new fill,
        (fresh-Sink fill).order,
        omega (arith, size),
        ap (take n) p ∙ take-append_ge n 0 body rest (omega arith) ∙ append-nil body,
        ap (drop n) p ∙ drop-append_ge n 0 body rest (omega arith),
      ) in
      let ((t, b), e, (text, full, ready, order, any, joined, after)) =
        move_loop-complete read_into (Filling ahead Ready body rest)
          (Filling-Advances read_into ahead Ready h body rest) n n (s, new 4096 fill) (omega arith)
          start in
      (t, b, e, subst (Filled b) (sym (append-nil text) ∙ joined) full, order, after)

header_of-header_bytes :
    (h : RockMsgHeader) → h.length < 2 ^ 32 → header_of (header_bytes h) ≡ some h
unfolding header_of header_bytes le_bytes
header_of-header_bytes h small =
    ap (λ (k : ℕ). some (record h { length = k })) (of_le-le_bytes 4 h.length (omega arith))

pub length-header_bytes : (h : RockMsgHeader) → length (header_bytes h) ≡ 8
unfolding header_bytes le_bytes
length-header_bytes h = refl

header_for-length : (flag n : ℕ) → (header_for flag n).length < 2 ^ 32
unfolding header_for new_header byteswap_on_little_endian
header_for-length flag n = byteswap-lt 4 n

pub is_positive_lem : (n : ℕ) → 0 < n → n < 2 ^ 31 → is_positive n ≡ true
is_positive_lem n some_bytes small = ground arith

-- The body of an uncompressed message.
body-parsed :
    (gunzip : ByteArray → Option ByteArray) (min_length n : ℕ) (m : Message) (b : ByteArray)
    → IsMessage m
    → Filled b (message_bytes m)
    → b.endian ≡ big
    → (d : ByteArray) × (parse_body_of gunzip min_length
          (record new_header { flag = 0; length = n })
          b
        ≡ (d, ok (some m)))
unfolding parse_body_of new_header
body-parsed gunzip min_length n m b h full order =
    let (c, moved_to, reading, same) = Filled-rewind b (message_bytes m) full in
    let source : Source big c (message_bytes m) = record {
      reading = reading;
      order = same.endian ∙ order;
    } in
    let (d, found, rest) =
      decode-Reads big m h c []
        (subst (Source big c) (sym (append-nil (message_bytes m))) source) in
    (
      d,
      ap (λ (o : ByteArray × Result (Unit {0})). caught none (and_then o (λ _. decode))) moved_to
          ∙ ap (caught none) found,
    )

module _ {S : Type 0} (read : ℕ → S → S × Received) (ahead : S → List ℕ)
    (read_into : ℕ → S × ByteArray → (S × ByteArray) × Moved)
    (gunzip : ByteArray → Option ByteArray) (source : IsSource read ahead)
    (Ready : ByteArray → List ℕ → Type 0) (filler : IsFiller read_into ahead Ready) where
  pub parse_from-parsed :
      (min_length max_length fill : ℕ) (m : Message) (s : S) (rest : List ℕ)
      → IsMessage m
      → length (message_bytes m) < max_length
      → length (message_bytes m) < 2 ^ 31
      → ahead s
        ≡ header_bytes (header_for 0 (length (message_bytes m))) ++ (message_bytes m ++ rest)
      → (t : S) × (parse_from read read_into gunzip min_length max_length fill s ≡ (t, parsed m))
        × (ahead t ≡ rest)
  unfolding parse_from after_header after_check after_body new_header
  parse_from-parsed min_length max_length fill m s rest h below small p =
      let n = length (message_bytes m) in
      let head = header_for 0 n in
      let (t, e, left) =
        read_fix-Takes read ahead source 8 (header_bytes head) (length-header_bytes head)
          (omega arith) (omega arith) s (message_bytes m ++ rest) p in
      let (u, b, filled_eq, full, order, after) =
        filled read_into ahead Ready filler fill (message_bytes m) rest t left in
      let (d, found) = body-parsed gunzip min_length n m b h full order in
      let got_head = record new_header { flag = 0; length = n } in
      let positive : is_positive n ≡ true = is_positive_lem n (message_bytes-some m) small in
      (
        u,
        ap (after_read read read_into gunzip min_length max_length fill) e
            ∙ ap (after_header read read_into gunzip min_length max_length fill t)
                (header_of-header_bytes head (header_for-length 0 n))
            ∙ ap (after_check read read_into gunzip min_length max_length fill t)
                (header_for-accepted max_length 0 n below (omega arith))
            ∙ ap (after_body read read_into gunzip min_length max_length fill got_head) filled_eq
            ∙ rw (positive)
                (ap (λ (o : ByteArray × Result (Option Message)). (u, parsed_of o)) found),
        after,
      )
