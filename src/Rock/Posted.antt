-- ===== src/Rock/Posted.antt =====
-- What `serializeTo` of seaice/rock/rock_protocol.cpp sends over a stream that makes progress, and that
-- `parseFrom` on the other side returns it.
use seaice.Prelude.{
  ℕ, suc, ◌+◌, ◌%◌, ◌^◌, ◌≤◌, ◌<◌, ◌≡◌, refl, ◌∙◌, ap, sym, List, ◌++◌, append_assoc, Option,
  length, take, drop, arith, true, false, Bool, if◌then◌else◌, ltb, leb, take-append-drop,
  length-append, length-drop, [], ◌∷◌, append-nil,
}
use seaice.Endian.{big}
use seaice.ByteArray.{ByteArray, Result, ok, new, set_pos, get_read_size}
use seaice.ByteArray.Position.{set_pos_lem}
use seaice.ByteArray.Read.{length-unread}
use seaice.ByteArray.Streams.{Sink, Source, Sink-rewind}
use seaice.Rock.{Message, header_for, to_byte_array, when_true}
use seaice.Rock.RoundTrip.{
  IsMessage, message_bytes, message_bytes-some, serialize-Emits, fresh-Sink,
}
use seaice.Rock.Streams.{
  header_bytes, serialized, minus, serialize_to, after_message, after_rewind, after_sent_header,
  after_sent_body, send, parsed, parse_from,
}
use seaice.Rock.Carried.{IsFiller, is_positive_lem, length-header_bytes, parse_from-parsed}
use seaice.Stream.{Received, Sent, complete}
use seaice.Stream.Complete.{IsSource, IsTarget}
use seaice.Stream.Exchange.{is_positive, write_fix-Gives}
use seaice.Stream.Buffered.{Moved, moved, write_fix_buffer, Advances, move_loop-complete}

no_bytes : (bs : List ℕ) → length bs ≡ 0 → bs ≡ []
no_bytes [] h = refl
no_bytes (x ∷ bs) h = absurd (omega arith)

below_limit : (limit k n : ℕ) → k ≡ n → n < limit → n < 2 ^ 31 → leb limit (k % 2 ^ 32) ≡ false
below_limit limit k n same short small = ground arith

-- The buffer that `setPos(0)` gives has the size of what has been written, all of it unread.
rewound-size :
    (b c : ByteArray) (text : List ℕ)
    → Sink big b text
    → set_pos 0 b ≡ (c, ok tt)
    → c.size ≡ length text
rewound-size b c text sink e =
    let a = sink.appending in
    ap (λ (x : ByteArray × Result (Unit {0})). x.0.size) (sym e ∙ set_pos_lem 0 b a.ready.valid)
    ∙ ground (arith, a.at_end, a.long)

unread_size : (c : ByteArray) (text : List ℕ) → Source big c text → get_read_size c ≡ length text
unread_size c text source =
    let r = source.reading in ground (arith, length-unread c text r, r.written)

module _ {S : Type 0} where
  -- A stream whose `write` with a ByteArray takes some of the unread bytes off it.
  pub record IsDrainer (write_from : ℕ → S × ByteArray → (S × ByteArray) × Moved)
      (taken : S → List ℕ) : Type 0 where
    pub drain_some :
        (left : ℕ) (s : S) (b : ByteArray) (text : List ℕ)
        → suc left ≤ length text
        → Source big b text
        → (n : ℕ) × (t : S) × (c : ByteArray) × (write_from (suc left) (s, b)
            ≡ ((t, c), moved (suc n)))
          × (n ≤ left)
          × (taken t ≡ taken s ++ take (suc n) text)
          × Source big c (drop (suc n) text)
          × (c.size ≡ b.size)

  -- The bytes that the stream has taken make up `final` with those that are left.
  unfoldable Draining : (S → List ℕ) → List ℕ → ℕ → ℕ → S × ByteArray → Type 0
  Draining taken final size left (s, b) =
      (text : List ℕ) × Source big b text
      × (length text ≡ left)
      × (taken s ++ text ≡ final)
      × (b.size ≡ size)

  Draining-Advances :
      (write_from : ℕ → S × ByteArray → (S × ByteArray) × Moved) (taken : S → List ℕ)
      → IsDrainer write_from taken
      → (final : List ℕ) (size : ℕ) → Advances write_from (Draining taken final size)
  unfolding Advances Draining
  Draining-Advances write_from taken h final size left (s, b) (text, source, all, joined, same) =
      let (n, t, c, e, short, more, source', kept) =
        h.drain_some left s b text (omega arith) source in
      (
        n,
        (t, c),
        e,
        short,
        (
          drop (suc n) text,
          source',
          omega (arith, length-drop (suc n) text),
          ap (λ (l : List ℕ). l ++ drop (suc n) text) more
              ∙ append_assoc (taken s) (take (suc n) text) (drop (suc n) text)
              ∙ ap (λ (l : List ℕ). taken s ++ l) (take-append-drop (suc n) text)
              ∙ joined,
          kept ∙ same,
        ),
      )

  -- `writeFixSize` of a body.
  drained :
      (write_from : ℕ → S × ByteArray → (S × ByteArray) × Moved) (taken : S → List ℕ)
      → IsDrainer write_from taken
      → (body : List ℕ) (s : S) (b : ByteArray) → Source big b body
      → length body < 2 ^ 31
      → (t : S) × (c : ByteArray) × (write_fix_buffer write_from (length body) (s, b)
          ≡ ((t, c), complete tt))
        × (taken t ≡ taken s ++ body)
        × (c.size ≡ b.size)
  unfolding write_fix_buffer Draining
  drained write_from taken h body s b source small =
      let n = length body in
      let fits : ltb (n % 2 ^ 32) (2 ^ 31) ≡ true = ground arith in
      let ((t, c), e, (text, any, empty, joined, same)) =
        move_loop-complete write_from (Draining taken (taken s ++ body) b.size)
          (Draining-Advances write_from taken h (taken s ++ body) b.size) n n (s, b) (omega arith)
          (body, source, refl, refl, refl) in
      (
        t,
        c,
        rw (fits) e,
        sym (append-nil (taken t))
            ∙ ap (λ (l : List ℕ). taken t ++ l) (sym (no_bytes text empty))
            ∙ joined,
        same,
      )

module _ {S : Type 0} (write : List ℕ → S → S × Sent) (taken : S → List ℕ)
    (write_from : ℕ → S × ByteArray → (S × ByteArray) × Moved) (gzip : ByteArray → Option ByteArray)
    (target : IsTarget write taken) (drainer : IsDrainer write_from taken)
    (min_length fill : ℕ) where
  -- The header and the body are taken.
  sent_body :
      (body : List ℕ) (s : S) (b : ByteArray)
      → Source big b body
      → b.size ≡ length body
      → 0 < length body
      → length body < 2 ^ 31
      → (t : S) × (send write write_from gzip min_length fill 0 b s
          ≡ (t, serialized ((8 + length body) % 2 ^ 32)))
        × (taken t ≡ (taken s ++ header_bytes (header_for 0 (length body))) ++ body)
  unfolding send after_sent_header after_sent_body
  sent_body body s b source size some_bytes small =
      let n = length body in
      let whole : b.size % 2 ^ 32 ≡ n = ground (arith, size) in
      let unread = unread_size b body source in
      let positive = is_positive_lem n some_bytes small in
      let head = header_bytes (header_for 0 n) in
      let (t, e, more) =
        write_fix-Gives write taken target head
          (omega (arith, length-header_bytes (header_for 0 n)))
          (omega (arith, length-header_bytes (header_for 0 n))) s in
      let (u, c, e', all, kept) = drained write_from taken drainer body t b source small in
      (
        u,
        rw (whole, e, unread)
            (ap (after_sent_body write write_from gzip min_length fill b) e'
              ∙ ap
                  (λ (k : ℕ).
                    (u, if is_positive k then serialized ((8 + c.size) % 2 ^ 32) else minus 4))
                  unread
              ∙ ap (λ (p : Bool). (u, if p then serialized ((8 + c.size) % 2 ^ 32) else minus 4))
                  positive
              ∙ ap (λ (k : ℕ). (u, serialized ((8 + k) % 2 ^ 32))) (kept ∙ size)),
        all ∙ ap (λ (l : List ℕ). l ++ body) more,
      )

  pub serialize_to-sent :
      (m : Message) (s : S)
      → IsMessage m
      → length (message_bytes m) < min_length
      → length (message_bytes m) < 2 ^ 31
      → (let body = message_bytes m in
          (t : S) × (serialize_to write write_from gzip min_length fill m s
            ≡ (t, serialized ((8 + length body) % 2 ^ 32)))
          × (taken t ≡ (taken s ++ header_bytes (header_for 0 (length body))) ++ body))
  unfolding serialize_to after_message after_rewind to_byte_array
  serialize_to-sent m s h short small =
      let body = message_bytes m in
      let (b, written, sink) = serialize-Emits big m h (new 4096 fill) [] (fresh-Sink fill) in
      let (c, moved_to, source) = Sink-rewind big b body sink in
      let size = rewound-size b c body sink moved_to in
      let (t, e, all) = sent_body body s c source size (message_bytes-some m) small in
      let plain : leb min_length (c.size % 2 ^ 32) ≡ false =
        below_limit min_length c.size (length body) size short small in
      (
        t,
        ap (after_message write write_from gzip min_length fill s) (ap when_true written)
            ∙ ap (after_rewind write write_from gzip min_length fill s) moved_to
            ∙ rw (plain) e,
        all,
      )

-- Over streams that make progress, for a message whose fields are within their types, with a body
-- shorter than both limits and 2 ^ 31 - 8: serializeTo returns the number of bytes that it has
-- the stream take, and where the bytes ahead of the other side begin with these, parseFrom there
-- returns the message and takes just these bytes, whatever the limit from which it decompresses.
pub serialize_to-parse_from :
    {S R : Type 0} (write : List ℕ → S → S × Sent) (taken : S → List ℕ)
    (write_from : ℕ → S × ByteArray → (S × ByteArray) × Moved) (gzip : ByteArray → Option ByteArray)
    (read : ℕ → R → R × Received) (ahead : R → List ℕ)
    (read_into : ℕ → R × ByteArray → (R × ByteArray) × Moved)
    (gunzip : ByteArray → Option ByteArray) (Ready : ByteArray → List ℕ → Type 0)
    → IsTarget write taken
    → IsDrainer write_from taken
    → IsSource read ahead
    → IsFiller read_into ahead Ready
    → (min_length min_length' max_length fill fill' : ℕ) (m : Message) (s : S) → IsMessage m
    → length (message_bytes m) < min_length
    → length (message_bytes m) < max_length
    → 8 + length (message_bytes m) < 2 ^ 31
    → (t : S) × (bs : List ℕ) × (serialize_to write write_from gzip min_length fill m s
        ≡ (t, serialized (length bs)))
      × (taken t ≡ taken s ++ bs)
      × ((r : R) (rest : List ℕ)
          → ahead r ≡ bs ++ rest
          → (u : R) × (parse_from read read_into gunzip min_length' max_length fill' r
              ≡ (u, parsed m))
            × (ahead u ≡ rest))
serialize_to-parse_from write taken write_from gzip read ahead read_into gunzip Ready target drainer
      source filler min_length min_length' max_length fill fill' m s h short below fits =
    let small : length (message_bytes m) < 2 ^ 31 = omega arith in
    let body = message_bytes m in
    let head = header_bytes (header_for 0 (length body)) in
    let (t, e, all) =
      serialize_to-sent write taken write_from gzip target drainer min_length fill m s h short
        small in
    let total : (8 + length body) % 2 ^ 32 ≡ length (head ++ body) =
      omega (arith, length-append head body, length-header_bytes (header_for 0 (length body))) in
    (
      t,
      head ++ body,
      e ∙ ap (λ (n : ℕ). (t, serialized n)) total,
      all ∙ append_assoc (taken s) head body,
      λ r rest p.
          parse_from-parsed read ahead read_into gunzip source Ready filler min_length' max_length
            fill' m r rest h below small (p ∙ append_assoc head body rest),
    )
