-- ===== src/Tests/Posts.antt =====
-- Runs of the rock decoder over a stream that moves one byte at a time.
use seaice.Prelude.{
  ℕ, suc, ◌*◌, ◌^◌, ◌≤◌, ◌<◌, ◌≡◌, refl, ◌∙◌, ap, sym, List, [], ◌∷◌, ◌++◌, Option, some, length,
  take, drop, arith,
}
use seaice.Endian.{big}
use seaice.ByteArray.{ByteArray, Result, ok, err, read, write}
use seaice.ByteArray.Read.{read-size}
use seaice.ByteArray.Position.{Filled, Appending-Filled}
use seaice.ByteArray.Streams.{Sink, Source, write-Writes, read-Reads}
use seaice.Codec.Varint.{varint}
use seaice.Rock.RoundTrip.{message_bytes, fresh-Sink}
use seaice.Rock.Streams.{parse_from, parsed, serialize_to, serialized}
use seaice.Rock.Carried.{IsFiller}
use seaice.Rock.Posted.{IsDrainer, serialize_to-parse_from}
use seaice.Stream.Buffered.{Moved, moved, move_error}
use seaice.Tests.Streams.{trickle, trickle-IsSource, drip, drip-IsTarget}
use seaice.Tests.Messages.{ping, ping-IsMessage}

abbrev fill_one : ℕ → List ℕ × ByteArray → (List ℕ × ByteArray) × Moved
fill_one n ([], b) = (([], b), moved 0)
fill_one n (x ∷ xs, b) = ((xs, (write (x ∷ []) b).0), moved 1)

fill_one-IsFiller : IsFiller fill_one (λ s. s) (Sink big)
fill_one-IsFiller = record { ready_new = fresh-Sink; fill_some = one }
  where
    one :
        (left : ℕ) (s : List ℕ) (b : ByteArray) (text : List ℕ)
        → suc left ≤ length s
        → Sink big b text
        → Filled b text
        → (n : ℕ) × (t : List ℕ) × (c : ByteArray) × (fill_one (suc left) (s, b)
            ≡ ((t, c), moved (suc n)))
          × (n ≤ left)
          × (t ≡ drop (suc n) s)
          × (c.endian ≡ b.endian)
          × Filled c (text ++ take (suc n) s)
          × (n < left → Sink big c (text ++ take (suc n) s))
    one left [] b text enough sink full = absurd (omega arith)
    one left (x ∷ xs) b text enough sink full =
        let (c, e, sink') = write-Writes big (x ∷ []) b text sink in
        (
          0,
          xs,
          c,
          ap (λ (o : ByteArray × Result (Unit {0})). ((xs, o.0), moved 1)) e,
          omega arith,
          refl,
          sink'.order ∙ sym sink.order,
          Appending-Filled c (text ++ x ∷ []) sink'.appending,
          λ more. sink',
        )

abbrev drained_one : List ℕ → ByteArray × Result (List ℕ) → (List ℕ × ByteArray) × Moved
drained_one s (b, ok bs) = ((s ++ bs, b), moved 1)
drained_one s (b, err e) = ((s, b), move_error 1)

abbrev drain_one : ℕ → List ℕ × ByteArray → (List ℕ × ByteArray) × Moved
drain_one n (s, b) = drained_one s (read 1 b)

drain_one-IsDrainer : IsDrainer drain_one (λ s. s)
drain_one-IsDrainer = record { drain_some = one }
  where
    one :
        (left : ℕ) (s : List ℕ) (b : ByteArray) (text : List ℕ)
        → suc left ≤ length text
        → Source big b text
        → (n : ℕ) × (t : List ℕ) × (c : ByteArray) × (drain_one (suc left) (s, b)
            ≡ ((t, c), moved (suc n)))
          × (n ≤ left)
          × (t ≡ s ++ take (suc n) text)
          × Source big c (drop (suc n) text)
          × (c.size ≡ b.size)
    one left s b [] enough source = absurd (omega arith)
    one left s b (x ∷ xs) enough source =
        let (c, e, source') = read-Reads big (x ∷ []) 1 refl b xs source in
        (
          0,
          s ++ x ∷ [],
          c,
          ap (drained_one s) e,
          omega arith,
          refl,
          source',
          ap (λ (o : ByteArray × Result (List ℕ)). o.0.size) (sym e) ∙ read-size 1 b,
        )

abbrev no_zip : ByteArray → Option ByteArray
no_zip b = some b

ping-short : length (message_bytes ping) < 100
unfolding message_bytes varint
ping-short = omega arith

serialize_to-parse_from_example :
    (t : List ℕ) × (bs : List ℕ) × (serialize_to drip drain_one no_zip 4096 0 ping []
      ≡ (t, serialized (length bs)))
    × (t ≡ [] ++ bs)
    × ((r rest : List ℕ)
        → r ≡ bs ++ rest
        → (u : List ℕ) × (parse_from trickle fill_one no_zip 4096 (64 * 2 ^ 20) 9 r
            ≡ (u, parsed ping))
          × (u ≡ rest))
serialize_to-parse_from_example =
    serialize_to-parse_from drip (λ s. s) drain_one no_zip trickle (λ s. s) fill_one no_zip
      (Sink big) drip-IsTarget drain_one-IsDrainer trickle-IsSource fill_one-IsFiller 4096 4096
      (64 * 2 ^ 20) 0 9 ping [] ping-IsMessage (omega (arith, ping-short))
      (omega (arith, ping-short)) (omega (arith, ping-short))
