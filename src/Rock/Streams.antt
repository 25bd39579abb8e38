-- ===== src/Rock/Streams.antt =====
-- `RockMessageDecoder::parseFrom` and `serializeTo` of seaice/rock/rock_protocol.cpp over any stream. The
-- stream's calls and the compression are parameters.
use seaice.Prelude.{
  ℕ, ◌+◌, ◌%◌, ◌^◌, List, ◌∷◌, Bool, true, false, ◌&&◌, Option, none, some, leb, ◌==◌,
  if◌then◌else◌,
}
use seaice.Prelude.Bytes.{le_bytes, of_le}
use seaice.ByteArray.{
  ByteArray, Result, ok, err, M, ◌>>=◌, ◌>>◌, return, new, set_pos, get_read_size,
}
use seaice.Rock.{
  Message, RockMsgHeader, is_rock_message_header_valid, header_for, decode, to_byte_array, try_or,
  caught,
}
use seaice.Stream.{Received, Sent, Outcome, complete, closed, failed, unfinished}
use seaice.Stream.Exchange.{Got, got, broken, stuck, thrown, read_fix, write_fix, is_positive}
use seaice.Stream.Buffered.{Moved, read_fix_buffer, write_fix_buffer}

-- The eight bytes of a RockMsgHeader in memory.
unfoldable pub header_bytes : RockMsgHeader → List ℕ
header_bytes h = h.magic_0 ∷ h.magic_1 ∷ h.version ∷ h.flag ∷ le_bytes 4 h.length

unfoldable pub header_of : List ℕ → Option RockMsgHeader
header_of (a ∷ b ∷ c ∷ d ∷ rest) =
    some (record { magic_0 = a; magic_1 = b; version = c; flag = d; length = of_le rest })
header_of _ = none

-- What `parseFrom` gives: a message, the null pointer, no defined result, or that a loop takes more
-- rounds than there are bytes.
pub data Parsed : Type 0 where
  parsed : Message → Parsed
  null undefined unended : Parsed

abbrev pub parsed_of : ByteArray × Result (Option Message) → Parsed
parsed_of (b, ok (some m)) = parsed m
parsed_of (b, ok none) = null
parsed_of (b, err e) = undefined

-- What `serializeTo` gives: the bit pattern of its `int32_t`, a negative one that the code names, no defined result, or that a loop takes more
-- rounds than there are bytes.
pub data Serialized : Type 0 where
  serialized : ℕ → Serialized
  minus : ℕ → Serialized
  undefined unended : Serialized

-- Decompression to a new buffer, `ba = zstream->getByteArray()`, or an error.
abbrev pub unzip : (ByteArray → Option ByteArray) → M Bool
unzip gunzip b = elim (gunzip b) [ none ↦ (b, ok false) | some z ↦ (z, ok true) ]

-- `parseFrom` from `setPos(0)` on, with its `catch`.
unfoldable pub parse_body_of :
    (ByteArray → Option ByteArray) → ℕ → RockMsgHeader → M (Option Message)
unfolding set_pos decode caught
parse_body_of gunzip min_length h = try_or none (do
  set_pos 0
  fine ← (if h.flag % 2 == 1 && leb min_length h.length then unzip gunzip else return true)
  (if fine then decode else return none))

module _ {S : Type 0} (read : ℕ → S → S × Received)
    (read_into : ℕ → S × ByteArray → (S × ByteArray) × Moved)
    (gunzip : ByteArray → Option ByteArray) (min_length max_length fill : ℕ) where
  unfoldable pub after_body : RockMsgHeader → (S × ByteArray) × Outcome (Unit {0}) → S × Parsed
  unfolding parse_body_of
  after_body h ((s, b), complete u) =
      (s, if is_positive h.length then parsed_of (parse_body_of gunzip min_length h b) else null)
  after_body h ((s, b), closed) = (s, null)
  after_body h ((s, b), failed e) = (s, null)
  after_body h ((s, b), unfinished) = (s, unended)

  unfoldable pub after_check : S → RockMsgHeader × Bool → S × Parsed
  unfolding parse_body_of new
  after_check s (h, false) = (s, null)
  after_check s (h, true) = after_body h (read_fix_buffer read_into h.length (s, new 4096 fill))

  unfoldable pub after_header : S → Option RockMsgHeader → S × Parsed
  unfolding is_rock_message_header_valid
  after_header s none = (s, undefined)
  after_header s (some h) = after_check s (is_rock_message_header_valid max_length h)

  abbrev pub after_read : S × Got (List ℕ) → S × Parsed
  after_read (s, got bs) = after_header s (header_of bs)
  after_read (s, broken) = (s, null)
  after_read (s, stuck) = (s, unended)
  after_read (s, thrown) = (s, undefined)

  unfoldable pub parse_from : S → S × Parsed
  unfolding read_fix
  parse_from s = after_read (read_fix read 8 s)

module _ {S : Type 0} (write : List ℕ → S → S × Sent)
    (write_from : ℕ → S × ByteArray → (S × ByteArray) × Moved) (gzip : ByteArray → Option ByteArray)
    (min_length fill : ℕ) where
  unfoldable pub after_sent_body : ByteArray → (S × ByteArray) × Outcome (Unit {0}) → S × Serialized
  after_sent_body z ((s, b), complete u) =
      (s, if is_positive (get_read_size z) then serialized ((8 + b.size) % 2 ^ 32) else minus 4)
  after_sent_body z ((s, b), closed) = (s, minus 4)
  after_sent_body z ((s, b), failed e) = (s, minus 4)
  after_sent_body z ((s, b), unfinished) = (s, unended)

  unfoldable pub after_sent_header : ByteArray → S × Got (Unit {0}) → S × Serialized
  after_sent_header z (s, got u) =
      after_sent_body z (write_fix_buffer write_from (get_read_size z) (s, z))
  after_sent_header z (s, broken) = (s, minus 3)
  after_sent_header z (s, stuck) = (s, unended)
  after_sent_header z (s, thrown) = (s, undefined)

  -- The header and the body: `flag` says whether the buffer is compressed. A length is a `uint32_t`.
  unfoldable pub send : ℕ → ByteArray → S → S × Serialized
  unfolding header_bytes header_for
  send flag z s =
      after_sent_header z (write_fix write (header_bytes (header_for flag (z.size % 2 ^ 32))) s)

  abbrev pub send_zipped : Option ByteArray → S → S × Serialized
  send_zipped none s = (s, minus 1)
  send_zipped (some z) s = send 1 z s

  unfoldable pub after_rewind : S → ByteArray × Result (Unit {0}) → S × Serialized
  after_rewind s (b, ok u) =
      if leb min_length (b.size % 2 ^ 32) then send_zipped (gzip b) s else send 0 b s
  after_rewind s (b, err e) = (s, undefined)

  -- A message that does not go into a buffer is a null pointer here.
  unfoldable pub after_message : S → Result (Option ByteArray) → S × Serialized
  unfolding set_pos
  after_message s (ok (some b)) = after_rewind s (set_pos 0 b)
  after_message s (ok none) = (s, undefined)
  after_message s (err e) = (s, undefined)

  unfoldable pub serialize_to : Message → S → S × Serialized
  unfolding to_byte_array
  serialize_to m s = after_message s (to_byte_array fill m)
