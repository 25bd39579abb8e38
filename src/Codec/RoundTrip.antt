-- ===== src/Codec/RoundTrip.antt =====
-- Values written behind whatever a buffer holds are what is read from that place on.
use seaice.Prelude.{
  ℕ, ◌/◌, ◌%◌, ◌^◌, ◌<◌, ◌≡◌, List, [], ◌∷◌, ◌++◌, length, append-nil, sym, ap, subst, arith,
}
use seaice.Endian.{Endian, big}
use seaice.ByteArray.{ByteArray, M, ok, set_pos}
use seaice.ByteArray.Streams.{Sink, Source, Writes, Reads, Sink-reread}
use seaice.Codec.Fixed.{in_endian, write_fixed-Writes, read_fixed-Reads}
use seaice.Codec.Varint.{
  varint, write_uint32-Writes, read_uint32-Reads, write_uint64-Writes, read_uint64-Reads,
}
use seaice.Codec.Signed.{write_int32-Writes, read_int32-Reads, write_int64-Writes, read_int64-Reads}
use seaice.Codec.Strings.{
  write_string_f16-Writes, read_string_f16-Reads, write_string_f32-Writes, read_string_f32-Reads,
  write_string_f64-Writes, read_string_f64-Reads, write_string_vint-Writes, read_string_vint-Reads,
}
use seaice.Codec.Floats.{write_float-Writes, read_float-Reads, big_bytes}
use seaice.Codec.{
  encode_zigzag32, encode_zigzag64, widen, write_fixed, read_fixed, write_uint32, read_uint32,
  write_uint64, read_uint64, write_int32, read_int32, write_int64, read_int64, write_tmp,
  varint_loop, write_float, read_float, write_string_f16, read_string_f16, write_string_f32,
  read_string_f32, write_string_f64, read_string_f64, write_string_vint, read_string_vint,
}

-- The value `v` comes back: the write succeeds, so do `setPos` to its start and the read, and what is
-- left to read is `rest`.
pub record ReadBack {ℓ} (A : Type ℓ) (e : Endian) (b : ByteArray) (pos : ℕ) (w : M (Unit {0}))
    (r : M A) (v : A) (rest : List ℕ) : Type ℓ where
  pub written : ByteArray
  pub moved : ByteArray
  pub done : ByteArray
  pub writes : w b ≡ (written, ok tt)
  pub moves : set_pos pos written ≡ (moved, ok tt)
  pub reads : r moved ≡ (done, ok v)
  pub remaining : Source e done rest

module _ (e : Endian) (b : ByteArray) (text : List ℕ) (s : Sink e b text) where
  partly {ℓ} :
      {A : Type ℓ} (w : M (Unit {0})) (r : M A) (bs rest : List ℕ) (v : A)
      → Writes e w (bs ++ rest)
      → Reads e r bs v
      → ReadBack A e b (length text) w r v rest
  partly w r bs rest v hw hr =
      let (c, written, t) = hw b text s in
      let (d, moved, u) = Sink-reread e c text (bs ++ rest) t in
      let (f, found, x) = hr d rest u in
      record {
        written = c;
        moved = d;
        done = f;
        writes = written;
        moves = moved;
        reads = found;
        remaining = x;
      }

  wholly {ℓ} :
      {A : Type ℓ} (w : M (Unit {0})) (r : M A) (bs : List ℕ) (v : A)
      → Writes e w bs
      → Reads e r bs v
      → ReadBack A e b (length text) w r v []
  wholly w r bs v hw hr = partly w r bs [] v (subst (Writes e w) (sym (append-nil bs)) hw) hr

  -- On a buffer to which only writes have been made, in either byte order: a value of `k` bytes
  -- is written, `setPos` to its start succeeds, and reading `k` bytes gives the value and leaves
  -- nothing.
  pub read_fixed-write_fixed :
      (k v : ℕ) → v < 256 ^ k → ReadBack ℕ e b (length text) (write_fixed k v) (read_fixed k) v []
  read_fixed-write_fixed k v h =
      wholly (write_fixed k v) (read_fixed k) (in_endian e k v) v (write_fixed-Writes e k v)
        (read_fixed-Reads e k v h)

  -- On a buffer to which only writes have been made, in either byte order: what `writeUint32`
  -- writes for a value below 2 ^ 32, `readUint32` reads back from its start, with nothing left.
  pub read_uint32-write_uint32 :
      (v : ℕ) → v < 2 ^ 32 → ReadBack ℕ e b (length text) (write_uint32 v) read_uint32 v []
  read_uint32-write_uint32 v h =
      wholly (write_uint32 v) read_uint32 (varint 4 v) v (write_uint32-Writes e v h)
        (read_uint32-Reads e v h)

  -- On a buffer to which only writes have been made, in either byte order: what `writeInt32`
  -- writes for a 32-bit pattern, `readInt32` reads back from its start, with nothing left.
  pub read_int32-write_int32 :
      (v : ℕ) → v < 2 ^ 32 → ReadBack ℕ e b (length text) (write_int32 v) read_int32 v []
  read_int32-write_int32 v h =
      wholly (write_int32 v) read_int32 (varint 4 (encode_zigzag32 v)) v (write_int32-Writes e v)
        (read_int32-Reads e v h)

  -- On a buffer to which only writes have been made, in either byte order: what `writeInt64`
  -- writes for a 32-bit pattern, `readInt64` reads from its start as the pattern widened to 64
  -- bits with its sign, with nothing left.
  pub read_int64-write_int64 :
      (v : ℕ) → v < 2 ^ 32 → ReadBack ℕ e b (length text) (write_int64 v) read_int64 (widen v) []
  read_int64-write_int64 v h =
      wholly (write_int64 v) read_int64 (varint 9 (encode_zigzag64 (widen v))) (widen v)
        (write_int64-Writes e v h) (read_int64-Reads e v h)

  -- On a buffer to which only writes have been made, in either byte order: a string shorter than
  -- 2 ^ 16 that `writeStringF16` writes, `readStringF16` reads back from its start, with nothing
  -- left.
  pub read_string_f16-write_string_f16 :
      (t : List ℕ)
      → length t < 2 ^ 16
      → ReadBack (List ℕ) e b (length text) (write_string_f16 t) read_string_f16 t []
  read_string_f16-write_string_f16 t h =
      wholly (write_string_f16 t) read_string_f16 (in_endian e 2 (length t) ++ t) t
        (write_string_f16-Writes e t h) (read_string_f16-Reads e t h)

  -- On a buffer to which only writes have been made, in either byte order: a string shorter than
  -- 2 ^ 32 that `writeStringF32` writes, `readStringF32` reads back from its start, with nothing
  -- left.
  pub read_string_f32-write_string_f32 :
      (t : List ℕ)
      → length t < 2 ^ 32
      → ReadBack (List ℕ) e b (length text) (write_string_f32 t) read_string_f32 t []
  read_string_f32-write_string_f32 t h =
      wholly (write_string_f32 t) read_string_f32 (in_endian e 4 (length t) ++ t) t
        (write_string_f32-Writes e t h) (read_string_f32-Reads e t h)

  -- On a buffer to which only writes have been made, in either byte order: a string shorter than
  -- 2 ^ 64 that `writeStringF64` writes, `readStringF64` reads back from its start, with nothing
  -- left.
  pub read_string_f64-write_string_f64 :
      (t : List ℕ)
      → length t < 2 ^ 64
      → ReadBack (List ℕ) e b (length text) (write_string_f64 t) read_string_f64 t []
  read_string_f64-write_string_f64 t h =
      wholly (write_string_f64 t) read_string_f64 (in_endian e 8 (length t) ++ t) t
        (write_string_f64-Writes e t h) (read_string_f64-Reads e t h)

  -- On a buffer to which only writes have been made, in either byte order: a string shorter than
  -- 2 ^ 32 that `writeStringVint` writes, `readStringVint` reads back from its start, with
  -- nothing left.
  pub read_string_vint-write_string_vint :
      (t : List ℕ)
      → length t < 2 ^ 32
      → ReadBack (List ℕ) e b (length text) (write_string_vint t) read_string_vint t []
  read_string_vint-write_string_vint t h =
      wholly (write_string_vint t) read_string_vint (varint 9 (length t) ++ t) t
        (write_string_vint-Writes e t h) (read_string_vint-Reads e t (omega arith))

write_uint64-cut : (v : ℕ) → write_uint64 (v % 2 ^ 32) ≡ write_uint64 v
unfolding write_uint64
write_uint64-cut v =
    let twice : v % 2 ^ 32 % 2 ^ 32 ≡ v % 2 ^ 32 = omega arith in
    ap (λ (n : ℕ). write_tmp (varint_loop 10 n)) twice

-- On a buffer to which only writes have been made, in either byte order: what `writeUint64`
-- writes for any value, `readUint64` reads from its start as the value modulo 2 ^ 32, with
-- nothing left.
pub read_uint64-write_uint64 :
    (e : Endian) (b : ByteArray) (text : List ℕ) (v : ℕ)
    → Sink e b text
    → ReadBack ℕ e b (length text) (write_uint64 v) read_uint64 (v % 2 ^ 32) []
read_uint64-write_uint64 e b text v s =
    let n = v % 2 ^ 32 in
    wholly e b text s (write_uint64 v) read_uint64 (varint 9 n) n
      (subst (λ (w : M (Unit {0})). Writes e w (varint 9 n)) (write_uint64-cut v)
        (write_uint64-Writes e n (omega arith)))
      (read_uint64-Reads e n (omega arith))

-- On a big-endian buffer to which only writes have been made, for a bit pattern below 2 ^ 31:
-- after `writeFloat`, `readFloat` from its start gives the highest byte alone and leaves the
-- three other bytes unread.
pub read_float-write_float :
    (b : ByteArray) (text : List ℕ) (v : ℕ)
    → Sink big b text
    → v < 2 ^ 31
    → ReadBack ℕ big b
        (length text)
        (write_float v)
        read_float
        (v / 2 ^ 24)
        (v / 2 ^ 16 % 256 ∷ v / 2 ^ 8 % 256 ∷ v % 256 ∷ [])
read_float-write_float b text v s h =
    partly big b text s (write_float v) read_float (v / 2 ^ 24 ∷ [])
      (v / 2 ^ 16 % 256 ∷ v / 2 ^ 8 % 256 ∷ v % 256 ∷ []) (v / 2 ^ 24)
      (subst (Writes big (write_float v)) (big_bytes v (omega arith)) (write_float-Writes big v))
      (read_float-Reads big (v / 2 ^ 24) (omega arith))
