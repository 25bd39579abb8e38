-- ===== src/Codec/Signed.antt =====
-- `writeInt32`, `writeInt64` and their readers.
use seaice.Prelude.{ℕ, ◌%◌, ◌^◌, ◌<◌, ◌≡◌, sym, subst, arith, append-nil, List, []}
use seaice.Endian.{Endian}
use seaice.ByteArray.{return}
use seaice.ByteArray.Streams.{Writes, Reads, Reads->>=, Reads-return}
use seaice.Codec.Varint.{
  varint, write_uint32-Writes, read_uint32-Reads, write_uint64-Writes, read_uint64-Reads,
}
use seaice.Codec.Zigzag.{
  decode-encode_zigzag32, encode_zigzag32-lt, decode-encode_zigzag64, encode_zigzag64-lt,
}
use seaice.Codec.{
  encode_zigzag32, decode_zigzag32, encode_zigzag64, decode_zigzag64, widen, write_int32,
  read_int32, write_int64, read_int64, read_uint32, read_uint64, write_uint64,
}

pub write_int32-Writes :
    (e : Endian) (v : ℕ) → Writes e (write_int32 v) (varint 4 (encode_zigzag32 v))
unfolding write_int32
write_int32-Writes e v = write_uint32-Writes e (encode_zigzag32 v) (encode_zigzag32-lt v)

pub read_int32-Reads :
    (e : Endian) (v : ℕ) → v < 2 ^ 32 → Reads e read_int32 (varint 4 (encode_zigzag32 v)) v
unfolding read_int32
read_int32-Reads e v h =
    let n = encode_zigzag32 v in
    subst (Reads e read_int32 (varint 4 n)) (decode-encode_zigzag32 v h) (
      subst (λ (bs : List ℕ). Reads e read_int32 bs (decode_zigzag32 n)) (append-nil (varint 4 n))
        (Reads->>= e read_uint32 (λ value. return (decode_zigzag32 value)) (varint 4 n) [] n
          (decode_zigzag32 n) (read_uint32-Reads e n (encode_zigzag32-lt v))
          (Reads-return e (decode_zigzag32 n))))

-- The code of a widened 32-bit number has 32 bits.
zigzag_widen-lt : (v : ℕ) → v < 2 ^ 32 → encode_zigzag64 (widen v) < 2 ^ 32
unfolding encode_zigzag64 widen
zigzag_widen-lt v h = ground arith

widen-lt : (v : ℕ) → v < 2 ^ 32 → widen v < 2 ^ 64
unfolding widen
widen-lt v h = ground arith

pub write_int64-Writes :
    (e : Endian) (v : ℕ)
    → v < 2 ^ 32
    → Writes e (write_int64 v) (varint 9 (encode_zigzag64 (widen v)))
unfolding write_int64
write_int64-Writes e v h =
    let cut : v % 2 ^ 32 ≡ v = omega arith in
    subst
      (λ (n : ℕ).
        Writes e (write_uint64 (encode_zigzag64 (widen n))) (varint 9 (encode_zigzag64 (widen v))))
      (sym cut) (write_uint64-Writes e (encode_zigzag64 (widen v)) (zigzag_widen-lt v h))

pub read_int64-Reads :
    (e : Endian) (v : ℕ)
    → v < 2 ^ 32
    → Reads e read_int64 (varint 9 (encode_zigzag64 (widen v))) (widen v)
unfolding read_int64
read_int64-Reads e v h =
    let n = encode_zigzag64 (widen v) in
    subst (Reads e read_int64 (varint 9 n)) (decode-encode_zigzag64 (widen v) (widen-lt v h)) (
      subst (λ (bs : List ℕ). Reads e read_int64 bs (decode_zigzag64 n)) (append-nil (varint 9 n))
        (Reads->>= e read_uint64 (λ value. return (decode_zigzag64 value)) (varint 9 n) [] n
          (decode_zigzag64 n) (read_uint64-Reads e n (encode_zigzag64-lt (widen v)))
          (Reads-return e (decode_zigzag64 n))))
