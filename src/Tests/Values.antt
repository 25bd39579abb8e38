-- ===== src/Tests/Values.antt =====
-- Runs of the encodings of seaice/bytearray.cpp, on a new buffer with nodes of four bytes.
use seaice.Prelude.{ℕ, ◌+◌, ◌-◌, ◌^◌, ◌≡◌, refl, List, [], ◌∷◌, some, arith}
use seaice.Endian.{big}
use seaice.ByteArray.{ByteArray, new}
use seaice.ByteArray.Append.{new-Appending}
use seaice.ByteArray.Streams.{Sink}
use seaice.Codec.{
  encode_zigzag32, widen, varint_loop, write_fixed, read_fixed, write_uint32, read_uint32,
  write_uint64, read_uint64, write_int64, read_int64, write_float, read_float, write_string_vint,
  read_string_vint,
}
use seaice.Codec.Varint.{varint, varint_loop-varint}
use seaice.Codec.RoundTrip.{
  ReadBack, read_fixed-write_fixed, read_uint32-write_uint32, read_uint64-write_uint64,
  read_int64-write_int64, read_string_vint-write_string_vint, read_float-write_float,
}

abbrev empty : ByteArray
unfolding new
empty = new 4 0

empty-Sink : Sink big empty []
unfolding new
empty-Sink = record { appending = new-Appending 4 0 (omega arith); order = refl }

encode_zigzag32-run : encode_zigzag32 (2 ^ 32 - 3) ≡ 5
unfolding encode_zigzag32
encode_zigzag32-run = refl

varint_loop-varint_example : varint_loop 5 300 ≡ some (varint 4 300)
varint_loop-varint_example = varint_loop-varint 4 300 (omega arith)

read_fixed-write_fixed_example :
    ReadBack ℕ big empty 0 (write_fixed 4 0x12345678) (read_fixed 4) 0x12345678 []
read_fixed-write_fixed_example =
    read_fixed-write_fixed big empty [] empty-Sink 4 0x12345678 (omega arith)

read_uint32-write_uint32_example : ReadBack ℕ big empty 0 (write_uint32 300) read_uint32 300 []
read_uint32-write_uint32_example =
    read_uint32-write_uint32 big empty [] empty-Sink 300 (omega arith)

read_uint64-write_uint64_example :
    ReadBack ℕ big empty 0 (write_uint64 (2 ^ 32 + 5)) read_uint64 5 []
read_uint64-write_uint64_example = read_uint64-write_uint64 big empty [] (2 ^ 32 + 5) empty-Sink

read_int64-write_int64_example :
    ReadBack ℕ big empty 0 (write_int64 (2 ^ 32 - 3)) read_int64 (widen (2 ^ 32 - 3)) []
read_int64-write_int64_example =
    read_int64-write_int64 big empty [] empty-Sink (2 ^ 32 - 3) (omega arith)

abbrev hi : List ℕ
hi = 104 ∷ 105 ∷ []

read_string_vint-write_string_vint_example :
    ReadBack (List ℕ) big empty 0 (write_string_vint hi) read_string_vint hi []
read_string_vint-write_string_vint_example =
    read_string_vint-write_string_vint big empty [] empty-Sink hi (omega arith)

-- 1.0f
read_float-write_float_example :
    ReadBack ℕ big empty 0 (write_float 0x3f800000) read_float 0x3f (0x80 ∷ 0 ∷ 0 ∷ [])
read_float-write_float_example = read_float-write_float empty [] 0x3f800000 empty-Sink (omega arith)
