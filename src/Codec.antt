-- ===== src/Codec.antt =====
-- The encodings of seaice/bytearray.cpp: integers of fixed width in either byte order, zigzag and
-- variable-length integers, floats by their bits, and strings behind their length.
-- A value of w bits is its bit pattern, a number below 2 ^ w; a string is the list of its bytes.
pub mod Fixed
pub mod Zigzag
pub mod Varint
pub mod Signed
pub mod Strings
pub mod Floats
pub mod RoundTrip
use seaice.Prelude.{
  ℕ, zero, suc, ◌+◌, ◌-◌, ◌*◌, ◌/◌, ◌%◌, ◌^◌, bit_and, bit_or, bit_xor, List, [], ◌∷◌, Option, none,
  some, ltb, if◌then◌else◌, length,
}
use seaice.Prelude.Bytes.{le_bytes, of_le}
use seaice.Endian.{Endian, same, byte_order, byteswap}
use seaice.ByteArray.{ByteArray, M, ◌>>=◌, ◌>>◌, return, err, crash, write, read}

-- `if(m_endian != SEAICE_BYTE_ORDER) value = byteswap(value); write(&value, sizeof(value))`. The
-- machine is little-endian, and so is the layout of `value`.
pub write_fixed : ℕ → ℕ → M (Unit {0})
unfolding byteswap
write_fixed k value b =
    write (le_bytes k (if same b.endian byte_order then value else byteswap k value)) b

pub in_order : ℕ → ℕ → M ℕ
in_order k value b = return (if same b.endian byte_order then value else byteswap k value) b

pub read_fixed : ℕ → M ℕ
unfolding in_order
read_fixed k = do bs ← read k; in_order k (of_le bs)

unfoldable pub write_fint8 : ℕ → M (Unit {0})
write_fint8 value = write (le_bytes 1 value)

unfoldable pub write_fuint8 : ℕ → M (Unit {0})
write_fuint8 value = write (le_bytes 1 value)

unfoldable pub write_fint16 : ℕ → M (Unit {0})
unfolding write_fixed
write_fint16 = write_fixed 2

unfoldable pub write_fuint16 : ℕ → M (Unit {0})
unfolding write_fixed
write_fuint16 = write_fixed 2

unfoldable pub write_fint32 : ℕ → M (Unit {0})
unfolding write_fixed
write_fint32 = write_fixed 4

unfoldable pub write_fuint32 : ℕ → M (Unit {0})
unfolding write_fixed
write_fuint32 = write_fixed 4

unfoldable pub write_fint64 : ℕ → M (Unit {0})
unfolding write_fixed
write_fint64 = write_fixed 8

unfoldable pub write_fuint64 : ℕ → M (Unit {0})
unfolding write_fixed
write_fuint64 = write_fixed 8

unfoldable pub read_fint8 : M ℕ
read_fint8 = do bs ← read 1; return (of_le bs)

unfoldable pub read_fuint8 : M ℕ
read_fuint8 = do bs ← read 1; return (of_le bs)

unfoldable pub read_fint16 : M ℕ
unfolding read_fixed
read_fint16 = read_fixed 2

unfoldable pub read_fuint16 : M ℕ
unfolding read_fixed
read_fuint16 = read_fixed 2

unfoldable pub read_fint32 : M ℕ
unfolding read_fixed
read_fint32 = read_fixed 4

unfoldable pub read_fuint32 : M ℕ
unfolding read_fixed
read_fuint32 = read_fixed 4

unfoldable pub read_fint64 : M ℕ
unfolding read_fixed
read_fint64 = read_fixed 8

unfoldable pub read_fuint64 : M ℕ
unfolding read_fixed
read_fuint64 = read_fixed 8

-- Negative patterns are those from 2 ^ 31 on; `-value` and the rest wrap at 32 bits.
unfoldable pub encode_zigzag32 : ℕ → ℕ
encode_zigzag32 value =
    if ltb value (2 ^ 31)
    then value * 2 % 2 ^ 32
    else ((2 ^ 32 - value) % 2 ^ 32 * 2 % 2 ^ 32 + 2 ^ 32 - 1) % 2 ^ 32

unfoldable pub encode_zigzag64 : ℕ → ℕ
encode_zigzag64 value =
    if ltb value (2 ^ 63)
    then value * 2 % 2 ^ 64
    else ((2 ^ 64 - value) % 2 ^ 64 * 2 % 2 ^ 64 + 2 ^ 64 - 1) % 2 ^ 64

-- `(value >> 1) ^ -(value & 1)`
unfoldable pub decode_zigzag32 : ℕ → ℕ
decode_zigzag32 value = bit_xor (value / 2) ((2 ^ 32 - bit_and value 1) % 2 ^ 32)

unfoldable pub decode_zigzag64 : ℕ → ℕ
decode_zigzag64 value = bit_xor (value / 2) ((2 ^ 64 - bit_and value 1) % 2 ^ 64)

-- The loop that fills `tmp`, by the number of cells left in it; `none` is a store behind its end.
pub varint_loop : ℕ → ℕ → Option (List ℕ)
varint_loop zero value = none
varint_loop (suc cells) value =
    let rest = varint_loop cells (value / 128) in
    if ltb value 128
    then some (value % 256 ∷ [])
    else (elim rest [ none ↦ none | some bs ↦ some (bit_or (bit_and value 0x7f) 0x80 ∷ bs) ])

pub write_tmp : Option (List ℕ) → M (Unit {0})
write_tmp none b = (b, err crash)
write_tmp (some tmp) b = write tmp b

unfoldable pub write_uint32 : ℕ → M (Unit {0})
unfolding varint_loop write_tmp
write_uint32 value = write_tmp (varint_loop 5 value)

-- The parameter is a `uint32_t`, so what a caller passes is cut to 32 bits.
unfoldable pub write_uint64 : ℕ → M (Unit {0})
unfolding varint_loop write_tmp
write_uint64 value = write_tmp (varint_loop 10 (value % 2 ^ 32))

unfoldable pub write_int32 : ℕ → M (Unit {0})
unfolding encode_zigzag32 write_uint32
write_int32 value = write_uint32 (encode_zigzag32 value)

-- The parameter is an `int32_t`: it is cut to 32 bits, and widened with its sign for the encoder.
pub widen : ℕ → ℕ
widen value = if ltb value (2 ^ 31) then value else value + (2 ^ 64 - 2 ^ 32)

unfoldable pub write_int64 : ℕ → M (Unit {0})
unfolding encode_zigzag64 write_uint64 widen
write_int64 value = write_uint64 (encode_zigzag64 (widen (value % 2 ^ 32)))

-- `for(int i = 0; i < width; i += 7)` by the rounds left.
pub read_varint : ℕ → ℕ → ℕ → ℕ → M ℕ
unfolding read_fuint8
read_varint width zero i value = return value
read_varint width (suc rounds) i value = do
  tmp ← read_fuint8
  let value' = bit_or value (bit_and tmp 0x7f * 2 ^ i % 2 ^ width)
  let more = read_varint width rounds (i + 7) value'
  if ltb tmp 128 then return value' else more

unfoldable pub read_uint32 : M ℕ
unfolding read_varint
read_uint32 = read_varint 32 5 0 0

unfoldable pub read_uint64 : M ℕ
unfolding read_varint
read_uint64 = read_varint 64 10 0 0

unfoldable pub read_int32 : M ℕ
unfolding read_uint32 decode_zigzag32
read_int32 = do value ← read_uint32; return (decode_zigzag32 value)

unfoldable pub read_int64 : M ℕ
unfolding read_uint64 decode_zigzag64
read_int64 = do value ← read_uint64; return (decode_zigzag64 value)

-- A float or double is its bit pattern.
unfoldable pub write_float : ℕ → M (Unit {0})
unfolding write_fint32
write_float value = write_fint32 value

unfoldable pub write_double : ℕ → M (Unit {0})
unfolding write_fuint64
write_double value = write_fuint64 value

unfoldable pub read_float : M ℕ
unfolding read_uint32
read_float = read_uint32

unfoldable pub read_double : M ℕ
unfolding read_uint64
read_double = read_uint64

-- The length is cut to the width of its field.
unfoldable pub write_string_f16 : List ℕ → M (Unit {0})
unfolding write_fuint16
write_string_f16 value = do write_fuint16 (length value % 2 ^ 16); write value

unfoldable pub write_string_f32 : List ℕ → M (Unit {0})
unfolding write_fuint32
write_string_f32 value = do write_fuint32 (length value % 2 ^ 32); write value

unfoldable pub write_string_f64 : List ℕ → M (Unit {0})
unfolding write_fuint64
write_string_f64 value = do write_fuint64 (length value % 2 ^ 64); write value

unfoldable pub write_string_vint : List ℕ → M (Unit {0})
unfolding write_uint64
write_string_vint value = do write_uint64 (length value); write value

unfoldable pub write_string_without_length : List ℕ → M (Unit {0})
write_string_without_length value = write value

unfoldable pub read_string_f16 : M (List ℕ)
unfolding read_fuint16
read_string_f16 = do size ← read_fuint16; read size

unfoldable pub read_string_f32 : M (List ℕ)
unfolding read_fuint32
read_string_f32 = do size ← read_fuint32; read size

unfoldable pub read_string_f64 : M (List ℕ)
unfolding read_fuint64
read_string_f64 = do size ← read_fuint64; read size

unfoldable pub read_string_vint : M (List ℕ)
unfolding read_uint64
read_string_vint = do size ← read_uint64; read size
