-- ===== src/Codec/Floats.antt =====
-- `writeFloat` and `readFloat`: the one writes a number of fixed width, the other reads one of
-- variable width.
use seaice.Prelude.{
  ℕ, zero, suc, ◌/◌, ◌%◌, ◌^◌, ◌<◌, ◌≡◌, refl, ◌∙◌, ap, subst, List, [], ◌∷◌, arith,
}
use seaice.Prelude.Bytes.{le_bytes}
use seaice.Endian.{Endian, big}
use seaice.ByteArray.Streams.{Writes, Reads}
use seaice.Codec.Fixed.{in_endian, write_fixed-Writes}
use seaice.Codec.Varint.{varint, read_uint32-Reads}
use seaice.Codec.{write_float, read_float}

pub write_float-Writes : (e : Endian) (v : ℕ) → Writes e (write_float v) (in_endian e 4 v)
unfolding write_float
write_float-Writes e v = write_fixed-Writes e 4 v

varint_byte : (k b : ℕ) → b < 128 → varint k b ≡ b ∷ []
unfolding varint
varint_byte zero b h = refl
varint_byte (suc k) b h = ground arith

pub read_float-Reads : (e : Endian) (b : ℕ) → b < 128 → Reads e read_float (b ∷ []) b
unfolding read_float
read_float-Reads e b h =
    subst (λ (bs : List ℕ). Reads e read_float bs b) (varint_byte 4 b h)
      (read_uint32-Reads e b (omega arith))

pub big_bytes :
    (v : ℕ)
    → v < 2 ^ 32
    → in_endian big 4 v ≡ (v / 2 ^ 24) ∷ (v / 2 ^ 16 % 256) ∷ (v / 2 ^ 8 % 256) ∷ (v % 256) ∷ []
unfolding le_bytes
big_bytes v h =
    ap (λ (n : ℕ). n ∷ v / 256 / 256 % 256 ∷ v / 256 % 256 ∷ v % 256 ∷ []) (omega arith)
    ∙ ap (λ (n : ℕ). v / 2 ^ 24 ∷ n % 256 ∷ v / 256 % 256 ∷ v % 256 ∷ []) (omega arith)
