-- ===== src/Codec/Strings.antt =====
-- Strings behind their length: what is written, and that reading gives it back.
use seaice.Prelude.{ℕ, ◌%◌, ◌^◌, ◌<◌, ◌≡◌, refl, sym, subst, arith, List, ◌++◌, length}
use seaice.Endian.{Endian}
use seaice.ByteArray.{read, write, ◌>>◌}
use seaice.ByteArray.Streams.{Writes, Writes->>, Reads, Reads->>=, write-Writes, read-Reads}
use seaice.Codec.Fixed.{in_endian, write_fixed-Writes, read_fixed-Reads}
use seaice.Codec.Varint.{varint, write_uint64-Writes, read_uint64-Reads}
use seaice.Codec.{
  write_fixed, read_fixed, write_string_f16, write_string_f32, write_string_f64, write_string_vint,
  read_string_f16, read_string_f32, read_string_f64, read_string_vint, write_uint64, read_uint64,
}

module _ (e : Endian) (s : List ℕ) where
  -- A length field of `k` bytes, then the string.
  fixed-Writes :
      (k n : ℕ)
      → n ≡ length s
      → Writes e (write_fixed k n >> write s) (in_endian e k (length s) ++ s)
  fixed-Writes k n h =
      subst (λ (v : ℕ). Writes e (write_fixed k v >> write s) (in_endian e k (length s) ++ s))
        (sym h)
        (Writes->> e (write_fixed k (length s)) (write s) (in_endian e k (length s)) s tt
          (write_fixed-Writes e k (length s)) (write-Writes e s))

  pub write_string_f16-Writes :
      length s < 2 ^ 16 → Writes e (write_string_f16 s) (in_endian e 2 (length s) ++ s)
  unfolding write_string_f16
  write_string_f16-Writes h = fixed-Writes 2 (length s % 2 ^ 16) (omega arith)

  pub write_string_f32-Writes :
      length s < 2 ^ 32 → Writes e (write_string_f32 s) (in_endian e 4 (length s) ++ s)
  unfolding write_string_f32
  write_string_f32-Writes h = fixed-Writes 4 (length s % 2 ^ 32) (omega arith)

  pub write_string_f64-Writes :
      length s < 2 ^ 64 → Writes e (write_string_f64 s) (in_endian e 8 (length s) ++ s)
  unfolding write_string_f64
  write_string_f64-Writes h = fixed-Writes 8 (length s % 2 ^ 64) (omega arith)

  pub read_string_f16-Reads :
      length s < 2 ^ 16 → Reads e read_string_f16 (in_endian e 2 (length s) ++ s) s
  unfolding read_string_f16
  read_string_f16-Reads h =
      Reads->>= e (read_fixed 2) read (in_endian e 2 (length s)) s (length s) s
        (read_fixed-Reads e 2 (length s) (omega arith)) (read-Reads e s (length s) refl)

  pub read_string_f32-Reads :
      length s < 2 ^ 32 → Reads e read_string_f32 (in_endian e 4 (length s) ++ s) s
  unfolding read_string_f32
  read_string_f32-Reads h =
      Reads->>= e (read_fixed 4) read (in_endian e 4 (length s)) s (length s) s
        (read_fixed-Reads e 4 (length s) (omega arith)) (read-Reads e s (length s) refl)

  pub read_string_f64-Reads :
      length s < 2 ^ 64 → Reads e read_string_f64 (in_endian e 8 (length s) ++ s) s
  unfolding read_string_f64
  read_string_f64-Reads h =
      Reads->>= e (read_fixed 8) read (in_endian e 8 (length s)) s (length s) s
        (read_fixed-Reads e 8 (length s) (omega arith)) (read-Reads e s (length s) refl)

  pub read_string_vint-Reads :
      length s < 2 ^ 64 → Reads e read_string_vint (varint 9 (length s) ++ s) s
  unfolding read_string_vint
  read_string_vint-Reads h =
      Reads->>= e read_uint64 read (varint 9 (length s)) s (length s) s
        (read_uint64-Reads e (length s) h) (read-Reads e s (length s) refl)

  pub write_string_vint-Writes :
      length s < 2 ^ 32 → Writes e (write_string_vint s) (varint 9 (length s) ++ s)
  unfolding write_string_vint
  write_string_vint-Writes h =
      Writes->> e (write_uint64 (length s)) (write s) (varint 9 (length s)) s tt
        (write_uint64-Writes e (length s) h) (write-Writes e s)
