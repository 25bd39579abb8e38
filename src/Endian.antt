-- ===== src/Endian.antt =====
-- seaice/endian.h: byte orders and `byteswap`.
use seaice.Prelude.{ℕ, Bool, true, false, if◌then◌else◌}
use seaice.Prelude.Bytes.{le_bytes, of_le}
use mathlib.Core.List.{reverse}

pub data Endian : Type 0 where
  little big : Endian

abbrev pub same : Endian → Endian → Bool
same little little = true
same big big = true
same _ _ = false

-- SEAICE_BYTE_ORDER, on a machine whose BYTE_ORDER is not BIG_ENDIAN.
abbrev pub byte_order : Endian
byte_order = little

-- `bswap_16`, `bswap_32` and `bswap_64`, by the number of bytes.
unfoldable pub byteswap : ℕ → ℕ → ℕ
byteswap k v = of_le (reverse (le_bytes k v))

-- `byteswapOnLittleEndian`: it swaps where the machine is little-endian.
unfoldable pub byteswap_on_little_endian : ℕ → ℕ → ℕ
unfolding byteswap
byteswap_on_little_endian k v = if same byte_order big then v else byteswap k v
