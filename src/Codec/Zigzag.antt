-- ===== src/Codec/Zigzag.antt =====
-- EncodeZigzag and DecodeZigzag of seaice/bytearray.cpp are inverse to one another.
use native.Mathlib.Decide.{dec_lt}
use seaice.Prelude.{
  ℕ, ◌+◌, ◌-◌, ◌*◌, ◌/◌, ◌%◌, ◌^◌, ◌≤◌, ◌<◌, ◌≡◌, ◌∙◌, ap, arith, bit_and, lt→ltb, le→ltb,
}
use seaice.Prelude.Bits.{bit_and-mask, bit_xor-ones, bit_xor-zero}
use seaice.Codec.{encode_zigzag32, decode_zigzag32, encode_zigzag64, decode_zigzag64}

decode_even32 : (n : ℕ) → n < 2 ^ 31 → decode_zigzag32 (n * 2) ≡ n
unfolding decode_zigzag32
decode_even32 n h =
    let low : bit_and (n * 2) 1 ≡ 0 = omega (arith, bit_and-mask 1 (n * 2)) in
    let half : n * 2 / 2 ≡ n = omega arith in rw (low, half) (bit_xor-zero n)

decode_odd32 : (n : ℕ) → n < 2 ^ 31 → decode_zigzag32 (n * 2 + 1) ≡ 2 ^ 32 - 1 - n
unfolding decode_zigzag32
decode_odd32 n h =
    let low : bit_and (n * 2 + 1) 1 ≡ 1 = omega (arith, bit_and-mask 1 (n * 2 + 1)) in
    let half : (n * 2 + 1) / 2 ≡ n = omega arith in rw (low, half) (bit_xor-ones 32 n (omega arith))

encode_positive32 : (v : ℕ) → v < 2 ^ 31 → encode_zigzag32 v ≡ v * 2
unfolding encode_zigzag32
encode_positive32 v h = rw (lt→ltb v (2 ^ 31) h) (omega arith)

encode_negative32 : (v : ℕ) → 2 ^ 31 ≤ v → v < 2 ^ 32 → encode_zigzag32 v ≡ (2 ^ 32 - 1 - v) * 2 + 1
unfolding encode_zigzag32
encode_negative32 v h g = rw (le→ltb v (2 ^ 31) h) (omega arith)

-- Decoding undoes zigzag encoding on all 32-bit patterns.
pub decode-encode_zigzag32 : (v : ℕ) → v < 2 ^ 32 → decode_zigzag32 (encode_zigzag32 v) ≡ v
decode-encode_zigzag32 v h = elim (dec_lt v (2 ^ 31)) [
  | yes small ↦ ap decode_zigzag32 (encode_positive32 v small) ∙ decode_even32 v small
  | no large ↦
      ap decode_zigzag32 (encode_negative32 v (omega arith) h)
      ∙ decode_odd32 (2 ^ 32 - 1 - v) (omega arith)
      ∙ omega arith
]

-- Encoding undoes zigzag decoding on all 32-bit patterns.
pub encode-decode_zigzag32 : (n : ℕ) → n < 2 ^ 32 → encode_zigzag32 (decode_zigzag32 n) ≡ n
encode-decode_zigzag32 n h = elim (dec_lt 0 (n % 2)) [
  | yes odd ↦
      let split : n ≡ n / 2 * 2 + 1 = omega arith in
      ap (λ (k : ℕ). encode_zigzag32 (decode_zigzag32 k)) split
      ∙ ap encode_zigzag32 (decode_odd32 (n / 2) (omega arith))
      ∙ encode_negative32 (2 ^ 32 - 1 - n / 2) (omega arith) (omega arith)
      ∙ omega arith
  | no even ↦
      let split : n ≡ n / 2 * 2 = omega arith in
      ap (λ (k : ℕ). encode_zigzag32 (decode_zigzag32 k)) split
      ∙ ap encode_zigzag32 (decode_even32 (n / 2) (omega arith))
      ∙ encode_positive32 (n / 2) (omega arith)
      ∙ omega arith
]

pub encode_zigzag32-lt : (v : ℕ) → encode_zigzag32 v < 2 ^ 32
unfolding encode_zigzag32
encode_zigzag32-lt v = ground arith

decode_even64 : (n : ℕ) → n < 2 ^ 63 → decode_zigzag64 (n * 2) ≡ n
unfolding decode_zigzag64
decode_even64 n h =
    let low : bit_and (n * 2) 1 ≡ 0 = omega (arith, bit_and-mask 1 (n * 2)) in
    let half : n * 2 / 2 ≡ n = omega arith in rw (low, half) (bit_xor-zero n)

decode_odd64 : (n : ℕ) → n < 2 ^ 63 → decode_zigzag64 (n * 2 + 1) ≡ 2 ^ 64 - 1 - n
unfolding decode_zigzag64
decode_odd64 n h =
    let low : bit_and (n * 2 + 1) 1 ≡ 1 = omega (arith, bit_and-mask 1 (n * 2 + 1)) in
    let half : (n * 2 + 1) / 2 ≡ n = omega arith in rw (low, half) (bit_xor-ones 64 n (omega arith))

encode_positive64 : (v : ℕ) → v < 2 ^ 63 → encode_zigzag64 v ≡ v * 2
unfolding encode_zigzag64
encode_positive64 v h = rw (lt→ltb v (2 ^ 63) h) (omega arith)

encode_negative64 : (v : ℕ) → 2 ^ 63 ≤ v → v < 2 ^ 64 → encode_zigzag64 v ≡ (2 ^ 64 - 1 - v) * 2 + 1
unfolding encode_zigzag64
encode_negative64 v h g = rw (le→ltb v (2 ^ 63) h) (omega arith)

-- Decoding undoes zigzag encoding on all 64-bit patterns.
pub decode-encode_zigzag64 : (v : ℕ) → v < 2 ^ 64 → decode_zigzag64 (encode_zigzag64 v) ≡ v
decode-encode_zigzag64 v h = elim (dec_lt v (2 ^ 63)) [
  | yes small ↦ ap decode_zigzag64 (encode_positive64 v small) ∙ decode_even64 v small
  | no large ↦
      ap decode_zigzag64 (encode_negative64 v (omega arith) h)
      ∙ decode_odd64 (2 ^ 64 - 1 - v) (omega arith)
      ∙ omega arith
]

-- Encoding undoes zigzag decoding on all 64-bit patterns.
pub encode-decode_zigzag64 : (n : ℕ) → n < 2 ^ 64 → encode_zigzag64 (decode_zigzag64 n) ≡ n
encode-decode_zigzag64 n h = elim (dec_lt 0 (n % 2)) [
  | yes odd ↦
      let split : n ≡ n / 2 * 2 + 1 = omega arith in
      ap (λ (k : ℕ). encode_zigzag64 (decode_zigzag64 k)) split
      ∙ ap encode_zigzag64 (decode_odd64 (n / 2) (omega arith))
      ∙ encode_negative64 (2 ^ 64 - 1 - n / 2) (omega arith) (omega arith)
      ∙ omega arith
  | no even ↦
      let split : n ≡ n / 2 * 2 = omega arith in
      ap (λ (k : ℕ). encode_zigzag64 (decode_zigzag64 k)) split
      ∙ ap encode_zigzag64 (decode_even64 (n / 2) (omega arith))
      ∙ encode_positive64 (n / 2) (omega arith)
      ∙ omega arith
]

pub encode_zigzag64-lt : (v : ℕ) → encode_zigzag64 v < 2 ^ 64
unfolding encode_zigzag64
encode_zigzag64-lt v = ground arith
