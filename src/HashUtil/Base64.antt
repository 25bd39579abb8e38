-- ===== src/HashUtil/Base64.antt =====
-- Base64 text and back.
pub mod Groups
use native.Mathlib.Decide.{dec_lt}
use mathlib.Core.Bool.{true≢false}
use seaice.Prelude.{
  ℕ, zero, suc, ◌+◌, ◌*◌, ◌/◌, ◌%◌, ◌^◌, ◌≤◌, ◌<◌, ◌≡◌, refl, ◌∙◌, ap, sym, bit_and, bit_or, List,
  [], ◌∷◌, ◌++◌, Option, none, some, arith, length, ◌==◌, Bool, true, false, ◌&&◌, not,
  if◌then◌else◌,
}
use seaice.Prelude.Bits.{bit_and-mask, bit_or-shifted}
use seaice.Prelude.Bytes.{IsBytes}
use seaice.HashUtil.{
  base64_chars, base64_char, base64_value, shift_in, encode_group, base64encode, decode_group,
  group_bytes, put_before, after_group, decode_loop, base64decode, or_empty, and_value,
}
use seaice.HashUtil.Base64.Groups.{
  shift_in_lem, low8, decode-encode_group, decode-encode_group_1, decode-encode_group_2,
}

full_group :
    (rounds p : ℕ) (rest bs : List ℕ)
    → p < 2 ^ 24
    → decode_loop rounds rest ≡ some bs
    → decode_loop (suc rounds) (encode_group p 0 ++ rest)
      ≡ some (p / 2 ^ 16 % 256 ∷ p / 2 ^ 8 % 256 ∷ p % 256 ∷ bs)
unfolding decode_loop encode_group
full_group rounds p rest bs h e =
    ap (after_group (λ cs. decode_loop rounds cs)) (decode-encode_group p rest h)
    ∙ ap (put_before (group_bytes 0 p)) e
    ∙ ap (λ (n : ℕ). some (n ∷ bit_and (p / 2 ^ 8) 0xff ∷ bit_and p 0xff ∷ bs)) (low8 (p / 2 ^ 16))
    ∙ ap (λ (n : ℕ). some (p / 2 ^ 16 % 256 ∷ n ∷ bit_and p 0xff ∷ bs)) (low8 (p / 2 ^ 8))
    ∙ ap (λ (n : ℕ). some (p / 2 ^ 16 % 256 ∷ p / 2 ^ 8 % 256 ∷ n ∷ bs)) (low8 p)

decode_loop-nil : (rounds : ℕ) → decode_loop rounds [] ≡ some []
unfolding decode_loop
decode_loop-nil zero = refl
decode_loop-nil (suc rounds) = refl

one_byte :
    (rounds a : ℕ) → a < 256 → decode_loop (suc rounds) (base64encode (a ∷ [])) ≡ some (a ∷ [])
unfolding decode_loop base64encode encode_group
one_byte rounds a h =
    let p = a * 2 ^ 16 in
    let packed : shift_in 0 a * 2 ^ 8 % 2 ^ 32 * 2 ^ 8 % 2 ^ 32 ≡ p =
      omega (arith, shift_in_lem 0 a (omega arith) h) in
    let q = p / 2 ^ 12 * 2 ^ 6 % 2 ^ 32 * 2 ^ 6 % 2 ^ 32 in
    ap (λ (n : ℕ). decode_loop (suc rounds) (encode_group n 2)) packed
    ∙ ap (after_group (λ cs. decode_loop rounds cs)) (decode-encode_group_2 p (omega arith))
    ∙ ap (put_before (group_bytes 2 q)) (decode_loop-nil rounds)
    ∙ ap (λ (n : ℕ). some (n ∷ [])) (low8 (q / 2 ^ 16) ∙ omega arith)

two_bytes :
    (rounds a b : ℕ)
    → a < 256
    → b < 256
    → decode_loop (suc rounds) (base64encode (a ∷ b ∷ [])) ≡ some (a ∷ b ∷ [])
unfolding decode_loop base64encode encode_group
two_bytes rounds a b h g =
    let p = (a * 2 ^ 8 + b) * 2 ^ 8 in
    let packed : shift_in (shift_in 0 a) b * 2 ^ 8 % 2 ^ 32 ≡ p =
      ap (λ (n : ℕ). shift_in n b * 2 ^ 8 % 2 ^ 32) (shift_in_lem 0 a (omega arith) h)
      ∙ omega (arith, shift_in_lem (0 * 256 + a) b (omega arith) g) in
    let q = p / 2 ^ 6 * 2 ^ 6 % 2 ^ 32 in
    ap (λ (n : ℕ). decode_loop (suc rounds) (encode_group n 1)) packed
    ∙ ap (after_group (λ cs. decode_loop rounds cs)) (decode-encode_group_1 p (omega arith))
    ∙ ap (put_before (group_bytes 1 q)) (decode_loop-nil rounds)
    ∙ ap (λ (n : ℕ). some (n ∷ bit_and (q / 2 ^ 8) 0xff ∷ [])) (low8 (q / 2 ^ 16) ∙ omega arith)
    ∙ ap (λ (n : ℕ). some (a ∷ n ∷ [])) (low8 (q / 2 ^ 8) ∙ omega arith)

three_bytes :
    (a b c : ℕ)
    → a < 256
    → b < 256
    → c < 256
    → shift_in (shift_in (shift_in 0 a) b) c ≡ (a * 256 + b) * 256 + c
three_bytes a b c ha hb hc =
    ap (λ (n : ℕ). shift_in (shift_in n b) c) (shift_in_lem 0 a (omega arith) ha ∙ omega arith)
    ∙ ap (λ (n : ℕ). shift_in n c) (shift_in_lem a b (omega arith) hb)
    ∙ shift_in_lem (a * 256 + b) c (omega arith) hc

decode_loop-base64encode :
    (rounds : ℕ) (bs : List ℕ)
    → IsBytes bs
    → length bs ≤ rounds
    → decode_loop rounds (base64encode bs) ≡ some bs
unfolding base64encode
decode_loop-base64encode rounds [] h few = decode_loop-nil rounds
decode_loop-base64encode zero (a ∷ bs) h few = absurd (omega arith)
decode_loop-base64encode (suc rounds) (a ∷ []) h few = one_byte rounds a h.0
decode_loop-base64encode (suc rounds) (a ∷ b ∷ []) h few = two_bytes rounds a b h.0 h.1.0
decode_loop-base64encode (suc rounds) (a ∷ b ∷ c ∷ bs) h few =
    let p = (a * 256 + b) * 256 + c in
    let (ha, tail) = h in
    let (hb, tail') = tail in
    let (hc, hs) = tail' in
    ap (λ (n : ℕ). decode_loop (suc rounds) (encode_group n 0 ++ base64encode bs))
      (three_bytes a b c ha hb hc)
    ∙ full_group rounds p (base64encode bs) bs (omega arith)
        (decode_loop-base64encode rounds bs hs (omega arith))
    ∙ ap (λ (n : ℕ). some (n ∷ p / 2 ^ 8 % 256 ∷ p % 256 ∷ bs)) (omega arith)
    ∙ ap (λ (n : ℕ). some (a ∷ n ∷ p % 256 ∷ bs)) (omega arith)
    ∙ ap (λ (n : ℕ). some (a ∷ b ∷ n ∷ bs)) (omega arith)

length-base64encode : (bs : List ℕ) → length bs ≤ length (base64encode bs)
unfolding base64encode encode_group
length-base64encode [] = omega arith
length-base64encode (a ∷ []) = omega arith
length-base64encode (a ∷ b ∷ []) = omega arith
length-base64encode (a ∷ b ∷ c ∷ bs) = omega (arith, length-base64encode bs)

-- For every block of bytes, `base64decode` gives back what `base64encode` was given, with any
-- padding.
pub base64decode-base64encode : (bs : List ℕ) → IsBytes bs → base64decode (base64encode bs) ≡ bs
unfolding base64decode
base64decode-base64encode bs h =
    ap or_empty (decode_loop-base64encode (length (base64encode bs)) bs h (length-base64encode bs))
