-- ===== src/HashUtil/Base64/Groups.antt =====
-- The groups of base64 text: what the inner loop of `base64decode` makes of what a round of
-- `base64encode` writes.
use native.Mathlib.Decide.{dec_lt}
use mathlib.Core.Bool.{true≢false}
use seaice.Prelude.{
  ℕ, zero, suc, ◌+◌, ◌*◌, ◌/◌, ◌%◌, ◌^◌, ◌<◌, ◌≡◌, refl, ◌∙◌, ap, sym, bit_and, bit_or, List, [],
  ◌∷◌, ◌++◌, Option, none, some, arith, ◌==◌, Bool, true, false, ◌&&◌, not, if◌then◌else◌,
}
use seaice.Prelude.Bits.{bit_and-mask, bit_or-shifted}
use seaice.HashUtil.{
  base64_chars, base64_char, base64_value, shift_in, encode_group, decode_group, and_value,
}

and_lem : (a b : Bool) → (a && b) ≡ true → (a ≡ true) × (b ≡ true)
and_lem true b h = (refl, h)
and_lem false b h = absurd (true≢false (sym h))

all_below : ℕ → (ℕ → Bool) → Bool
all_below zero p = true
all_below (suc n) p = p n && all_below n p

all_below_lem : (n : ℕ) (p : ℕ → Bool) (k : ℕ) → all_below n p ≡ true → k < n → p k ≡ true
unfolding all_below
all_below_lem zero p k h lt = absurd (omega arith)
all_below_lem (suc n) p k h lt = elim (dec_lt k n) [
  | yes o ↦ all_below_lem n p k (and_lem (p n) (all_below n p) h).1 o
  | no o ↦ ap p (omega arith) ∙ (and_lem (p n) (all_below n p) h).0
]

is_value : ℕ → Option ℕ → Bool
is_value n none = false
is_value n (some v) = v == n

good_char : ℕ → Bool
good_char n = is_value n (base64_value (base64_char n)) && not (base64_char n == 61)

good_chars : all_below 64 good_char ≡ true
unfolding all_below good_char is_value base64_value base64_char base64_chars
good_chars = refl

is_value_lem :
    (n : ℕ) (o : Option ℕ) (b : Bool) → (is_value n o && b) ≡ true → (o ≡ some n) × (b ≡ true)
unfolding is_value
is_value_lem n none b h = absurd (true≢false (sym h))
is_value_lem n (some v) b h = (ground arith, ground arith)

-- A digit is read as what it stands for, and is no padding.
char_lem :
    (n : ℕ) → n < 64 → (base64_value (base64_char n) ≡ some n) × ((base64_char n == 61) ≡ false)
unfolding good_char
char_lem n h =
    let (v, p) =
      is_value_lem n (base64_value (base64_char n)) (not (base64_char n == 61))
        (all_below_lem 64 good_char n good_chars h) in
    (v, ground (arith, p))

-- One round of the inner loop on a digit.
digit-round :
    (rounds packed n : ℕ) (cs : List ℕ)
    → n < 64
    → packed < 2 ^ 18
    → decode_group (suc rounds) 0 packed (base64_char n ∷ cs)
      ≡ decode_group rounds 0 (packed * 64 + n) cs
unfolding decode_group
digit-round rounds packed n cs h small =
    let (value, other) = char_lem n h in
    let joined : bit_or (packed * 2 ^ 6 % 2 ^ 32) n ≡ packed * 64 + n =
      ap (λ (m : ℕ). bit_or m n) (omega arith) ∙ bit_or-shifted 6 packed n (omega arith) in
    let next : ℕ → Option (ℕ × ℕ × List ℕ) =
      λ v. decode_group rounds 0 (bit_or (packed * 2 ^ 6 % 2 ^ 32) v) cs in
    ap
      (λ (b : Bool).
        if b
        then decode_group rounds 1 (packed * 2 ^ 6 % 2 ^ 32) cs
        else and_value (base64_value (base64_char n)) next)
      other
    ∙ ap (λ (o : Option ℕ). and_value o next) value
    ∙ ap (λ (m : ℕ). decode_group rounds 0 m cs) joined

pub shift_in_lem : (p b : ℕ) → p < 2 ^ 16 → b < 256 → shift_in p b ≡ p * 256 + b
shift_in_lem p b h g = ap (λ (m : ℕ). bit_or m b) (omega arith) ∙ bit_or-shifted 8 p b g

-- The four digits of a packed group.
abbrev digits : ℕ → List ℕ
digits p =
    base64_char (p / 2 ^ 18)
    ∷ base64_char (p / 2 ^ 12 % 64)
    ∷ base64_char (p / 2 ^ 6 % 64)
    ∷ base64_char (p % 64)
    ∷ []

low6 : (n : ℕ) → bit_and n 0x3f ≡ n % 64
low6 n = bit_and-mask 6 n

pub low8 : (n : ℕ) → bit_and n 0xff ≡ n % 256
low8 n = bit_and-mask 8 n

-- The first two digits, which every group has.
two-rounds :
    (p : ℕ) (cs : List ℕ)
    → p < 2 ^ 24
    → decode_group 4 0 0 (base64_char (p / 2 ^ 18) ∷ base64_char (bit_and (p / 2 ^ 12) 0x3f) ∷ cs)
      ≡ decode_group 2 0 (p / 2 ^ 12) cs
two-rounds p cs h =
    digit-round 3 0 (p / 2 ^ 18) _ (omega arith) (omega arith)
    ∙ ap (λ (n : ℕ). decode_group 3 0 (0 * 64 + p / 2 ^ 18) (base64_char n ∷ cs))
        (low6 (p / 2 ^ 12))
    ∙ digit-round 2 (0 * 64 + p / 2 ^ 18) (p / 2 ^ 12 % 64) cs (omega arith) (omega arith)
    ∙ ap (λ (n : ℕ). decode_group 2 0 n cs) (omega arith)

third-round :
    (rounds p : ℕ) (cs : List ℕ)
    → p < 2 ^ 24
    → decode_group (suc rounds) 0 (p / 2 ^ 12) (base64_char (bit_and (p / 2 ^ 6) 0x3f) ∷ cs)
      ≡ decode_group rounds 0 (p / 2 ^ 6) cs
third-round rounds p cs h =
    ap (λ (n : ℕ). decode_group (suc rounds) 0 (p / 2 ^ 12) (base64_char n ∷ cs)) (low6 (p / 2 ^ 6))
    ∙ digit-round rounds (p / 2 ^ 12) (p / 2 ^ 6 % 64) cs (omega arith) (omega arith)
    ∙ ap (λ (n : ℕ). decode_group rounds 0 n cs) (omega arith)

fourth-round :
    (p : ℕ) (cs : List ℕ)
    → p < 2 ^ 24
    → decode_group 1 0 (p / 2 ^ 6) (base64_char (bit_and p 0x3f) ∷ cs) ≡ some (0, p, cs)
unfolding decode_group
fourth-round p cs h =
    ap (λ (n : ℕ). decode_group 1 0 (p / 2 ^ 6) (base64_char n ∷ cs)) (low6 p)
    ∙ digit-round 0 (p / 2 ^ 6) (p % 64) cs (omega arith) (omega arith)
    ∙ ap (λ (n : ℕ). some (0, n, cs)) (omega arith)

-- What the inner loop makes of the text of a group.
pub decode-encode_group :
    (p : ℕ) (rest : List ℕ)
    → p < 2 ^ 24
    → decode_group 4 0 0 (encode_group p 0 ++ rest) ≡ some (0, p, rest)
unfolding encode_group
decode-encode_group p rest h = two-rounds p _ h ∙ third-round 1 p _ h ∙ fourth-round p rest h

pub decode-encode_group_1 :
    (p : ℕ)
    → p < 2 ^ 24
    → decode_group 4 0 0 (encode_group p 1) ≡ some (1, p / 2 ^ 6 * 2 ^ 6 % 2 ^ 32, [])
unfolding encode_group decode_group
decode-encode_group_1 p h =
    two-rounds p (base64_char (bit_and (p / 2 ^ 6) 0x3f) ∷ 61 ∷ []) h ∙ third-round 1 p (61 ∷ []) h

pub decode-encode_group_2 :
    (p : ℕ)
    → p < 2 ^ 24
    → decode_group 4 0 0 (encode_group p 2)
      ≡ some (2, p / 2 ^ 12 * 2 ^ 6 % 2 ^ 32 * 2 ^ 6 % 2 ^ 32, [])
unfolding encode_group decode_group
decode-encode_group_2 p h = two-rounds p (61 ∷ 61 ∷ []) h
