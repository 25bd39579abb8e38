-- ===== src/HashUtil/Hex.antt =====
-- Hexadecimal text and back.
use mathlib.Core.Bool.{true≢false}
use mathlib.Core.Option.{some-injective, none-ne-some}
use seaice.Prelude.{
  ℕ, ◌+◌, ◌*◌, ◌/◌, ◌%◌, ◌<◌, ◌≡◌, refl, ◌∙◌, ap, sym, bit_and, bit_or, List, [], ◌∷◌, map, Option,
  none, some, arith, length, ◌==◌, if◌then◌else◌, Bool, true, false,
}
use seaice.Prelude.Bits.{bit_and-mask, bit_or-shifted}
use seaice.Prelude.Bytes.{IsBytes}
use seaice.HashUtil.{
  hex_digit, hexstring_from_data, nibble, hex_loop, data_from_hexstring, or_nibble, between,
}

nibble-hex_digit : (c : ℕ) → c < 16 → nibble (hex_digit c) ≡ some c
unfolding nibble hex_digit
nibble-hex_digit c h = ground arith

low : (b : ℕ) → bit_and b 0xf ≡ b % 16
low b = bit_and-mask 4 b

join_nibbles : (b : ℕ) → b < 256 → bit_or (b / 16 * 16 % 256) (b % 16) ≡ b
join_nibbles b h =
    ap (λ (n : ℕ). bit_or n (b % 16)) (omega arith)
    ∙ bit_or-shifted 4 (b / 16) (b % 16) (omega arith)
    ∙ omega arith

hex_loop-hexstring_from_data :
    (bs : List ℕ) → IsBytes bs → hex_loop (hexstring_from_data bs) ≡ some bs
unfolding hex_loop hexstring_from_data
hex_loop-hexstring_from_data [] h = refl
hex_loop-hexstring_from_data (b ∷ bs) h =
    let hi : bit_and (b / 16) 0xf ≡ b / 16 = omega (arith, low (b / 16), h.0) in
    ap
      (λ (c : ℕ).
        or_nibble (nibble (hex_digit c)) (nibble (hex_digit (bit_and b 0xf)))
          (hex_loop (hexstring_from_data bs)))
      hi
    ∙ ap
        (λ (c : ℕ).
          or_nibble (nibble (hex_digit (b / 16))) (nibble (hex_digit c))
            (hex_loop (hexstring_from_data bs)))
        (low b)
    ∙ ap
        (λ (o : Option ℕ).
          or_nibble o (nibble (hex_digit (b % 16))) (hex_loop (hexstring_from_data bs)))
        (nibble-hex_digit (b / 16) (omega (arith, h.0)))
    ∙ ap (λ (o : Option ℕ). or_nibble (some (b / 16)) o (hex_loop (hexstring_from_data bs)))
        (nibble-hex_digit (b % 16) (omega arith))
    ∙ ap (or_nibble (some (b / 16)) (some (b % 16))) (hex_loop-hexstring_from_data bs h.1)
    ∙ ap (λ (n : ℕ). some (n ∷ bs)) (join_nibbles b h.0)

length-hexstring_from_data : (bs : List ℕ) → length (hexstring_from_data bs) ≡ length bs * 2
unfolding hexstring_from_data
length-hexstring_from_data [] = refl
length-hexstring_from_data (b ∷ bs) = omega (arith, length-hexstring_from_data bs)

even_length : (s : List ℕ) (n : ℕ) → length s ≡ n * 2 → data_from_hexstring s ≡ hex_loop s
unfolding data_from_hexstring hex_loop
even_length [] n h = refl
even_length (c ∷ cs) n h = ground (arith, h)

-- For every block of bytes, `data_from_hexstring` takes what `hexstring_from_data` writes and
-- returns the block.
pub data_from_hexstring-hexstring_from_data :
    (bs : List ℕ) → IsBytes bs → data_from_hexstring (hexstring_from_data bs) ≡ some bs
data_from_hexstring-hexstring_from_data bs h =
    even_length (hexstring_from_data bs) (length bs) (length-hexstring_from_data bs)
    ∙ hex_loop-hexstring_from_data bs h

-- The lower-case form of a digit.
pub lower : ℕ → ℕ
lower c = if between 65 70 c then c + 32 else c

hex_digit-nibble : (c v : ℕ) → nibble c ≡ some v → (hex_digit v ≡ lower c) × (v < 16)
unfolding nibble hex_digit lower
hex_digit-nibble c v e = (ground (arith, e), ground (arith, e))

recode :
    (c d : ℕ) (hi lo : ℕ)
    → nibble c ≡ some hi
    → nibble d ≡ some lo
    → (bs : List ℕ)
    → hexstring_from_data (bit_or (hi * 16 % 256) lo ∷ bs)
      ≡ lower c ∷ lower d ∷ hexstring_from_data bs
unfolding hexstring_from_data
recode c d hi lo e f bs =
    let (digit, small) = hex_digit-nibble c hi e in
    let (digit', small') = hex_digit-nibble d lo f in
    let joined : bit_or (hi * 16 % 256) lo ≡ hi * 16 + lo =
      ap (λ (n : ℕ). bit_or n lo) (omega arith) ∙ bit_or-shifted 4 hi lo (omega arith) in
    let front : hex_digit (bit_and (bit_or (hi * 16 % 256) lo / 16) 0xf) ≡ lower c =
      ap hex_digit (omega (arith, low (bit_or (hi * 16 % 256) lo / 16), joined)) ∙ digit in
    let back : hex_digit (bit_and (bit_or (hi * 16 % 256) lo) 0xf) ≡ lower d =
      ap hex_digit (omega (arith, low (bit_or (hi * 16 % 256) lo), joined)) ∙ digit' in
    ap (λ (n : ℕ). n ∷ hex_digit (bit_and (bit_or (hi * 16 % 256) lo) 0xf) ∷ hexstring_from_data bs)
      front
    ∙ ap (λ (n : ℕ). lower c ∷ n ∷ hexstring_from_data bs) back

two_digits :
    (c d : ℕ) (cs bs : List ℕ) (hi lo : Option ℕ) (r : Option (List ℕ))
    → nibble c ≡ hi
    → nibble d ≡ lo
    → ((rest : List ℕ) → r ≡ some rest → hexstring_from_data rest ≡ map lower cs)
    → or_nibble hi lo r ≡ some bs
    → hexstring_from_data bs ≡ map lower (c ∷ d ∷ cs)
two_digits c d cs bs (some hi) (some lo) (some rest) e f ih g =
    ap hexstring_from_data (sym (some-injective (bit_or (hi * 16 % 256) lo ∷ rest) bs g))
    ∙ recode c d hi lo e f rest
    ∙ ap (λ (t : List ℕ). lower c ∷ lower d ∷ t) (ih rest refl)
two_digits c d cs bs none lo r e f ih g = absurd (none-ne-some bs g)
two_digits c d cs bs (some hi) none r e f ih g = absurd (none-ne-some bs g)
two_digits c d cs bs (some hi) (some lo) none e f ih g = absurd (none-ne-some bs g)

hexstring_from_data-hex_loop :
    (s bs : List ℕ) → hex_loop s ≡ some bs → hexstring_from_data bs ≡ map lower s
unfolding hex_loop hexstring_from_data
hexstring_from_data-hex_loop [] bs e = ap hexstring_from_data (sym (some-injective [] bs e))
hexstring_from_data-hex_loop (c ∷ []) bs e = absurd (none-ne-some bs e)
hexstring_from_data-hex_loop (c ∷ d ∷ cs) bs e =
    two_digits c d cs bs (nibble c) (nibble d) (hex_loop cs) refl refl
      (λ rest f. hexstring_from_data-hex_loop cs rest f) e

under_tests :
    (even empty : Bool) (x : Option (List ℕ)) (bs : List ℕ)
    → empty ≡ false
    → (if even then (if empty then some [] else x) else none) ≡ some bs
    → x ≡ some bs
under_tests true false x bs h e = e
under_tests true true x bs h e = absurd (true≢false h)
under_tests false empty x bs h e = absurd (none-ne-some bs e)

taken : (s bs : List ℕ) → data_from_hexstring s ≡ some bs → hex_loop s ≡ some bs
unfolding data_from_hexstring hex_loop
taken [] bs h = h
taken (c ∷ cs) bs h =
    under_tests (length (c ∷ cs) % 2 == 0) (length (c ∷ cs) == 0) (hex_loop (c ∷ cs)) bs
      (ground arith) h

-- Where `data_from_hexstring` returns, `hexstring_from_data` of its result is the text it was
-- given with the letters A to F made lower case.
pub hexstring_from_data-data_from_hexstring :
    (s bs : List ℕ) → data_from_hexstring s ≡ some bs → hexstring_from_data bs ≡ map lower s
hexstring_from_data-data_from_hexstring s bs e = hexstring_from_data-hex_loop s bs (taken s bs e)
