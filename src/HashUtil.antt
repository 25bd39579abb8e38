-- ===== src/HashUtil.antt =====
-- seaice/util/hash_util.cpp: hexadecimal and base64 text, splitting and hashing. A string is the list
-- of its bytes, and a character constant is its code.
pub mod Hex
pub mod Base64
pub mod Split
pub mod Murmur
use seaice.Prelude.{
  ℕ, zero, suc, ◌+◌, ◌-◌, ◌*◌, ◌/◌, ◌%◌, ◌^◌, bit_and, bit_or, List, [], ◌∷◌, ◌++◌, Option, none,
  some, Bool, ◌&&◌, not, ltb, leb, ◌==◌, if◌then◌else◌, length, get_or, replicate,
}

-- `(c > 9) ? c + 'a' - 10 : c + '0'`
pub hex_digit : ℕ → ℕ
hex_digit c = if ltb 9 c then c + 97 - 10 else c + 48

pub hexstring_from_data : List ℕ → List ℕ
unfolding hex_digit
hexstring_from_data [] = []
hexstring_from_data (b ∷ bs) =
    hex_digit (bit_and (b / 16) 0xf) ∷ hex_digit (bit_and b 0xf) ∷ hexstring_from_data bs

abbrev pub between : ℕ → ℕ → ℕ → Bool
between a b c = leb a c && leb c b

-- Both `switch`es of `data_from_hexstring`, before the shift of the first.
pub nibble : ℕ → Option ℕ
nibble c =
    if between 97 102 c
    then some (c - 97 + 10)
    else (if between 65 70 c
        then some (c - 65 + 10)
        else (if between 48 57 c then some (c - 48) else none))

abbrev pub or_nibble : Option ℕ → Option ℕ → Option (List ℕ) → Option (List ℕ)
or_nibble (some hi) (some lo) (some bs) = some (bit_or (hi * 16 % 256) lo ∷ bs)
or_nibble _ _ _ = none

-- The loop, two characters a round; `none` is the `std::invalid_argument` of either `default`.
pub hex_loop : List ℕ → Option (List ℕ)
unfolding nibble
hex_loop [] = some []
hex_loop (c ∷ []) = none
hex_loop (c ∷ d ∷ cs) = or_nibble (nibble c) (nibble d) (hex_loop cs)

unfoldable pub data_from_hexstring : List ℕ → Option (List ℕ)
unfolding hex_loop
data_from_hexstring s =
    if length s % 2 == 0 then (if length s == 0 then some [] else hex_loop s) else none

-- "ABCDEFGHIJKLMNOPQRSTUVWXYZabcdefghijklmnopqrstuvwxyz0123456789+/"
pub base64_chars : List ℕ
base64_chars =
    65 ∷ 66 ∷ 67 ∷ 68 ∷ 69 ∷ 70 ∷ 71 ∷ 72 ∷ 73 ∷ 74 ∷ 75 ∷ 76 ∷ 77 ∷ 78 ∷ 79 ∷ 80 ∷ 81 ∷ 82 ∷ 83
    ∷ 84 ∷ 85 ∷ 86 ∷ 87 ∷ 88 ∷ 89 ∷ 90 ∷ 97 ∷ 98 ∷ 99 ∷ 100 ∷ 101 ∷ 102 ∷ 103 ∷ 104 ∷ 105 ∷ 106
    ∷ 107 ∷ 108 ∷ 109 ∷ 110 ∷ 111 ∷ 112 ∷ 113 ∷ 114 ∷ 115 ∷ 116 ∷ 117 ∷ 118 ∷ 119 ∷ 120 ∷ 121 ∷ 122
    ∷ 48 ∷ 49 ∷ 50 ∷ 51 ∷ 52 ∷ 53 ∷ 54 ∷ 55 ∷ 56 ∷ 57 ∷ 43 ∷ 47 ∷ []

pub base64_char : ℕ → ℕ
unfolding base64_chars
base64_char n = get_or base64_chars n 0

abbrev pub shift_in : ℕ → ℕ → ℕ
shift_in packed b = bit_or (packed * 2 ^ 8 % 2 ^ 32) b

-- What one round of `base64encode` appends, for three bytes, two or one.
pub encode_group : ℕ → ℕ → List ℕ
unfolding base64_char
encode_group packed padding =
    base64_char (packed / 2 ^ 18)
    ∷ base64_char (bit_and (packed / 2 ^ 12) 0x3f)
    ∷ ((if padding == 2 then [] else base64_char (bit_and (packed / 2 ^ 6) 0x3f) ∷ [])
        ++ ((if padding == 0 then base64_char (bit_and packed 0x3f) ∷ [] else [])
            ++ replicate padding 61))

pub base64encode : List ℕ → List ℕ
unfolding encode_group
base64encode [] = []
base64encode (a ∷ []) = encode_group (shift_in 0 a * 2 ^ 8 % 2 ^ 32 * 2 ^ 8 % 2 ^ 32) 2
base64encode (a ∷ b ∷ []) = encode_group (shift_in (shift_in 0 a) b * 2 ^ 8 % 2 ^ 32) 1
base64encode (a ∷ b ∷ c ∷ rest) =
    encode_group (shift_in (shift_in (shift_in 0 a) b) c) 0 ++ base64encode rest

pub base64_value : ℕ → Option ℕ
base64_value c =
    if between 65 90 c
    then some (c - 65)
    else (if between 97 122 c
        then some (c - 97 + 26)
        else (if between 48 57 c
            then some (c - 48 + 52)
            else (if c == 43 then some 62 else (if c == 47 then some 63 else none))))

abbrev pub and_value {ℓ} : {A : Type ℓ} → Option ℕ → (ℕ → Option A) → Option A
and_value none next = none
and_value (some v) next = next v

-- The inner loop of `base64decode`, by the rounds left: `padding`, `packed` and the text behind, or
-- `none` where the function returns "", which it also does when the text ends before the fourth
-- round.
pub decode_group : ℕ → ℕ → ℕ → List ℕ → Option (ℕ × ℕ × List ℕ)
unfolding base64_value
decode_group zero padding packed cs = some (padding, packed, cs)
decode_group (suc rounds) padding packed [] = none
decode_group (suc rounds) padding packed (c ∷ cs) =
    let padded = decode_group rounds (padding + 1) (packed * 2 ^ 6 % 2 ^ 32) cs in
    let next : ℕ → Option (ℕ × ℕ × List ℕ) =
      λ v. decode_group rounds padding (bit_or (packed * 2 ^ 6 % 2 ^ 32) v) cs in
    if c == 61 then padded else (if ltb 0 padding then none else and_value (base64_value c) next)

abbrev pub put_before : List ℕ → Option (List ℕ) → Option (List ℕ)
put_before bs none = none
put_before bs (some rest) = some (bs ++ rest)

abbrev pub group_bytes : ℕ → ℕ → List ℕ
group_bytes padding packed =
    bit_and (packed / 2 ^ 16) 0xff
    ∷ ((if padding == 2 then [] else bit_and (packed / 2 ^ 8) 0xff ∷ [])
        ++ (if padding == 0 then bit_and packed 0xff ∷ [] else []))

abbrev pub is_empty : List ℕ → Bool
is_empty cs = length cs == 0

-- The rest of a round of the outer loop, with the rounds behind it.
abbrev pub after_group : (List ℕ → Option (List ℕ)) → Option (ℕ × ℕ × List ℕ) → Option (List ℕ)
after_group loop none = none
after_group loop (some (padding, packed, cs)) =
    if ltb 0 padding && not (is_empty cs)
    then none
    else (if ltb 2 padding then none else put_before (group_bytes padding packed) (loop cs))

pub decode_loop : ℕ → List ℕ → Option (List ℕ)
unfolding decode_group
decode_loop zero cs = if is_empty cs then some [] else none
decode_loop (suc rounds) [] = some []
decode_loop (suc rounds) (c ∷ cs) =
    after_group (λ rest. decode_loop rounds rest) (decode_group 4 0 0 (c ∷ cs))

abbrev pub or_empty : Option (List ℕ) → List ℕ
or_empty none = []
or_empty (some bs) = bs

-- Every round takes four characters, so as many rounds as characters are enough.
unfoldable pub base64decode : List ℕ → List ℕ
unfolding decode_loop
base64decode src = or_empty (decode_loop (length src) src)
