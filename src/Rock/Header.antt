-- ===== src/Rock/Header.antt =====
-- The header of the rock protocol: which headers the decoder takes, and that it takes those that
-- `serializeTo` makes.
use seaice.Prelude.{ℕ, ◌^◌, ◌<◌, ◌≡◌, ◌∙◌, refl, ap, true, arith}
use seaice.Endian.{byteswap_on_little_endian}
use seaice.Codec.Fixed.{byteswap_twice}
use seaice.Rock.{RockMsgHeader, new_header, is_rock_message_header_valid, header_for}

-- What the check asks of a header.
pub record IsAccepted (max_length : ℕ) (h : RockMsgHeader) : Type 0 where
  pub magic_0_eq : h.magic_0 ≡ 0xab
  pub magic_1_eq : h.magic_1 ≡ 0xcd
  pub version_eq : h.version ≡ 1
  pub length_lt : byteswap_on_little_endian 4 h.length < max_length

pub swapped : RockMsgHeader → RockMsgHeader
swapped h = record h { length = byteswap_on_little_endian 4 h.length }

-- A header with the magic numbers, version 1 and a length that is below the limit once its bytes
-- are swapped is accepted, and its length is then in the machine's byte order.
pub is_rock_message_header_valid-accepts :
    (max_length : ℕ) (h : RockMsgHeader)
    → IsAccepted max_length h
    → is_rock_message_header_valid max_length h ≡ (swapped h, true)
unfolding is_rock_message_header_valid swapped
is_rock_message_header_valid-accepts max_length h a =
    ground (arith, a.magic_0_eq, a.magic_1_eq, a.version_eq, a.length_lt)

-- For a body length below the limit and below 2 ^ 32, the header that `serializeTo` makes is
-- accepted, and the decoder has the flag and the length that went into it.
pub header_for-accepted :
    (max_length flag n : ℕ)
    → n < max_length
    → n < 2 ^ 32
    → is_rock_message_header_valid max_length (header_for flag n)
      ≡ (record new_header { flag = flag; length = n }, true)
unfolding header_for new_header byteswap_on_little_endian swapped
header_for-accepted max_length flag n h g =
    let twice : byteswap_on_little_endian 4 (byteswap_on_little_endian 4 n) ≡ n =
      byteswap_twice 4 n (omega arith) in
    is_rock_message_header_valid-accepts max_length (header_for flag n) (record {
      magic_0_eq = refl;
      magic_1_eq = refl;
      version_eq = refl;
      length_lt = omega (arith, twice);
    })
    ∙ ap
        (λ (k : ℕ).
          let hd : RockMsgHeader = record new_header { flag = flag; length = k } in (hd, true))
        twice
