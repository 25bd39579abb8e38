-- ===== src/Tests/Messages.antt =====
-- Runs of the rock protocol and of the loops of seaice/stream.cpp.
use seaice.Prelude.{ℕ, ◌≡◌, refl, true, List, [], ◌∷◌, some, arith, ◌*◌, ◌^◌}
use seaice.Prelude.Bytes.{of_le, le_bytes}
use seaice.ByteArray.{ByteArray, ok, set_pos}
use seaice.Rock.{
  Message, rock_request, to_byte_array, decode, RockMsgHeader, new_header, header_for,
  is_rock_message_header_valid,
}
use seaice.Rock.RoundTrip.{IsMessage, decode-to_byte_array}
use seaice.Rock.Header.{header_for-accepted}
use seaice.Stream.{complete, read_fix_size, write_fix_size}
use seaice.Tests.Streams.{trickle, trickle-IsSource, drip, drip-IsTarget}
use seaice.Stream.Complete.{read_fix_size-complete, write_fix_size-complete}

abbrev pub ping : Message
ping = rock_request (record { sn = 300; cmd = 7 }) (104 ∷ 105 ∷ [])

pub ping-IsMessage : IsMessage ping
unfolding IsMessage
ping-IsMessage = (record { sn_lt = omega arith; cmd_lt = omega arith }, omega arith)

decode-to_byte_array_example :
    (b : ByteArray) × (c : ByteArray) × (d : ByteArray) × (to_byte_array 7 ping ≡ ok (some b))
    × (set_pos 0 b ≡ (c, ok tt))
    × (decode c ≡ (d, ok (some ping)))
decode-to_byte_array_example = decode-to_byte_array 7 ping ping-IsMessage

-- The header of a body of 10 bytes, as it lies in memory.
abbrev header : RockMsgHeader
header = record { magic_0 = 0xab; magic_1 = 0xcd; version = 1; flag = 0; length = 10 * 2 ^ 24 }

header-run : is_rock_message_header_valid 100 header ≡ (record header { length = 10 }, true)
unfolding is_rock_message_header_valid of_le le_bytes
header-run = refl

header_for-accepted_example :
    is_rock_message_header_valid 100 (header_for 0 10)
    ≡ (record new_header { flag = 0; length = 10 }, true)
header_for-accepted_example = header_for-accepted 100 0 10 (omega arith) (omega arith)

read_fix_size-complete_example :
    (t : List ℕ) × (read_fix_size trickle 2 2 (1 ∷ 2 ∷ 3 ∷ []) ≡ (t, complete (1 ∷ 2 ∷ [])))
    × (t ≡ 3 ∷ [])
read_fix_size-complete_example =
    read_fix_size-complete trickle (λ s. s) trickle-IsSource 2 2 (1 ∷ 2 ∷ 3 ∷ []) (omega arith)
      (omega arith)

write_fix_size-complete_example :
    (t : List ℕ) × (write_fix_size drip 2 (1 ∷ 2 ∷ []) (9 ∷ []) ≡ (t, complete tt))
    × (t ≡ 9 ∷ 1 ∷ 2 ∷ [])
write_fix_size-complete_example =
    write_fix_size-complete drip (λ s. s) drip-IsTarget 2 (1 ∷ 2 ∷ []) (9 ∷ []) (omega arith)
      (omega arith)
