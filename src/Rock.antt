-- ===== src/Rock.antt =====
-- seaice/rock/rock_protocol.h and seaice/rock/rock_protocol.cpp: the messages of the rock protocol,
-- their body, the header in front of them and the decoder.
pub mod Layout
pub mod RoundTrip
pub mod Header
pub mod Streams
pub mod Carried
pub mod Posted
use seaice.Prelude.{
  ℕ, ◌*◌, ◌%◌, ◌^◌, List, Bool, true, false, ◌&&◌, Option, none, some, not, ◌||◌, ltb, leb, ◌==◌,
  if◌then◌else◌,
}
use seaice.Endian.{byteswap_on_little_endian}
use seaice.ByteArray.{
  ByteArray, Result, ok, err, Error, out_of_range, crash, M, ◌>>=◌, ◌>>◌, return, new, set_pos,
}
use seaice.Codec.{write_string_vint, read_string_vint, read_fuint8}
use seaice.Protocol.{
  Request, Response, Notify, serialize_request, parse_request, serialize_response, parse_response,
  serialize_notify, parse_notify,
}

-- The classes RockRequest, RockResponse and RockNotify: the shared part and the body.
pub data Message : Type 0 where
  rock_request : Request → List ℕ → Message
  rock_response : Response → List ℕ → Message
  rock_notify : Notify → List ℕ → Message

unfoldable pub serialize_body : List ℕ → M Bool
unfolding write_string_vint
serialize_body body = do write_string_vint body; return true

unfoldable pub parse_body : M (List ℕ)
unfolding read_string_vint
parse_body = read_string_vint

-- `catch(...) { } return false;`. What has no defined result is no exception and goes on.
pub caught {ℓ} : {A : Type ℓ} → A → ByteArray × Result A → ByteArray × Result A
caught v (b, ok a) = (b, ok a)
caught v (b, err out_of_range) = (b, ok v)
caught v (b, err crash) = (b, err crash)

abbrev pub try_or {ℓ} : {A : Type ℓ} → A → M A → M A
try_or v m b = caught v (m b)

unfoldable pub serialize : Message → M Bool
unfolding serialize_request serialize_response serialize_notify serialize_body caught
serialize (rock_request r body) =
    try_or false (do v ← serialize_request r; w ← serialize_body body; return (v && w))
serialize (rock_response r body) =
    try_or false (do v ← serialize_response r; w ← serialize_body body; return (v && w))
serialize (rock_notify r body) =
    try_or false (do v ← serialize_notify r; w ← serialize_body body; return (v && w))

-- The three `parseFromByteArray`: `none` where they return false. The half-filled object is dropped
-- by their caller.
unfoldable pub parse_rock_request : M (Option Message)
unfolding parse_request parse_body caught
parse_rock_request =
    try_or none (do r ← parse_request; body ← parse_body; return (some (rock_request r body)))

unfoldable pub parse_rock_response : M (Option Message)
unfolding parse_response parse_body caught
parse_rock_response =
    try_or none (do r ← parse_response; body ← parse_body; return (some (rock_response r body)))

unfoldable pub parse_rock_notify : M (Option Message)
unfolding parse_notify parse_body caught
parse_rock_notify =
    try_or none (do r ← parse_notify; body ← parse_body; return (some (rock_notify r body)))

abbrev pub by_type : ℕ → M (Option Message)
unfolding parse_rock_request parse_rock_response parse_rock_notify
by_type type =
    if type == 1
    then parse_rock_request
    else (if type == 2
        then parse_rock_response
        else (if type == 3 then parse_rock_notify else return none))

-- The end of `RockMessageDecoder::parseFrom`: the message in a buffer that holds an uncompressed
-- body, with its own `catch`.
unfoldable pub decode : M (Option Message)
unfolding read_fuint8 caught
decode = try_or none (do type ← read_fuint8; by_type type)

abbrev pub when_true : ByteArray × Result Bool → Result (Option ByteArray)
when_true (b, ok true) = ok (some b)
when_true (b, ok false) = ok none
when_true (b, err e) = err e

-- `Message::toByteArray`, with the default size of a node; `fill` is what fresh memory holds.
unfoldable pub to_byte_array : ℕ → Message → Result (Option ByteArray)
unfolding serialize new
to_byte_array fill m = when_true (serialize m (new 4096 fill))

pub record RockMsgHeader : Type 0 where
  pub magic_0 : ℕ
  pub magic_1 : ℕ
  pub version : ℕ
  pub flag : ℕ
  pub length : ℕ

unfoldable pub new_header : RockMsgHeader
new_header = record { magic_0 = 0xab; magic_1 = 0xcd; version = 1; flag = 0; length = 0 }

-- `isRockMessageHeaderValid`, with the configured longest length: the answer, and the header with
-- its length in the machine's order if it came so far. A length is a `uint32_t`.
unfoldable pub is_rock_message_header_valid : ℕ → RockMsgHeader → RockMsgHeader × Bool
unfolding byteswap_on_little_endian
is_rock_message_header_valid max_length header =
    if not (header.magic_0 == 0xab) || not (header.magic_1 == 0xcd)
    then (header, false)
    else (if not (header.version == 1) then (header, false) else (
      record header { length = byteswap_on_little_endian 4 header.length },
      not (leb max_length (byteswap_on_little_endian 4 header.length)),
    ))

-- The header as `serializeTo` sends it: the length is that of the body, `flag` has its lowest bit set
-- if the body is compressed.
unfoldable pub header_for : ℕ → ℕ → RockMsgHeader
unfolding new_header byteswap_on_little_endian
header_for flag size = record new_header { flag = flag; length = byteswap_on_little_endian 4 size }
