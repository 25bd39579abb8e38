-- ===== src/WsSession.antt =====
-- seaice/http/ws_session.h and seaice/http/ws_session.cpp: the frames of a WebSocket session, sent and
-- received over any stream.
pub mod Frames
pub mod Sending
pub mod Receiving
pub mod Messages
use seaice.Prelude.{
  ℕ, zero, suc, ◌+◌, ◌*◌, ◌/◌, ◌%◌, ◌^◌, List, [], ◌∷◌, ◌++◌, Bool, true, false, not, ◌&&◌, ◌||◌,
  Option, none, some, ltb, leb, ◌==◌, if◌then◌else◌, length, get_or, bit_xor,
}
use seaice.Prelude.Bytes.{le_bytes, of_le}
use seaice.Endian.{byteswap_on_little_endian}
use seaice.Stream.{Received, Sent}
use seaice.Stream.Exchange.{
  Got, got, broken, stuck, thrown, Io, ◌>>=◌, ◌>>◌, and_then, return, break, read_fix, write_fix,
}

pub record WsFrameHead : Type 0 where
  pub opcode : ℕ
  pub fin : Bool
  pub rsv1 : Bool
  pub rsv2 : Bool
  pub rsv3 : Bool
  pub payload_len : ℕ
  pub mask : Bool

-- `memset(&head, 0, sizeof(head))`
abbrev pub zero_head : WsFrameHead
zero_head = record {
  opcode = 0;
  fin = false;
  rsv1 = false;
  rsv2 = false;
  rsv3 = false;
  payload_len = 0;
  mask = false;
}

abbrev pub bit : Bool → ℕ → ℕ
bit false at = 0
bit true at = at

-- The two bytes of the packed structure: a field takes the lowest bits that are free.
unfoldable pub head_bytes : WsFrameHead → List ℕ
head_bytes h =
    (h.opcode % 16 + bit h.fin 16 + bit h.rsv1 32 + bit h.rsv2 64 + bit h.rsv3 128)
    ∷ (h.payload_len % 128 + bit h.mask 128)
    ∷ []

abbrev pub test_bit : ℕ → ℕ → Bool
test_bit b at = b / at % 2 == 1

unfoldable pub head_of : List ℕ → WsFrameHead
head_of bs =
    let b0 = get_or bs 0 0 in
    let b1 = get_or bs 1 0 in
    record {
      opcode = b0 % 16;
      fin = test_bit b0 16;
      rsv1 = test_bit b0 32;
      rsv2 = test_bit b0 64;
      rsv3 = test_bit b0 128;
      payload_len = b1 % 128;
      mask = test_bit b1 128;
    }

-- `OPCODE`, the values that the code tests.
abbrev pub continue : ℕ
continue = 0

abbrev pub text_frame : ℕ
text_frame = 1

abbrev pub bin_frame : ℕ
bin_frame = 2

abbrev pub ping : ℕ
ping = 0x9

abbrev pub pong : ℕ
pong = 0xa

pub record WsFrameMessage : Type 0 where
  pub opcode : ℕ
  pub payload : List ℕ

-- `data[i] ^= mask[i % 4]` from `i` on.
unfoldable pub masked : List ℕ → ℕ → List ℕ → List ℕ
masked mask i [] = []
masked mask i (x ∷ xs) = bit_xor x (get_or mask (i % 4) 0) ∷ masked mask (suc i) xs

-- The `payload_len` for a length.
unfoldable pub payload_len : ℕ → ℕ
payload_len n = if ltb n 126 then n else (if leb n 65535 then 126 else 127)

module _ {S : Type 0} (write : List ℕ → S → S × Sent) where
  unfoldable pub write_len : ℕ → ℕ → Io S (Unit {0})
  unfolding write_fix
  write_len short n =
      if short == 126
      then write_fix write (le_bytes 2 (byteswap_on_little_endian 2 (n % 2 ^ 16)))
      else (if short == 127
          then write_fix write (le_bytes 8 (byteswap_on_little_endian 8 n))
          else return tt)

  -- The masking of `WSSendMessage`; `rand_value` is what `rand` returns. The message keeps the masked
  -- payload.
  unfoldable pub write_mask : Bool → ℕ → List ℕ → Io S (List ℕ)
  unfolding write_fix masked
  write_mask is_client rand_value payload =
      if is_client
      then (do
        write_fix write (le_bytes 4 rand_value)
        return (masked (le_bytes 4 rand_value) 0 payload))
      else return payload

  -- `WSSendMessage`: the bit pattern of the `int` that is returned, and the message's payload from then on.
  unfoldable pub send_message : ℕ → WsFrameMessage → Bool → Bool → Io S (ℕ × List ℕ)
  unfolding write_fix write_len write_mask head_bytes payload_len
  send_message rand_value message is_client fin = do
    let n = length message.payload
    write_fix write (
        head_bytes (record zero_head {
          fin = fin;
          opcode = message.opcode;
          mask = is_client;
          payload_len = payload_len n;
        }))
    write_len (payload_len n) n
    payload ← write_mask is_client rand_value message.payload
    write_fix write payload
    return ((n + 2) % 2 ^ 32, payload)

  unfoldable pub send_ping : Io S (Unit {0})
  unfolding write_fix head_bytes
  send_ping = write_fix write (head_bytes (record zero_head { fin = true; opcode = 0xa }))

  unfoldable pub send_pong : Io S (Unit {0})
  unfolding write_fix head_bytes
  send_pong = write_fix write (head_bytes (record zero_head { fin = true; opcode = 0xa }))

-- What the loop of `WSRecvMessage` has after a frame: the opcode and the payload so far, or a message.
pub data Turn : Type 0 where
  goes_on : ℕ → List ℕ → Turn
  whole : WsFrameMessage → Turn

abbrev pub is_data : ℕ → Bool
is_data opcode = (opcode == continue) || (opcode == text_frame) || (opcode == bin_frame)

-- The opcode of the message after a frame.
abbrev pub first_opcode : ℕ → ℕ → ℕ
first_opcode opcode frame = if (opcode == 0) && not (frame == continue) then frame else opcode

abbrev pub turn : WsFrameHead → ℕ → List ℕ → List ℕ → Turn
turn head opcode text payload =
    if head.fin
    then whole (record { opcode = first_opcode opcode head.opcode; payload = text ++ payload })
    else goes_on (first_opcode opcode head.opcode) (text ++ payload)

-- The bit pattern of `cur_len`, an `int`: the length of the payload so far.
abbrev pub cur_len : List ℕ → ℕ
cur_len text = length text % 2 ^ 32

-- `data.resize(cur_len + dataLen)`, and `&data[cur_len]`: with a negative `cur_len` the sum is above
-- `max_size`, which throws, or the access lies before the bytes. A positive `cur_len` is the length,
-- as a frame of 2 ^ 31 bytes or more is not read.
abbrev pub resize : {S : Type 0} → List ℕ → Io S (Unit {0})
resize text s = (s, if ltb (cur_len text) (2 ^ 31) then got tt else thrown)

abbrev pub or_close : {S A : Type 0} → (S → S) → S × Got A → S × Got (Option A)
or_close close (s, got a) = (s, got (some a))
or_close close (s, broken) = (close s, got none)
or_close close (s, stuck) = (s, stuck)
or_close close (s, thrown) = (s, thrown)

module _ {S : Type 0} (read : ℕ → S → S × Received) (write : List ℕ → S → S × Sent) where
  unfoldable pub read_len : ℕ → Io S ℕ
  unfolding read_fix
  read_len short =
      if short == 126
      then (do bs ← read_fix read 2; return (byteswap_on_little_endian 2 (of_le bs)))
      else (if short == 127
          then (do bs ← read_fix read 8; return (byteswap_on_little_endian 8 (of_le bs)))
          else return short)

  unfoldable pub read_mask : Bool → Io S (List ℕ)
  unfolding read_fix
  read_mask mask = if mask then read_fix read 4 else return (0 ∷ 0 ∷ 0 ∷ 0 ∷ [])

  -- The mask and the payload of `n` bytes, behind the payload so far.
  unfoldable pub read_masked : Bool → List ℕ → ℕ → Io S (List ℕ)
  unfolding read_fix read_mask masked
  read_masked mask text n = do
    key ← read_mask mask
    resize text
    payload ← read_fix read n
    return (if mask then masked key 0 payload else payload)

  -- The frame after its head, up to the payload; `max` is `websocket.message.max_size`.
  unfoldable pub read_payload : ℕ → Bool → List ℕ → WsFrameHead → Io S (List ℕ)
  unfolding read_len read_masked
  read_payload max client text head =
      if not head.mask && not client
      then break
      else read_len head.payload_len >>= λ n.
          if ltb max n then break else read_masked head.mask text n

  -- The rest of a round of the loop, by the head; `text` is the payload so far.
  unfoldable pub recv_rest : ℕ → Bool → ℕ → List ℕ → WsFrameHead → Io S Turn
  unfolding read_payload send_pong
  recv_rest max client opcode text head =
      if head.opcode == ping
      then (do send_pong write; return (goes_on opcode text))
      else (if is_data head.opcode
          then (do
            payload ← read_payload max client text head
            return (turn head opcode text payload))
          else return (goes_on opcode text))

  unfoldable pub recv_frame : ℕ → Bool → ℕ → List ℕ → Io S Turn
  unfolding head_of recv_rest read_fix
  recv_frame max client opcode text = do
    bs ← read_fix read 2
    recv_rest max client opcode text (head_of bs)

  -- The loop, for a number of frames; it is `stuck` when there are more.
  unfoldable pub recv_loop : ℕ → ℕ → Bool → ℕ → List ℕ → Io S WsFrameMessage
  recv_loop zero max client opcode text s = (s, stuck)
  recv_loop (suc frames) max client opcode text s =
      and_then (recv_frame max client opcode text s) (λ t. elim t [
        | goes_on opcode' text' ↦ recv_loop frames max client opcode' text'
        | whole message ↦ return message
      ])

  -- `WSRecvMessage`: a message, or the stream is closed.
  unfoldable pub recv_message : (S → S) → ℕ → ℕ → Bool → S → S × Got (Option WsFrameMessage)
  unfolding recv_loop
  recv_message close frames max client s = or_close close (recv_loop frames max client 0 [] s)
