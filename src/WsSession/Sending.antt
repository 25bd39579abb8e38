-- ===== src/WsSession/Sending.antt =====
-- What `WSSendMessage` has the stream take.
use seaice.Prelude.{
  ℕ, ◌+◌, ◌%◌, ◌^◌, ◌<◌, subst, List, [], ◌++◌, append-nil, Bool, true, false, ◌==◌, length, arith,
  Bool-cases, inl, inr,
}
use seaice.Prelude.Bytes.{le_bytes, length-le_bytes}
use seaice.Endian.{byteswap_on_little_endian}
use seaice.Stream.{Sent}
use seaice.Stream.Complete.{IsTarget}
use seaice.Stream.Exchange.{
  Io, ◌>>◌, return, write_fix, Gives, Gives->>=, Gives-return, write_fix-Gives,
}
use seaice.WsSession.{
  WsFrameMessage, head_bytes, masked, payload_len, write_len, write_mask, send_message,
}
use seaice.WsSession.Frames.{
  len_bytes, mask_bytes, sent_payload, sent_head, frame, length-sent_payload,
}

module _ {S : Type 0} (write : List ℕ → S → S × Sent) (taken : S → List ℕ)
    (target : IsTarget write taken) where
  -- A step that writes fixed bytes, or none, with what follows.
  write-then :
      {B : Type 0} (bs cs : List ℕ) (k : Io S B) (b : B)
      → 0 < length bs
      → length bs < 2 ^ 31
      → Gives taken k cs b
      → Gives taken (write_fix write bs >> k) (bs ++ cs) b
  write-then bs cs k b pos small h =
      Gives->>= taken (write_fix write bs) (λ _. k) bs cs tt b
        (write_fix-Gives write taken target bs pos small) h

  write-last :
      {B : Type 0} (bs : List ℕ) (b : B)
      → 0 < length bs
      → length bs < 2 ^ 31
      → Gives taken (write_fix write bs >> return b) bs b
  write-last bs b pos small =
      subst (λ (l : List ℕ). Gives taken (write_fix write bs >> return b) l b) (append-nil bs)
        (write-then bs [] (return b) b pos small (Gives-return taken b))

  fixed-Gives :
      (k v : ℕ)
      → 0 < k
      → k < 2 ^ 31
      → Gives taken (write_fix write (le_bytes k v)) (le_bytes k v) tt
  fixed-Gives k v pos small =
      write_fix-Gives write taken target (le_bytes k v) (omega (arith, length-le_bytes k v))
        (omega (arith, length-le_bytes k v))

  write_len-Gives : (short n : ℕ) → Gives taken (write_len write short n) (len_bytes short n) tt
  unfolding write_len
  write_len-Gives short n = elim (Bool-cases (short == 126)) [
    | inl two ↦
        rw two
          (fixed-Gives 2 (byteswap_on_little_endian 2 (n % 2 ^ 16)) (omega arith) (omega arith))
    | inr other ↦ elim (Bool-cases (short == 127)) [
      | inl eight ↦
          rw (other, eight)
            (fixed-Gives 8 (byteswap_on_little_endian 8 n) (omega arith) (omega arith))
      | inr one ↦ rw (other, one) (Gives-return taken tt)
    ]
  ]

  write_mask-Gives :
      (is_client : Bool) (rand_value : ℕ) (payload : List ℕ)
      → Gives taken
          (write_mask write is_client rand_value payload)
          (mask_bytes is_client rand_value)
          (sent_payload is_client rand_value payload)
  unfolding write_mask
  write_mask-Gives true rand_value payload =
      let key = le_bytes 4 rand_value in
      write-last key (masked key 0 payload) (omega (arith, length-le_bytes 4 rand_value))
        (omega (arith, length-le_bytes 4 rand_value))
  write_mask-Gives false rand_value payload = Gives-return taken payload

  -- The stream takes the frame of the message, and the result is the length and 2.
  pub send_message-Gives :
      (rand_value : ℕ) (message : WsFrameMessage) (is_client fin : Bool)
      → 0 < length message.payload
      → length message.payload < 2 ^ 31
      → Gives taken
          (send_message write rand_value message is_client fin)
          (frame rand_value message.opcode is_client fin message.payload)
          ((length message.payload + 2) % 2 ^ 32, sent_payload is_client rand_value message.payload)
  unfolding send_message
  send_message-Gives rand_value message is_client fin pos small =
      let n = length message.payload in
      let head = head_bytes (sent_head message.opcode is_client fin n) in
      let payload = sent_payload is_client rand_value message.payload in
      let same = length-sent_payload is_client rand_value message.payload in
      let any : 0 < length payload = omega (arith, same) in
      let short : length payload < 2 ^ 31 = omega (arith, same) in
      let two : 0 < length head = omega arith in
      let small_head : length head < 2 ^ 31 = omega arith in
      let last : Gives taken (write_fix write payload >> return ((n + 2) % 2 ^ 32, payload)) payload
          ((n + 2) % 2 ^ 32, payload) =
        write-last payload ((n + 2) % 2 ^ 32, payload) any short in
      write-then head _ _ _ two small_head (
        Gives->>= taken (write_len write (payload_len n) n) _ (len_bytes (payload_len n) n) _ tt _
          (write_len-Gives (payload_len n) n)
          (Gives->>= taken (write_mask write is_client rand_value message.payload) _
            (mask_bytes is_client rand_value) payload payload _
            (write_mask-Gives is_client rand_value message.payload) last))
