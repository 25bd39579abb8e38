-- ===== src/WsSession/Receiving.antt =====
-- What `WSRecvMessage` makes of the frames that the other side sends.
use seaice.Prelude.{
  ℕ, ◌%◌, ◌^◌, ◌≤◌, ◌<◌, ◌≡◌, refl, ◌∙◌, ap, sym, subst, List, [], ◌∷◌, ◌++◌, append-nil, Bool,
  true, false, not, ltb, leb, ◌==◌, if◌then◌else◌, length, arith, Bool-cases, inl, inr, le→ltb,
  ltb→lt,
}
use seaice.Prelude.Bytes.{le_bytes, of_le, length-le_bytes}
use seaice.Endian.{byteswap, byteswap_on_little_endian}
use seaice.Codec.Fixed.{byteswap_twice, le_bytes-byteswap}
use seaice.Stream.{Received, Sent}
use seaice.Stream.Complete.{IsSource}
use seaice.Stream.Exchange.{
  got, thrown, Io, ◌>>=◌, ◌>>◌, return, break, read_fix, Takes, Takes->>=, Takes-return,
  read_fix-Takes,
}
use seaice.WsSession.{
  WsFrameHead, head_bytes, head_of, masked, payload_len, read_len, read_mask, read_masked,
  read_payload, recv_rest, recv_frame, turn, ping, is_data, cur_len, resize,
}
use seaice.WsSession.Frames.{
  IsHead, len_bytes, mask_bytes, sent_payload, sent_head, frame, length-masked, masked_twice,
  head_of-head_bytes, payload_len-lt,
}

-- A length written in the order of the network is read as it was.
swapped_back :
    (k n : ℕ)
    → n < 256 ^ k
    → byteswap_on_little_endian k (of_le (le_bytes k (byteswap_on_little_endian k n))) ≡ n
unfolding byteswap_on_little_endian byteswap
swapped_back k n h =
    ap (λ (bs : List ℕ). byteswap k (of_le bs)) (le_bytes-byteswap k n) ∙ byteswap_twice k n h

module _ {S : Type 0} (read : ℕ → S → S × Received) (write : List ℕ → S → S × Sent)
    (ahead : S → List ℕ) (source : IsSource read ahead) where
  fixed-Takes :
      {A : Type 0} (k v : ℕ) (f : List ℕ → A)
      → 0 < k
      → k < 2 ^ 31
      → Takes ahead (read_fix read k >>= λ bs. return (f bs)) (le_bytes k v) (f (le_bytes k v))
  fixed-Takes {A} k v f pos small =
      let bs = le_bytes k v in
      subst (λ (l : List ℕ). Takes ahead (read_fix read k >>= λ b. return (f b)) l (f bs))
        (append-nil bs)
        (Takes->>= ahead (read_fix read k) (λ b. return (f b)) bs [] bs (f bs)
          (read_fix-Takes read ahead source k bs (length-le_bytes k v) pos small)
          (Takes-return ahead (f bs)))

  read_len_two : (n : ℕ) → n < 2 ^ 16 → Takes ahead (read_len read write 126) (len_bytes 126 n) n
  unfolding read_len
  read_len_two n small =
      let v = byteswap_on_little_endian 2 (n % 2 ^ 16) in
      let back : byteswap_on_little_endian 2 (of_le (le_bytes 2 v)) ≡ n =
        swapped_back 2 (n % 2 ^ 16) (omega arith) ∙ omega arith in
      subst (Takes ahead (read_len read write 126) (le_bytes 2 v)) back
        (fixed-Takes 2 v (λ bs. byteswap_on_little_endian 2 (of_le bs)) (omega arith) (omega arith))

  read_len_eight : (n : ℕ) → n < 2 ^ 64 → Takes ahead (read_len read write 127) (len_bytes 127 n) n
  unfolding read_len
  read_len_eight n small =
      let v = byteswap_on_little_endian 8 n in
      subst (Takes ahead (read_len read write 127) (le_bytes 8 v)) (swapped_back 8 n (omega arith))
        (fixed-Takes 8 v (λ bs. byteswap_on_little_endian 8 (of_le bs)) (omega arith) (omega arith))

  read_len_itself : (n : ℕ) → n < 126 → Takes ahead (read_len read write n) (len_bytes n n) n
  unfolding read_len
  read_len_itself n small =
      let two : (n == 126) ≡ false = ground arith in
      let eight : (n == 127) ≡ false = ground arith in rw (two, eight) (Takes-return ahead n)

  -- The number that `read_len` gives for what `payload_len` stands for.
  read_len-Takes :
      (n : ℕ)
      → n < 2 ^ 64
      → Takes ahead (read_len read write (payload_len n)) (len_bytes (payload_len n) n) n
  unfolding payload_len
  read_len-Takes n small = elim (Bool-cases (ltb n 126)) [
    | inl short ↦ rw short (read_len_itself n (ltb→lt n 126 short))
    | inr long ↦ elim (Bool-cases (leb n 65535)) [
      | inl two ↦ rw (long, two) (read_len_two n (ground arith))
      | inr eight ↦ rw (long, eight) (read_len_eight n small)
    ]
  ]

  payload-Takes :
      (mask : Bool) (key wire payload : List ℕ) (n : ℕ)
      → length wire ≡ n
      → 0 < n
      → n < 2 ^ 31
      → (if mask then masked key 0 wire else wire) ≡ payload
      → Takes ahead
          (read_fix read n >>= λ p. return (if mask then masked key 0 p else p))
          wire
          payload
  payload-Takes mask key wire payload n len pos small e =
      subst
        (λ (l : List ℕ).
          Takes ahead (read_fix read n >>= λ p. return (if mask then masked key 0 p else p)) l
            payload)
        (append-nil wire)
        (Takes->>= ahead (read_fix read n) (λ p. return (if mask then masked key 0 p else p)) wire
          [] wire payload (read_fix-Takes read ahead source n wire len pos small)
          (subst (Takes ahead (return (if mask then masked key 0 wire else wire)) []) e
            (Takes-return ahead (if mask then masked key 0 wire else wire))))

  -- A payload so far whose length is an `int` leaves room for what follows.
  resize-Takes : (text : List ℕ) → length text < 2 ^ 31 → Takes ahead (resize text) [] tt
  resize-Takes text room s rest p =
      let fits : ltb (cur_len text) (2 ^ 31) ≡ true = ground arith in
      (s, ap (λ (b : Bool). (s, if b then got tt else thrown)) fits, p)

  resized-Takes :
      {A : Type 0} (text : List ℕ) (m : Io S A) (wire : List ℕ) (a : A)
      → length text < 2 ^ 31
      → Takes ahead m wire a
      → Takes ahead (resize text >> m) wire a
  resized-Takes text m wire a room h =
      Takes->>= ahead (resize text) (λ _. m) [] wire tt a (resize-Takes text room) h

  read_masked-Takes :
      (is_client : Bool) (rand_value : ℕ) (text payload : List ℕ)
      → length text < 2 ^ 31
      → 0 < length payload
      → length payload < 2 ^ 31
      → Takes ahead
          (read_masked read write is_client text (length payload))
          (mask_bytes is_client rand_value ++ sent_payload is_client rand_value payload)
          payload
  unfolding read_masked read_mask
  read_masked-Takes true rand_value text payload room pos small =
      let key = le_bytes 4 rand_value in
      let wire = masked key 0 payload in
      Takes->>= ahead (read_fix read 4)
        (λ k. resize text >> (read_fix read (length payload) >>= λ p. return (masked k 0 p))) key
        wire key payload
        (read_fix-Takes read ahead source 4 key (length-le_bytes 4 rand_value) (omega arith)
          (omega arith))
        (resized-Takes text _ wire payload room (
          payload-Takes true key wire payload (length payload) (length-masked key 0 payload) pos
            small (masked_twice key 0 payload)))
  read_masked-Takes false rand_value text payload room pos small =
      let key : List ℕ = 0 ∷ 0 ∷ 0 ∷ 0 ∷ [] in
      Takes->>= ahead (return key)
        (λ k. resize text >> (read_fix read (length payload) >>= λ p. return p)) [] payload key
        payload (Takes-return ahead key)
        (resized-Takes text _ payload payload room
          (payload-Takes false key payload payload (length payload) refl pos small refl))

  checked-Takes :
      (max rand_value : ℕ) (is_client : Bool) (text payload : List ℕ)
      → length text < 2 ^ 31
      → 0 < length payload
      → length payload < 2 ^ 31
      → length payload ≤ max
      → Takes ahead
          (read_len read write (payload_len (length payload)) >>= λ n.
            if ltb max n then break else read_masked read write is_client text n)
          (len_bytes (payload_len (length payload)) (length payload)
            ++ (mask_bytes is_client rand_value ++ sent_payload is_client rand_value payload))
          payload
  checked-Takes max rand_value is_client text payload room pos small fits =
      let n = length payload in
      let wire = mask_bytes is_client rand_value ++ sent_payload is_client rand_value payload in
      Takes->>= ahead (read_len read write (payload_len n))
        (λ m. if ltb max m then break else read_masked read write is_client text m)
        (len_bytes (payload_len n) n) wire n payload (read_len-Takes n (omega arith))
        (subst
          (λ (b : Bool).
            Takes ahead (if b then break else read_masked read write is_client text n) wire payload)
          (sym (le→ltb max n fits))
          (read_masked-Takes is_client rand_value text payload room pos small))

  read_payload-Takes :
      (max rand_value opcode : ℕ) (is_client fin : Bool) (text payload : List ℕ)
      → length text < 2 ^ 31
      → 0 < length payload
      → length payload < 2 ^ 31
      → length payload ≤ max
      → Takes ahead
          (read_payload read write max
            (not is_client)
            text
            (sent_head opcode is_client fin (length payload)))
          (len_bytes (payload_len (length payload)) (length payload)
            ++ (mask_bytes is_client rand_value ++ sent_payload is_client rand_value payload))
          payload
  unfolding read_payload
  read_payload-Takes max rand_value opcode true fin text payload room pos small fits =
      checked-Takes max rand_value true text payload room pos small fits
  read_payload-Takes max rand_value opcode false fin text payload room pos small fits =
      checked-Takes max rand_value false text payload room pos small fits

  recv_rest-Takes :
      (max opcode : ℕ) (client : Bool) (text payload wire : List ℕ) (head : WsFrameHead)
      → is_data head.opcode ≡ true
      → Takes ahead (read_payload read write max client text head) wire payload
      → Takes ahead
          (recv_rest read write max client opcode text head)
          wire
          (turn head opcode text payload)
  unfolding recv_rest
  recv_rest-Takes max opcode client text payload wire head known h =
      let other : (head.opcode == ping) ≡ false = ground arith in
      rw (other, known)
        (subst
          (λ (l : List ℕ).
            Takes ahead
              (read_payload read write max client text head >>= λ p.
                return (turn head opcode text p))
              l (turn head opcode text payload))
          (append-nil wire)
          (Takes->>= ahead (read_payload read write max client text head)
            (λ p. return (turn head opcode text p)) wire [] payload _ h
            (Takes-return ahead (turn head opcode text payload))))

  pub recv_frame-Takes :
      (max frame_opcode rand_value opcode : ℕ) (is_client fin : Bool) (text payload : List ℕ)
      → is_data frame_opcode ≡ true
      → length text < 2 ^ 31
      → 0 < length payload
      → length payload < 2 ^ 31
      → length payload ≤ max
      → Takes ahead
          (recv_frame read write max (not is_client) opcode text)
          (frame rand_value frame_opcode is_client fin payload)
          (turn (sent_head frame_opcode is_client fin (length payload)) opcode text payload)
  unfolding recv_frame head_bytes
  recv_frame-Takes max frame_opcode rand_value opcode is_client fin text payload known room pos
        small fits =
      let head = sent_head frame_opcode is_client fin (length payload) in
      let v : IsHead head = record {
        opcode_lt = ground arith;
        payload_len_lt = payload_len-lt (length payload);
      } in
      let wire : List ℕ =
        len_bytes (payload_len (length payload)) (length payload)
        ++ (mask_bytes is_client rand_value ++ sent_payload is_client rand_value payload) in
      let rest = recv_rest-Takes max opcode (not is_client) text payload wire head known (
        read_payload-Takes max rand_value frame_opcode is_client fin text payload room pos small
          fits) in
      Takes->>= ahead (read_fix read 2)
        (λ bs. recv_rest read write max (not is_client) opcode text (head_of bs)) (head_bytes head)
        wire (head_bytes head) (turn head opcode text payload)
        (read_fix-Takes read ahead source 2 (head_bytes head) refl (omega arith) (omega arith))
        (subst
          (λ (h : WsFrameHead).
            Takes ahead (recv_rest read write max (not is_client) opcode text h) wire
              (turn head opcode text payload))
          (sym (head_of-head_bytes head v)) rest)
