-- ===== src/WsSession/Frames.antt =====
-- The bytes of a frame, as both sides of a session know it.
use seaice.Prelude.{
  ℕ, suc, ◌%◌, ◌^◌, ◌<◌, ◌≡◌, refl, ◌∙◌, ap, List, [], ◌∷◌, ◌++◌, Bool, true, false, ◌==◌,
  if◌then◌else◌, length, get_or, arith,
}
use seaice.Prelude.Bits.{bit_xor-cancel}
use seaice.Prelude.Bytes.{le_bytes}
use seaice.Endian.{byteswap_on_little_endian}
use seaice.WsSession.{WsFrameHead, zero_head, head_bytes, head_of, masked, payload_len}

-- A head whose numbers fit their fields.
pub record IsHead (h : WsFrameHead) : Type 0 where
  pub opcode_lt : h.opcode < 16
  pub payload_len_lt : h.payload_len < 128

head_of-fields :
    (opcode n : ℕ) (fin rsv1 rsv2 rsv3 mask : Bool)
    → opcode < 16
    → n < 128
    → head_of (
        head_bytes (record {
          opcode = opcode;
          fin = fin;
          rsv1 = rsv1;
          rsv2 = rsv2;
          rsv3 = rsv3;
          payload_len = n;
          mask = mask;
        }))
      ≡ record {
        opcode = opcode;
        fin = fin;
        rsv1 = rsv1;
        rsv2 = rsv2;
        rsv3 = rsv3;
        payload_len = n;
        mask = mask;
      }
unfolding head_of head_bytes
head_of-fields opcode n fin rsv1 rsv2 rsv3 mask h k = ground arith

-- A head whose numbers fit their fields is read from its two bytes as it was.
pub head_of-head_bytes : (h : WsFrameHead) → IsHead h → head_of (head_bytes h) ≡ h
head_of-head_bytes h v =
    head_of-fields h.opcode h.payload_len h.fin h.rsv1 h.rsv2 h.rsv3 h.mask v.opcode_lt
      v.payload_len_lt

-- Masking with the same mask undoes itself.
pub masked_twice : (mask : List ℕ) (i : ℕ) (xs : List ℕ) → masked mask i (masked mask i xs) ≡ xs
unfolding masked
masked_twice mask i [] = refl
masked_twice mask i (x ∷ xs) =
    ap (λ (y : ℕ). y ∷ masked mask (suc i) (masked mask (suc i) xs))
      (bit_xor-cancel x (get_or mask (i % 4) 0))
    ∙ ap (λ (ys : List ℕ). x ∷ ys) (masked_twice mask (suc i) xs)

pub length-masked : (mask : List ℕ) (i : ℕ) (xs : List ℕ) → length (masked mask i xs) ≡ length xs
unfolding masked
length-masked mask i [] = refl
length-masked mask i (x ∷ xs) = ap suc (length-masked mask (suc i) xs)

pub payload_len-lt : (n : ℕ) → payload_len n < 128
unfolding payload_len
payload_len-lt n = ground arith

-- The bytes of a length.
abbrev pub len_bytes : ℕ → ℕ → List ℕ
len_bytes short n =
    if short == 126
    then le_bytes 2 (byteswap_on_little_endian 2 (n % 2 ^ 16))
    else (if short == 127 then le_bytes 8 (byteswap_on_little_endian 8 n) else [])

-- The bytes of the mask and of the payload.
abbrev pub mask_bytes : Bool → ℕ → List ℕ
mask_bytes is_client rand_value = if is_client then le_bytes 4 rand_value else []

abbrev pub sent_payload : Bool → ℕ → List ℕ → List ℕ
sent_payload is_client rand_value payload =
    if is_client then masked (le_bytes 4 rand_value) 0 payload else payload

abbrev pub sent_head : ℕ → Bool → Bool → ℕ → WsFrameHead
sent_head opcode is_client fin n = record zero_head {
  fin = fin;
  opcode = opcode;
  mask = is_client;
  payload_len = payload_len n;
}

abbrev pub frame : ℕ → ℕ → Bool → Bool → List ℕ → List ℕ
frame rand_value opcode is_client fin payload =
    head_bytes (sent_head opcode is_client fin (length payload))
    ++ (len_bytes (payload_len (length payload)) (length payload)
        ++ (mask_bytes is_client rand_value ++ sent_payload is_client rand_value payload))

pub length-sent_payload :
    (is_client : Bool) (rand_value : ℕ) (payload : List ℕ)
    → length (sent_payload is_client rand_value payload) ≡ length payload
length-sent_payload true rand_value payload = length-masked (le_bytes 4 rand_value) 0 payload
length-sent_payload false rand_value payload = refl
