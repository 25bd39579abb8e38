-- ===== src/Tests/Sessions.antt =====
-- Runs of a WebSocket session.
use seaice.Prelude.{ℕ, ◌≡◌, refl, sym, append-nil, List, [], ◌∷◌, ◌++◌, true, false, some, arith}
use seaice.Tests.Streams.{trickle, trickle-IsSource, drip, drip-IsTarget}
use seaice.Stream.Exchange.{got}
use seaice.WsSession.{WsFrameHead, WsFrameMessage, head_bytes, head_of, send_message, recv_message}
use seaice.WsSession.Frames.{head_of-head_bytes, sent_payload}
use seaice.WsSession.Messages.{Part, frames, recv_message-parts, send-recv_message}

abbrev hello : WsFrameMessage
hello = record { opcode = 1; payload = 104 ∷ 105 ∷ [] }

abbrev head : WsFrameHead
head = record {
  opcode = 2;
  fin = true;
  rsv1 = false;
  rsv2 = false;
  rsv3 = false;
  payload_len = 126;
  mask = true;
}

head_of-head_bytes_example : head_of (head_bytes head) ≡ head
head_of-head_bytes_example =
    head_of-head_bytes head (record { opcode_lt = omega arith; payload_len_lt = omega arith })

-- What the client's stream takes.
abbrev sent_bytes : List ℕ
sent_bytes = (send_message drip 99 hello true true []).0

send-recv_message_example :
    (s' : List ℕ) × (r' : List ℕ) × (send_message drip 99 hello true true []
      ≡ (s', got (4, sent_payload true 99 (104 ∷ 105 ∷ []))))
    × (recv_message trickle drip (λ s. s) 1 1000 false sent_bytes ≡ (r', got (some hello)))
    × (r' ≡ [])
send-recv_message_example =
    send-recv_message drip (λ s. s) drip-IsTarget trickle drip (λ s. s) trickle-IsSource (λ s. s)
      1000 99 true hello [] sent_bytes [] refl (omega arith) (omega arith) (omega arith)
      (sym (append-nil sent_bytes))

abbrev first : Part
first = record { rand_value = 5; payload = 104 ∷ [] }

abbrev second : Part
second = record { rand_value = 6; payload = 105 ∷ [] }

recv_message-parts_example :
    (t : List ℕ) × (recv_message trickle drip
        (λ s. s)
        2
        1000
        false
        (frames true 1 first (second ∷ []) ++ 9 ∷ [])
      ≡ (t, got (some hello)))
    × (t ≡ 9 ∷ [])
recv_message-parts_example =
    recv_message-parts trickle drip (λ s. s) trickle-IsSource 1000 true (λ s. s) 1 first
      (second ∷ []) (frames true 1 first (second ∷ []) ++ 9 ∷ []) (9 ∷ []) refl
      (record { some_bytes = omega arith; small = omega arith; below = omega arith })
      (record { some_bytes = omega arith; small = omega arith; below = omega arith }, tt)
      (omega arith) refl
