-- ===== src/WsSession/Messages.antt =====
-- Messages from one side of a session to the other, in one frame or in several.
use mathlib.Core.List.{append_cancel_left}
use seaice.Prelude.{
  ℕ, suc, ◌+◌, ◌%◌, ◌^◌, ◌≤◌, ◌<◌, ◌≡◌, refl, ◌∙◌, ap, List, [], ◌∷◌, ◌++◌, append_assoc, Bool,
  true, false, not, length, length-append, arith, some, All,
}
use seaice.Stream.{Received, Sent}
use seaice.Stream.Complete.{IsSource, IsTarget}
use seaice.Stream.Exchange.{Got, got, Takes}
use seaice.WsSession.{
  WsFrameMessage, send_message, recv_loop, recv_message, is_data, first_opcode, or_close,
}
use seaice.WsSession.Frames.{frame, sent_payload}
use seaice.WsSession.Sending.{send_message-Gives}
use seaice.WsSession.Receiving.{recv_frame-Takes}

-- A part of a message: the number from which its mask is made, and its bytes.
pub record Part : Type 0 where
  pub rand_value : ℕ
  pub payload : List ℕ

-- A part that both sides take: no empty one, and none above the limit.
pub record Fits (max : ℕ) (p : Part) : Type 0 where
  pub some_bytes : 0 < length p.payload
  pub small : length p.payload < 2 ^ 31
  pub below : length p.payload ≤ max

-- The frames of a message in parts: the opcode is in the first, the others have `CONTINUE`, and the
-- last has `fin`.
abbrev pub frames : Bool → ℕ → Part → List Part → List ℕ
frames is_client opcode p [] = frame p.rand_value opcode is_client true p.payload
frames is_client opcode p (q ∷ rest) =
    frame p.rand_value opcode is_client false p.payload ++ frames is_client 0 q rest

abbrev pub joined : Part → List Part → List ℕ
joined p [] = p.payload
joined p (q ∷ rest) = p.payload ++ joined q rest

continued :
    (opcode frame : ℕ) → first_opcode (first_opcode opcode frame) 0 ≡ first_opcode opcode frame
continued opcode frame = ground arith

message_eq :
    {o o' : ℕ} {b b' : List ℕ}
    → o ≡ o'
    → b ≡ b'
    → ◌≡◌ {A = WsFrameMessage}
        (record { opcode = o; payload = b })
        (record { opcode = o'; payload = b' })
message_eq p q = λ i. record { opcode = p i; payload = q i }

module _ {S : Type 0} (read : ℕ → S → S × Received) (write : List ℕ → S → S × Sent)
    (ahead : S → List ℕ) (source : IsSource read ahead) (max : ℕ) (is_client : Bool) where
  last_part :
      (n frame_opcode opcode : ℕ) (text : List ℕ) (p : Part)
      → is_data frame_opcode ≡ true
      → Fits max p
      → length text < 2 ^ 31
      → Takes ahead
          (recv_loop read write (suc n) max (not is_client) opcode text)
          (frame p.rand_value frame_opcode is_client true p.payload)
          (record { opcode = first_opcode opcode frame_opcode; payload = text ++ p.payload })
  unfolding recv_loop
  last_part n frame_opcode opcode text p known f room s rest e =
      let (t, run, left) =
        recv_frame-Takes read write ahead source max frame_opcode p.rand_value opcode is_client true
          text p.payload known room f.some_bytes f.small f.below s rest e in
      (t, rw run refl, left)

  recv_parts :
      (frame_opcode opcode : ℕ) (text : List ℕ) (p : Part) (ps : List Part)
      → is_data frame_opcode ≡ true
      → Fits max p
      → All (Fits max) ps
      → length text + length (joined p ps) < 2 ^ 31
      → Takes ahead
          (recv_loop read write (suc (length ps)) max (not is_client) opcode text)
          (frames is_client frame_opcode p ps)
          (record { opcode = first_opcode opcode frame_opcode; payload = text ++ joined p ps })
  unfolding recv_loop
  recv_parts frame_opcode opcode text p [] known f fs room s rest e =
      last_part 0 frame_opcode opcode text p known f (omega arith) s rest e
  recv_parts frame_opcode opcode text p (q ∷ ps) known f (g, fs) room s rest e =
      let longer = length-append text p.payload in
      let whole = length-append p.payload (joined q ps) in
      let (t, run, left) =
        recv_frame-Takes read write ahead source max frame_opcode p.rand_value opcode is_client
          false text p.payload known (omega (arith, whole)) f.some_bytes f.small f.below s
          (frames is_client 0 q ps ++ rest) (e ∙ append_assoc _ (frames is_client 0 q ps) rest) in
      let (u, run', end) =
        recv_parts 0 (first_opcode opcode frame_opcode) (text ++ p.payload) q ps refl g fs
          (omega (arith, whole, longer)) t rest left in
      (
        u,
        rw run (
            run'
            ∙ ap (λ (m : WsFrameMessage). (u, got m))
                (message_eq (continued opcode frame_opcode)
                  (append_assoc text p.payload (joined q ps)))),
        end,
      )

  -- Where the bytes ahead are the frames of a message in parts, none of them empty or above the
  -- limit, together shorter than 2 ^ 31 bytes, the opcode in the first and `fin` in the last,
  -- `WSRecvMessage` over a stream that makes progress returns one message with the opcode and all
  -- parts joined, and takes just these bytes.
  pub recv_message-parts :
      (close : S → S) (opcode : ℕ) (p : Part) (ps : List Part) (s : S) (rest : List ℕ)
      → is_data opcode ≡ true
      → Fits max p
      → All (Fits max) ps
      → length (joined p ps) < 2 ^ 31
      → ahead s ≡ frames is_client opcode p ps ++ rest
      → (t : S) × (recv_message read write close (suc (length ps)) max (not is_client) s
          ≡ (t, got (some (record { opcode = opcode; payload = joined p ps }))))
        × (ahead t ≡ rest)
  unfolding recv_message
  recv_message-parts close opcode p ps s rest known f fs room e =
      let (t, run, left) = recv_parts opcode 0 [] p ps known f fs (omega arith) s rest e in
      (
        t,
        ap (or_close close) run
            ∙ ap (λ (o : ℕ). (t, got (some (record { opcode = o; payload = joined p ps }))))
                (opens opcode),
        left,
      )
    where
      opens : (o : ℕ) → first_opcode 0 o ≡ o
      opens o = ground arith

-- Over streams that make progress at every call, for a continuation, text or binary message with
-- a payload that is not empty, shorter than 2 ^ 31 - 2 and at most the limit, from a client or
-- from a server: `WSSendMessage` with `fin` succeeds with the length and 2 and leaves the payload
-- in the message masked where it comes from a client, and where the bytes ahead of the other side
-- begin with those that the sender's stream took, `WSRecvMessage` there returns the message and
-- takes just these bytes.
pub send-recv_message :
    {S R : Type 0} (write : List ℕ → S → S × Sent) (taken : S → List ℕ)
    (target : IsTarget write taken) (read : ℕ → R → R × Received)
    (write_back : List ℕ → R → R × Sent) (ahead : R → List ℕ) (source : IsSource read ahead)
    (close : R → R) (max rand_value : ℕ) (is_client : Bool) (message : WsFrameMessage) (s : S)
    (r : R) (rest : List ℕ)
    → is_data message.opcode ≡ true
    → 0 < length message.payload
    → length message.payload + 2 < 2 ^ 31
    → length message.payload ≤ max
    → taken s ++ ahead r ≡ taken (send_message write rand_value message is_client true s).0 ++ rest
    → (s' : S) × (r' : R) × (send_message write rand_value message is_client true s
        ≡ (s', got (length message.payload + 2, sent_payload is_client rand_value message.payload)))
      × (recv_message read write_back close 1 max (not is_client) r ≡ (r', got (some message)))
      × (ahead r' ≡ rest)
send-recv_message {S} {R} write taken target read write_back ahead source close max rand_value
      is_client message s r rest known pos fits below e =
    let small : length message.payload < 2 ^ 31 = omega arith in
    let (s', run, took) =
      send_message-Gives write taken target rand_value message is_client true pos small s in
    let p : Part = record { rand_value = rand_value; payload = message.payload } in
    let f : Fits max p = record { some_bytes = pos; small = small; below = below } in
    let wire = frames is_client message.opcode p [] in
    let whole : taken s ++ ahead r ≡ taken s ++ (wire ++ rest) =
      e
      ∙ ap (λ (x : S × Got (ℕ × List ℕ)). taken x.0 ++ rest) run
      ∙ ap (λ (l : List ℕ). l ++ rest) took
      ∙ append_assoc (taken s) wire rest in
    let (r', back, left) =
      recv_message-parts read write_back ahead source max is_client close message.opcode p [] r rest
        known f tt small (append_cancel_left (taken s) (ahead r) (wire ++ rest) whole) in
    let exact : (length message.payload + 2) % 2 ^ 32 ≡ length message.payload + 2 = omega arith in
    (
      s',
      r',
      run ∙ ap (λ (n : ℕ). (s', got (n, sent_payload is_client rand_value message.payload))) exact,
      back,
      left,
    )
