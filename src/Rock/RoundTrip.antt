-- ===== src/Rock/RoundTrip.antt =====
-- A message that `toByteArray` has written is what the decoder reads.
use seaice.Prelude.{
  ℕ, ◌^◌, ◌<◌, ◌≡◌, refl, ap, sym, subst, List, [], ◌∷◌, ◌++◌, append-nil, length, true, false,
  Bool, none, some, arith, ◌&&◌,
}
use seaice.Endian.{Endian, big}
use seaice.ByteArray.{ByteArray, Result, ok, M, ◌>>=◌, return, new, set_pos}
use seaice.ByteArray.Append.{new-Appending}
use seaice.ByteArray.Streams.{
  Sink, Source, Emits, Reads, Emits->>=, Emits-return, Reads->>=, Reads-return, Sink-rewind,
}
use seaice.Codec.Fixed.{read_fuint8-Reads}
use seaice.Rock.{
  Message, rock_request, rock_response, rock_notify, serialize, serialize_body, parse_body, caught,
  try_or, when_true, parse_rock_request, parse_rock_response, parse_rock_notify, by_type, decode,
  to_byte_array,
}
use seaice.Rock.Layout.{
  string_bytes, request_bytes, response_bytes, notify_bytes, IsRequest, IsResponse,
  serialize_request-Emits, parse_request-Reads, serialize_response-Emits, parse_response-Reads,
  serialize_notify-Emits, parse_notify-Reads, serialize_body-Emits, parse_body-Reads,
}

-- The fields are within their types, and the strings within what a length can say.
unfoldable pub IsMessage : Message → Type 0
IsMessage (rock_request r body) = IsRequest r × (length body < 2 ^ 32)
IsMessage (rock_response r body) = IsResponse r × (length body < 2 ^ 32)
IsMessage (rock_notify r body) = (r.notify_id < 2 ^ 32) × (length body < 2 ^ 32)

-- The type's byte, the shared part and the body.
unfoldable pub message_bytes : Message → List ℕ
message_bytes (rock_request r body) = 1 ∷ (request_bytes r ++ (string_bytes body ++ []))
message_bytes (rock_response r body) = 2 ∷ (response_bytes r ++ (string_bytes body ++ []))
message_bytes (rock_notify r body) = 3 ∷ (notify_bytes r ++ (string_bytes body ++ []))

pub message_bytes-some : (m : Message) → 0 < length (message_bytes m)
unfolding message_bytes
message_bytes-some (rock_request r body) = omega arith
message_bytes-some (rock_response r body) = omega arith
message_bytes-some (rock_notify r body) = omega arith

module _ (e : Endian) where
  Emits-try {ℓ} :
      {A : Type ℓ} (w : A) (m : M A) (bs : List ℕ) (v : A)
      → Emits e m bs v
      → Emits e (try_or w m) bs v
  unfolding caught
  Emits-try {A} w m bs v h b text s =
      let (c, eq, t) = h b text s in (c, ap (λ (o : ByteArray × Result A). caught w o) eq, t)

  Reads-try {ℓ} :
      {A : Type ℓ} (w : A) (m : M A) (bs : List ℕ) (v : A)
      → Reads e m bs v
      → Reads e (try_or w m) bs v
  unfolding caught
  Reads-try {A} w m bs v h b rest s =
      let (c, eq, t) = h b rest s in (c, ap (λ (o : ByteArray × Result A). caught w o) eq, t)

  -- The shared part, then the body.
  with_body-Emits :
      (m : M Bool) (bs body : List ℕ)
      → Emits e m bs true
      → length body < 2 ^ 32
      → Emits e
          (try_or false (do v ← m; w ← serialize_body body; return (v && w)))
          (bs ++ (string_bytes body ++ []))
          true
  with_body-Emits m bs body h hb = Emits-try false _ (bs ++ (string_bytes body ++ [])) true (
      Emits->>= e m _ bs _ true true h (
        subst (λ (cs : List ℕ). Emits e (do w ← serialize_body body; return (true && w)) cs true)
          (append-nil (string_bytes body ++ []))
          (Emits->>= e (serialize_body body) _ (string_bytes body ++ []) [] true true
            (serialize_body-Emits e body hb) (Emits-return e true))))

  pub serialize-Emits : (m : Message) → IsMessage m → Emits e (serialize m) (message_bytes m) true
  unfolding serialize IsMessage message_bytes
  serialize-Emits (rock_request r body) h =
      with_body-Emits _ (1 ∷ request_bytes r) body (serialize_request-Emits e r h.0) h.1
  serialize-Emits (rock_response r body) h =
      with_body-Emits _ (2 ∷ response_bytes r) body (serialize_response-Emits e r h.0) h.1
  serialize-Emits (rock_notify r body) h =
      with_body-Emits _ (3 ∷ notify_bytes r) body (serialize_notify-Emits e r h.0) h.1

  parse_with_body-Reads {ℓ} :
      {R : Type ℓ} (m : M R) (make : R → List ℕ → Message) (bs body : List ℕ) (r : R)
      → Reads e m bs r
      → length body < 2 ^ 32
      → Reads e
          (try_or none (do r ← m; body ← parse_body; return (some (make r body))))
          (bs ++ (string_bytes body ++ []))
          (some (make r body))
  parse_with_body-Reads m make bs body r h hb =
      Reads-try none _ (bs ++ (string_bytes body ++ [])) (some (make r body)) (
        Reads->>= e m _ bs _ r (some (make r body)) h (
          Reads->>= e parse_body _ (string_bytes body) [] body (some (make r body))
            (parse_body-Reads e body hb) (Reads-return e (some (make r body)))))

  typed-Reads :
      (t : ℕ) (bs : List ℕ) (m : Message)
      → Reads e (by_type t) bs (some m)
      → Reads e decode (t ∷ bs) (some m)
  unfolding decode
  typed-Reads t bs m h =
      Reads-try none _ (t ∷ bs) (some m)
        (Reads->>= e _ by_type (t ∷ []) bs t (some m) (read_fuint8-Reads e t) h)

  pub decode-Reads : (m : Message) → IsMessage m → Reads e decode (message_bytes m) (some m)
  unfolding IsMessage message_bytes parse_rock_request parse_rock_response parse_rock_notify
  decode-Reads (rock_request r body) h = typed-Reads 1 _ (rock_request r body) (
      parse_with_body-Reads _ rock_request (request_bytes r) body r (parse_request-Reads e r h.0)
        h.1)
  decode-Reads (rock_response r body) h = typed-Reads 2 _ (rock_response r body) (
      parse_with_body-Reads _ rock_response (response_bytes r) body r (parse_response-Reads e r h.0)
        h.1)
  decode-Reads (rock_notify r body) h =
      typed-Reads 3 _ (rock_notify r body) (
        parse_with_body-Reads _ rock_notify (notify_bytes r) body r (parse_notify-Reads e r h.0)
          h.1)

pub fresh-Sink : (fill : ℕ) → Sink big (new 4096 fill) []
unfolding new
fresh-Sink fill = record { appending = new-Appending 4096 fill (omega arith); order = refl }

-- For every request, response and notification whose fields are within their types and whose
-- strings are shorter than 2 ^ 32: `toByteArray` returns a buffer, `setPos(0)` on it succeeds,
-- and the decoder's reading of the type byte and the message then returns this message.
pub decode-to_byte_array :
    (fill : ℕ) (m : Message)
    → IsMessage m
    → (b : ByteArray) × (c : ByteArray) × (d : ByteArray) × (to_byte_array fill m ≡ ok (some b))
      × (set_pos 0 b ≡ (c, ok tt))
      × (decode c ≡ (d, ok (some m)))
unfolding to_byte_array
decode-to_byte_array fill m h =
    let (b, written, s) = serialize-Emits big m h (new 4096 fill) [] (fresh-Sink fill) in
    let (c, moved, r) = Sink-rewind big b (message_bytes m) s in
    let (d, found, r') =
      decode-Reads big m h c [] (subst (Source big c) (sym (append-nil (message_bytes m))) r) in
    (b, c, d, ap when_true written, moved, found)
