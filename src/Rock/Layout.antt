-- ===== src/Rock/Layout.antt =====
-- The bytes of a message: what the serializers write and the parsers take.
use seaice.Prelude.{ℕ, ◌^◌, ◌<◌, List, [], ◌∷◌, ◌++◌, length, true, arith}
use seaice.Endian.{Endian}
use seaice.ByteArray.Streams.{Emits, Reads, Writes->>, Emits-return, Reads->>=, Reads-return}
use seaice.Codec.Fixed.{write_fuint8-Writes}
use seaice.Codec.Varint.{varint, write_uint32-Writes, read_uint32-Reads}
use seaice.Codec.Strings.{write_string_vint-Writes, read_string_vint-Reads}
use seaice.Protocol.{
  Request, Response, Notify, serialize_request, parse_request, serialize_response, parse_response,
  serialize_notify, parse_notify,
}
use seaice.Rock.{serialize_body, parse_body}

-- A string behind its length.
abbrev pub string_bytes : List ℕ → List ℕ
string_bytes s = varint 9 (length s) ++ s

abbrev pub request_bytes : Request → List ℕ
request_bytes r = varint 4 r.sn ++ (varint 4 r.cmd ++ [])

abbrev pub response_bytes : Response → List ℕ
response_bytes r =
    varint 4 r.sn ++ (varint 4 r.cmd ++ (varint 4 r.result ++ (string_bytes r.result_str ++ [])))

abbrev pub notify_bytes : Notify → List ℕ
notify_bytes r = varint 4 r.notify_id ++ []

-- The bounds of the fields' types.
pub record IsRequest (r : Request) : Type 0 where
  pub sn_lt : r.sn < 2 ^ 32
  pub cmd_lt : r.cmd < 2 ^ 32

pub record IsResponse (r : Response) : Type 0 where
  pub sn_lt : r.sn < 2 ^ 32
  pub cmd_lt : r.cmd < 2 ^ 32
  pub result_lt : r.result < 2 ^ 32
  pub result_str_lt : length r.result_str < 2 ^ 32

module _ (e : Endian) where
  pub serialize_request-Emits :
      (r : Request) → IsRequest r → Emits e (serialize_request r) (1 ∷ request_bytes r) true
  unfolding serialize_request
  serialize_request-Emits r h =
      Writes->> e _ _ (1 ∷ []) _ _ (write_fuint8-Writes e 1 (omega arith)) (
        Writes->> e _ _ _ _ _ (write_uint32-Writes e r.sn h.sn_lt)
          (Writes->> e _ _ _ [] true (write_uint32-Writes e r.cmd h.cmd_lt) (Emits-return e true)))

  pub parse_request-Reads : (r : Request) → IsRequest r → Reads e parse_request (request_bytes r) r
  unfolding parse_request
  parse_request-Reads r h =
      Reads->>= e _ _ _ _ _ _ (read_uint32-Reads e r.sn h.sn_lt)
        (Reads->>= e _ _ _ [] _ _ (read_uint32-Reads e r.cmd h.cmd_lt) (Reads-return e r))

  pub serialize_response-Emits :
      (r : Response) → IsResponse r → Emits e (serialize_response r) (2 ∷ response_bytes r) true
  unfolding serialize_response
  serialize_response-Emits r h =
      Writes->> e _ _ (2 ∷ []) _ _ (write_fuint8-Writes e 2 (omega arith)) (
        Writes->> e _ _ _ _ _ (write_uint32-Writes e r.sn h.sn_lt) (
          Writes->> e _ _ _ _ _ (write_uint32-Writes e r.cmd h.cmd_lt) (
            Writes->> e _ _ _ _ _ (write_uint32-Writes e r.result h.result_lt) (
              Writes->> e _ _ (string_bytes r.result_str) [] true
                (write_string_vint-Writes e r.result_str h.result_str_lt) (Emits-return e true)))))

  pub parse_response-Reads :
      (r : Response) → IsResponse r → Reads e parse_response (response_bytes r) r
  unfolding parse_response
  parse_response-Reads r h = Reads->>= e _ _ _ _ _ _ (read_uint32-Reads e r.sn h.sn_lt) (
      Reads->>= e _ _ _ _ _ _ (read_uint32-Reads e r.cmd h.cmd_lt) (
        Reads->>= e _ _ _ _ _ _ (read_uint32-Reads e r.result h.result_lt) (
          Reads->>= e _ _ (string_bytes r.result_str) [] _ _
            (read_string_vint-Reads e r.result_str (omega (arith, h.result_str_lt)))
            (Reads-return e r))))

  pub serialize_notify-Emits :
      (r : Notify) → r.notify_id < 2 ^ 32 → Emits e (serialize_notify r) (3 ∷ notify_bytes r) true
  unfolding serialize_notify
  serialize_notify-Emits r h =
      Writes->> e _ _ (3 ∷ []) _ _ (write_fuint8-Writes e 3 (omega arith))
        (Writes->> e _ _ _ [] true (write_uint32-Writes e r.notify_id h) (Emits-return e true))

  pub parse_notify-Reads :
      (r : Notify) → r.notify_id < 2 ^ 32 → Reads e parse_notify (notify_bytes r) r
  unfolding parse_notify
  parse_notify-Reads r h =
      Reads->>= e _ _ _ [] _ _ (read_uint32-Reads e r.notify_id h) (Reads-return e r)

  pub serialize_body-Emits :
      (s : List ℕ) → length s < 2 ^ 32 → Emits e (serialize_body s) (string_bytes s ++ []) true
  unfolding serialize_body
  serialize_body-Emits s h =
      Writes->> e _ _ (string_bytes s) [] true (write_string_vint-Writes e s h)
        (Emits-return e true)

  pub parse_body-Reads : (s : List ℕ) → length s < 2 ^ 32 → Reads e parse_body (string_bytes s) s
  unfolding parse_body
  parse_body-Reads s h = read_string_vint-Reads e s (omega arith)
