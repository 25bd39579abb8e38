-- ===== src/Protocol.antt =====
-- seaice/protocol.h and seaice/protocol.cpp: the parts of a request, a response and a notification
-- that every protocol has, and how they stand in a ByteArray.
use seaice.Prelude.{ℕ, List, Bool, true}
use seaice.ByteArray.{M, ◌>>=◌, ◌>>◌, return}
use seaice.Codec.{write_fuint8, write_uint32, read_uint32, write_string_vint, read_string_vint}

pub data MessageType : Type 0 where
  request response notify : MessageType

-- The values of the enumeration.
abbrev pub type_code : MessageType → ℕ
type_code request = 1
type_code response = 2
type_code notify = 3

pub record Request : Type 0 where
  pub sn : ℕ
  pub cmd : ℕ

pub record Response : Type 0 where
  pub sn : ℕ
  pub cmd : ℕ
  pub result : ℕ
  pub result_str : List ℕ

pub record Notify : Type 0 where
  pub notify_id : ℕ

unfoldable pub serialize_request : Request → M Bool
unfolding write_fuint8 write_uint32
serialize_request r = do
  write_fuint8 (type_code request)
  write_uint32 r.sn
  write_uint32 r.cmd
  return true

-- The parsers fill a new object; what they return is true throughout.
unfoldable pub parse_request : M Request
unfolding read_uint32
parse_request = do sn ← read_uint32; cmd ← read_uint32; return (record { sn = sn; cmd = cmd })

unfoldable pub serialize_response : Response → M Bool
unfolding write_fuint8 write_uint32 write_string_vint
serialize_response r = do
  write_fuint8 (type_code response)
  write_uint32 r.sn
  write_uint32 r.cmd
  write_uint32 r.result
  write_string_vint r.result_str
  return true

unfoldable pub parse_response : M Response
unfolding read_uint32 read_string_vint
parse_response = do
  sn ← read_uint32
  cmd ← read_uint32
  result ← read_uint32
  result_str ← read_string_vint
  return (record { sn = sn; cmd = cmd; result = result; result_str = result_str })

unfoldable pub serialize_notify : Notify → M Bool
unfolding write_fuint8 write_uint32
serialize_notify r = do write_fuint8 (type_code notify); write_uint32 r.notify_id; return true

unfoldable pub parse_notify : M Notify
unfolding read_uint32
parse_notify = do notify_id ← read_uint32; return (record { notify_id = notify_id })
