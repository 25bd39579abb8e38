-- ===== src/FdManager.antt =====
-- seaice/fd_manager.h and seaice/fd_manager.cpp: the table of contexts by file descriptor. What
-- `fstat` says of a descriptor is a parameter.
pub mod Table
use seaice.Prelude.{
  ℕ, ◌+◌, ◌-◌, ◌*◌, ◌/◌, ◌^◌, List, ◌++◌, Bool, true, false, not, ◌||◌, Option, none, some, ltb,
  leb, if◌then◌else◌, length, get_or, set, replicate, take,
}

pub record FdCtx : Type 0 where
  pub fd : ℕ
  pub is_init : Bool
  pub is_socket : Bool
  pub sys_non_block : Bool
  pub user_non_block : Bool
  pub is_closed : Bool
  pub recv_timeout : ℕ
  pub send_timeout : ℕ

-- The result of `fstat`: that it fails, or whether the descriptor is a socket.
pub data FileStatus : Type 0 where
  no_file : FileStatus
  file : Bool → FileStatus

abbrev pub status_ok : FileStatus → Bool
status_ok no_file = false
status_ok (file socket) = true

abbrev pub status_socket : FileStatus → Bool
status_socket no_file = false
status_socket (file socket) = socket

-- The constructor, with `init`. A timeout of -1 is 2 ^ 64 - 1; a socket is made non-blocking, which
-- `sys_non_block` records.
unfoldable pub new_ctx : (ℕ → FileStatus) → ℕ → FdCtx
new_ctx fstat fd = record {
  fd = fd;
  is_init = status_ok (fstat fd);
  is_socket = status_socket (fstat fd);
  sys_non_block = status_socket (fstat fd);
  user_non_block = false;
  is_closed = false;
  recv_timeout = 2 ^ 64 - 1;
  send_timeout = 2 ^ 64 - 1;
}

-- The `type` of a timeout: SO_RCVTIMEO, or any other.
pub data TimeoutType : Type 0 where
  receive other : TimeoutType

unfoldable pub set_timeout : TimeoutType → ℕ → FdCtx → FdCtx
set_timeout receive v ctx = record ctx { recv_timeout = v }
set_timeout other v ctx = record ctx { send_timeout = v }

unfoldable pub get_timeout : TimeoutType → FdCtx → ℕ
get_timeout receive ctx = ctx.recv_timeout
get_timeout other ctx = ctx.send_timeout

-- A descriptor: -1, another negative number, or one of the table's.
pub data Fd : Type 0 where
  minus_one : Fd
  negative : Fd
  fd : ℕ → Fd

-- `m_datas`: a null pointer is `none`.
abbrev pub Datas : Type 0
Datas = List (Option FdCtx)

unfoldable pub new_datas : Datas
new_datas = replicate 64 none

-- What a method gives: a value, or no defined result where it goes past the end of `m_datas`.
pub data Outcome {ℓ} (A : Type ℓ) : Type ℓ where
  done : A → Outcome A
  out_of_bounds : Outcome A

-- `m_datas.resize(n)`
abbrev pub resize : ℕ → Datas → Datas
resize n datas = take n datas ++ replicate (n - length datas) none

-- The part of `get` that makes a context.
unfoldable pub create : (ℕ → FileStatus) → ℕ → Datas → Datas × Outcome (Option FdCtx)
unfolding new_ctx
create fstat n datas =
    let grown = if leb (length datas) n then resize (n * 3 / 2) datas else datas in
    if ltb n (length grown)
    then (set grown n (some (new_ctx fstat n)), done (some (new_ctx fstat n)))
    else (grown, out_of_bounds)

abbrev pub is_set : Option FdCtx → Bool
is_set none = false
is_set (some ctx) = true

unfoldable pub get : (ℕ → FileStatus) → Fd → Bool → Datas → Datas × Outcome (Option FdCtx)
unfolding create
get fstat minus_one auto_create datas = (datas, done none)
get fstat negative auto_create datas = (datas, out_of_bounds)
get fstat (fd n) auto_create datas =
    if ltb (length datas) n
    then (if not auto_create then (datas, done none) else create fstat n datas)
    else (if leb (length datas) n
        then (datas, out_of_bounds)
        else (if is_set (get_or datas n none) || not auto_create
            then (datas, done (get_or datas n none))
            else create fstat n datas))

unfoldable pub del : Fd → Datas → Datas × Outcome (Unit {0})
del minus_one datas = (datas, out_of_bounds)
del negative datas = (datas, out_of_bounds)
del (fd n) datas = if leb (length datas) n then (datas, done tt) else (set datas n none, done tt)
