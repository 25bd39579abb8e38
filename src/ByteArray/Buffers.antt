-- ===== src/ByteArray/Buffers.antt =====
-- `getReadBuffers` and `getWriteBuffers` of seaice/bytearray.cpp: the parts of nodes that a system
-- call reads from or writes to. An `iovec` is the index of its node, the offset in it and its length.
pub mod Gather
use seaice.Prelude.{
  ℕ, zero, suc, ◌+◌, ◌-◌, ◌/◌, ◌%◌, List, [], ◌∷◌, map, ltb, leb, ◌==◌, if◌then◌else◌, length, take,
  drop, get_or, flatten,
}
use seaice.ByteArray.{
  ByteArray, Result, ok, err, crash, M, ◌>>=◌, ◌>>◌, return, sub_size, get_read_size, walk,
  add_capacity,
}

pub record Iovec : Type 0 where
  pub node : ℕ
  pub offset : ℕ
  pub len : ℕ

abbrev pub push_iovec : Iovec → Result (List Iovec) → Result (List Iovec)
push_iovec v (ok vs) = ok (v ∷ vs)
push_iovec v (err e) = err e

-- The loop of the three functions, over the nodes from the index `i` on.
pub iovec_loop : List (List ℕ) → ℕ → ℕ → ℕ → Result (List Iovec)
iovec_loop ns i n_pos zero = ok []
iovec_loop [] i n_pos (suc len) = err crash
iovec_loop (n ∷ ns) i n_pos (suc len) =
    let n_cap = sub_size (length n) n_pos in
    let rest = iovec_loop ns (i + 1) 0 (suc len - n_cap) in
    if ltb (suc len) n_cap
    then ok (record { node = i; offset = n_pos; len = suc len } ∷ [])
    else push_iovec (record { node = i; offset = n_pos; len = n_cap }) rest

-- The functions past their tests of the length.
abbrev pub iovecs_at_pos : ℕ → ByteArray → Result (List Iovec)
unfolding iovec_loop
iovecs_at_pos len b =
    if b.base_size == 0
    then err crash
    else iovec_loop (drop b.cur b.nodes) b.cur (b.pos % b.base_size) len

-- `getReadBuffers(buffers, len)`
unfoldable pub get_read_buffers : ℕ → ByteArray → Result (List Iovec)
unfolding iovec_loop
get_read_buffers len b =
    let len' = if ltb (get_read_size b) len then get_read_size b else len in
    if len' == 0 then ok [] else iovecs_at_pos len' b

-- `getReadBuffers(buffers, len, pos)`: the length is cut to what the capacity has behind `pos`.
unfoldable pub get_read_buffers_at : ℕ → ℕ → ByteArray → Result (List Iovec)
unfolding iovec_loop
get_read_buffers_at len pos b =
    let read_size = sub_size b.cap pos in
    let len' = if ltb read_size len then read_size else len in
    if len' == 0
    then ok []
    else (if b.base_size == 0 then err crash else (elim (walk (pos / b.base_size) b) [
      | ok i ↦ iovec_loop (drop i b.nodes) i (pos % b.base_size) len'
      | err e ↦ err e
    ]))

abbrev pub now : (ByteArray → Result (List Iovec)) → M (List Iovec)
now f b = (b, f b)

-- `getWriteBuffers`
unfoldable pub get_write_buffers : ℕ → M (List Iovec)
unfolding iovec_loop
get_write_buffers len =
    if len == 0 then return [] else (do add_capacity len; now (iovecs_at_pos len))

-- The bytes that the parts have in a chain of nodes.
abbrev pub iovec_bytes : List (List ℕ) → Iovec → List ℕ
iovec_bytes ns v = take v.len (drop v.offset (get_or ns v.node []))

abbrev pub gathered : List (List ℕ) → List Iovec → List ℕ
gathered ns vs = flatten (map (iovec_bytes ns) vs)
