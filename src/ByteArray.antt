-- ===== src/ByteArray.antt =====
-- seaice/bytearray.h and seaice/bytearray.cpp: a byte buffer over a chain of equal nodes.
-- The chain from `m_root` is the list `nodes`, and `m_cur` is an index into it, the length of the
-- list standing for the null pointer. A node is the list of its bytes.
pub mod Chain
pub mod State
pub mod Capacity
pub mod Write
pub mod Append
pub mod Read
pub mod Position
pub mod Streams
pub mod Buffers
use seaice.Prelude.{
  ℕ, zero, suc, ◌+◌, ◌-◌, ◌*◌, ◌/◌, ◌%◌, ◌^◌, List, [], ◌∷◌, ◌++◌, ◌||◌, ltb, leb, ◌==◌,
  if◌then◌else◌, length, take, drop, replicate,
}
use seaice.Prelude.Bytes.{memcpy}
use seaice.Endian.{Endian, big}

-- What a `std::out_of_range` is, and what has no defined result: a null pointer that is followed, a
-- failed SEAICE_ASSERT, a division by zero.
pub data Error : Type 0 where
  out_of_range crash : Error

pub data Result {ℓ} (A : Type ℓ) : Type ℓ where
  ok : A → Result A
  err : Error → Result A

-- `fill` is the byte that memory from `new char[]` happens to hold.
pub record ByteArray : Type 0 where
  pub base_size : ℕ
  pub pos : ℕ
  pub cap : ℕ
  pub size : ℕ
  pub endian : Endian
  pub nodes : List (List ℕ)
  pub cur : ℕ
  pub fill : ℕ

-- A method that may throw: it leaves the object as it is at that moment.
abbrev pub M {ℓ} : Type ℓ → Type ℓ
M A = ByteArray → ByteArray × Result A

abbrev pub and_then {ℓ κ} :
    {A : Type ℓ} {B : Type κ} → ByteArray × Result A → (A → M B) → ByteArray × Result B
and_then (b, ok a) f = f a b
and_then (b, err e) f = (b, err e)

infixl 5 ◌>>=◌ ◌>>◌
abbrev pub ◌>>=◌ {ℓ κ} : {A : Type ℓ} {B : Type κ} → M A → (A → M B) → M B
◌>>=◌ m f b = and_then (m b) f

abbrev pub ◌>>◌ {ℓ} : {B : Type ℓ} → M (Unit {0}) → M B → M B
◌>>◌ m k b = and_then (m b) (λ _. k)

abbrev pub return {ℓ} : {A : Type ℓ} → A → M A
return a b = (b, ok a)

-- `a - b` at size_t, for values that fit: it wraps round where `b` is the larger.
abbrev pub sub_size : ℕ → ℕ → ℕ
sub_size a b = if ltb a b then a + 2 ^ 64 - b else a - b

unfoldable pub new : ℕ → ℕ → ByteArray
new base_size fill = record {
  base_size = base_size;
  pos = 0;
  cap = base_size;
  size = 0;
  endian = big;
  nodes = replicate base_size fill ∷ [];
  cur = 0;
  fill = fill;
}

abbrev pub get_read_size : ByteArray → ℕ
get_read_size b = sub_size b.size b.pos

abbrev pub get_capacity : ByteArray → ℕ
get_capacity b = sub_size b.cap b.pos

-- How many nodes hold `n` more bytes.
abbrev pub node_count : ℕ → ℕ → ℕ
node_count n base = n / base + (if n % base == 0 then 0 else 1)

-- The part of `addCapacity` behind its test: it walks from `m_cur` to the last node and hangs the
-- new ones behind it.
pub grow : ℕ → ℕ → M (Unit {0})
grow count cap b = if leb (length b.nodes) b.cur then (b, err crash) else (
  record b {
    nodes = b.nodes ++ replicate count (replicate b.base_size b.fill);
    cap = b.cap + count * b.base_size;
    cur = if cap == 0 then length b.nodes else b.cur;
  },
  ok tt,
)

unfoldable pub add_capacity : ℕ → M (Unit {0})
unfolding grow
add_capacity n b =
    let cap = get_capacity b in
    if leb n cap
    then (b, ok tt)
    else (if b.base_size == 0
        then (b, err crash)
        else grow (node_count (n - cap) b.base_size) cap b)

abbrev pub push_node : List ℕ → Result (List (List ℕ) × ℕ) → Result (List (List ℕ) × ℕ)
push_node n (ok (ns, steps)) = ok (n ∷ ns, steps + 1)
push_node n (err e) = err e

-- The loop of `write`, over the nodes from `m_cur` on: the nodes as it leaves them, and how many
-- steps `m_cur` has made.
pub write_loop : List (List ℕ) → ℕ → List ℕ → Result (List (List ℕ) × ℕ)
write_loop ns n_pos [] = ok (ns, 0)
write_loop [] n_pos (x ∷ src) = err crash
write_loop (n ∷ ns) n_pos (x ∷ src) =
    let n_cap = sub_size (length n) n_pos in
    let rest = write_loop ns 0 (drop n_cap (x ∷ src)) in
    if ltb (length (x ∷ src)) n_cap
    then ok (memcpy n n_pos (x ∷ src) ∷ ns, 0)
    else (if length (x ∷ src) == n_cap
        then ok (memcpy n n_pos (take n_cap (x ∷ src)) ∷ ns, 0)
        else push_node (memcpy n n_pos (take n_cap (x ∷ src))) rest)

pub after_write : List ℕ → ByteArray → Result (List (List ℕ) × ℕ) → ByteArray × Result (Unit {0})
after_write buf b (ok (ns, steps)) = (
  record b {
    nodes = take b.cur b.nodes ++ ns;
    cur = b.cur + steps;
    pos = b.pos + length buf;
    size = b.size + length buf;
  },
  ok tt,
)
after_write buf b (err e) = (b, err e)

pub write_nodes : List ℕ → M (Unit {0})
unfolding write_loop after_write
write_nodes buf b =
    if b.base_size == 0
    then (b, err crash)
    else after_write buf b (write_loop (drop b.cur b.nodes) (b.pos % b.base_size) buf)

unfoldable pub write : List ℕ → M (Unit {0})
unfolding add_capacity write_nodes
write buf = do add_capacity (length buf); write_nodes buf

abbrev pub push_bytes : List ℕ → Result (List ℕ × ℕ) → Result (List ℕ × ℕ)
push_bytes bs (ok (rest, steps)) = ok (bs ++ rest, steps + 1)
push_bytes bs (err e) = err e

-- The loop of both `read`s: the bytes, and how many steps the node pointer has made.
pub read_loop : List (List ℕ) → ℕ → ℕ → Result (List ℕ × ℕ)
read_loop ns n_pos zero = ok ([], 0)
read_loop [] n_pos (suc left) = err crash
read_loop (n ∷ ns) n_pos (suc left) =
    let n_cap = sub_size (length n) n_pos in
    let rest = read_loop ns 0 (suc left - n_cap) in
    if ltb (suc left) n_cap
    then ok (take (suc left) (drop n_pos n), 0)
    else push_bytes (take n_cap (drop n_pos n)) rest

pub after_read : ℕ → ByteArray → Result (List ℕ × ℕ) → ByteArray × Result (List ℕ)
after_read n b (ok (bs, steps)) = (record b { cur = b.cur + steps; pos = b.pos + n }, ok bs)
after_read n b (err e) = (b, err e)

unfoldable pub read : ℕ → M (List ℕ)
unfolding read_loop after_read
read n b =
    if ltb (get_read_size b) n
    then (b, err out_of_range)
    else (if b.base_size == 0
        then (b, err crash)
        else after_read n b (read_loop (drop b.cur b.nodes) (b.pos % b.base_size) n))

-- `while(count > 0) { cur = cur->next; count--; }` from the root: the index reached.
abbrev pub walk : ℕ → ByteArray → Result ℕ
walk count b = if ltb (length b.nodes) count then err crash else ok count

abbrev pub only_bytes : Result (List ℕ × ℕ) → Result (List ℕ)
only_bytes (ok (bs, steps)) = ok bs
only_bytes (err e) = err e

-- `read(buf, size, pos) const`
unfoldable pub read_at : ℕ → ℕ → ByteArray → Result (List ℕ)
unfolding read_loop
read_at n pos b =
    if ltb (sub_size b.size pos) n
    then err out_of_range
    else (if b.base_size == 0 then err crash else (elim (walk (pos / b.base_size) b) [
      | ok i ↦ only_bytes (read_loop (drop i b.nodes) (pos % b.base_size) n)
      | err e ↦ err e
    ]))

pub after_walk : ℕ → ByteArray → Result ℕ → ByteArray × Result (Unit {0})
after_walk v b (ok i) =
    (record b { pos = v; size = if ltb b.size v then v else b.size; cur = i }, ok tt)
after_walk v b (err e) = (b, err e)

unfoldable pub set_pos : ℕ → M (Unit {0})
unfolding after_walk
set_pos v b =
    if ltb b.cap v
    then (b, err out_of_range)
    else (if b.base_size == 0 then (b, err crash) else after_walk v b (walk (v / b.base_size) b))

unfoldable pub set_size : ℕ → ByteArray → ByteArray
set_size n b = if ltb b.cap n || ltb n b.pos then b else record b { size = n }

unfoldable pub clear : ByteArray → ByteArray
clear b = record b { pos = 0; size = 0; cap = b.base_size; nodes = take 1 b.nodes; cur = 0 }

unfoldable pub to_string : ByteArray → Result (List ℕ)
unfolding read_at
to_string b = if get_read_size b == 0 then ok [] else read_at (get_read_size b) b.pos b
