-- ===== src/Codec/Varint.antt =====
-- Variable-length integers: `writeUint32`, `writeUint64` and the readers that match them.
use native.Mathlib.Decide.{dec_lt}
use native.Mathlib.Nat.{div-add-mod', pow-suc, mod-eq_of_lt}
use native.Mathlib.Numerals.{towards_suc}
use seaice.Prelude.{
  ℕ, zero, suc, ◌+◌, ◌*◌, ◌/◌, ◌%◌, ◌^◌, ◌≤◌, ◌<◌, ◌≡◌, refl, ◌∙◌, ap, sym, subst, List, [], ◌∷◌,
  arith, Option, some, bit_and, bit_or, ltb, lt→ltb, le→ltb, if◌then◌else◌, length,
}
use seaice.Prelude.Bits.{bit_and-mask, bit_or-fields}
use seaice.Prelude.Bytes.{IsBytes}
use seaice.Endian.{Endian}
use seaice.ByteArray.{M, return}
use seaice.ByteArray.Streams.{Writes, Reads, write-Writes, Reads->>=, Reads-return}
use seaice.Codec.Fixed.{read_fuint8-Reads}
use seaice.Codec.{
  varint_loop, write_tmp, read_varint, read_fuint8, write_uint32, write_uint64, read_uint32,
  read_uint64,
}

-- The groups of seven bits of `v`, lowest first, each but the last with the top bit set, for `v`
-- below 128 ^ (k + 1).
unfoldable pub varint : ℕ → ℕ → List ℕ
varint zero v = v ∷ []
varint (suc k) v =
    let rest = varint k (v / 128) in if ltb v 128 then v ∷ [] else (v % 128 + 128) ∷ rest

group_byte : (v : ℕ) → bit_or (bit_and v 0x7f) 0x80 ≡ v % 128 + 128
group_byte v =
    ap (λ (g : ℕ). bit_or g 128) (bit_and-mask 7 v) ∙ bit_or-fields 7 1 (v % 128) (omega arith)

-- For a value below 128 ^ (k + 1), the loop of the variable-length writers stays within a `tmp`
-- of k + 1 bytes and fills it with the value's groups of seven bits, lowest first, each but the
-- last with its top bit set.
pub varint_loop-varint : (k v : ℕ) → v < 128 ^ suc k → varint_loop (suc k) v ≡ some (varint k v)
unfolding varint_loop varint
varint_loop-varint zero v h = ground arith
varint_loop-varint (suc k) v h = elim (dec_lt v 128) [
  | yes small ↦ ground arith
  | no large ↦
      let rest : varint_loop (suc k) (v / 128) ≡ some (varint k (v / 128)) =
        varint_loop-varint k (v / 128) (omega (arith, pow-suc 128 (suc k))) in
      rw (le→ltb v 128 (omega arith), rest, group_byte v)
]

pub varint-IsBytes : (k v : ℕ) → v < 128 ^ suc k → IsBytes (varint k v)
unfolding varint
varint-IsBytes zero v h = (omega arith, tt)
varint-IsBytes (suc k) v h = ground (arith, pow-suc 128 (suc k), varint-IsBytes k (v / 128))

pub length-varint : (k v : ℕ) → (1 ≤ length (varint k v)) × (length (varint k v) ≤ suc k)
unfolding varint
length-varint zero v = (omega arith, omega arith)
length-varint (suc k) v = ground (arith, length-varint k (v / 128))

shift_seven : (s : ℕ) → 2 ^ (s + 7) ≡ 128 * 2 ^ s
shift_seven s = simp towards_suc (omega arith)

-- One round of the reader: the group goes above the bits that it has.
add_group :
    (width i acc tmp g : ℕ)
    → acc < 2 ^ i
    → tmp % 128 ≡ g
    → g * 2 ^ i < 2 ^ width
    → bit_or acc (bit_and tmp 0x7f * 2 ^ i % 2 ^ width) ≡ acc + g * 2 ^ i
add_group width i acc tmp g h e fits =
    let group : bit_and tmp 127 ≡ g = bit_and-mask 7 tmp ∙ e in
    ap (λ (n : ℕ). bit_or acc (n * 2 ^ i % 2 ^ width)) group
    ∙ ap (bit_or acc) (mod-eq_of_lt fits)
    ∙ bit_or-fields i g acc h

-- What `read_varint` does with the byte that it has read.
abbrev after_tmp : ℕ → ℕ → ℕ → ℕ → ℕ → M ℕ
after_tmp width rounds i value tmp =
    let value' = bit_or value (bit_and tmp 0x7f * 2 ^ i % 2 ^ width) in
    if ltb tmp 128 then return value' else read_varint width rounds (i + 7) value'

varint_small : (k v : ℕ) → v < 128 → varint k v ≡ v ∷ []
unfolding varint
varint_small zero v h = refl
varint_small (suc k) v h = rw (lt→ltb v 128 h)

varint_large : (k v : ℕ) → 128 ≤ v → varint (suc k) v ≡ (v % 128 + 128) ∷ varint k (v / 128)
unfolding varint
varint_large k v h = rw (le→ltb v 128 h)

mul_room : (a b c : ℕ) → a < b → a * c + c ≤ b * c
mul_room a b c h = grind arith

module _ (e : Endian) (width : ℕ) where
  last_group :
      (rounds i acc v : ℕ)
      → v < 128
      → acc < 2 ^ i
      → v * 2 ^ i < 2 ^ width
      → Reads e (read_varint width (suc rounds) i acc) (v ∷ []) (acc + v * 2 ^ i)
  unfolding read_varint
  last_group rounds i acc v small h fits =
      let value = add_group width i acc v v h (omega arith) fits in
      let stops : after_tmp width rounds i acc v ≡ return (acc + v * 2 ^ i) =
        rw (lt→ltb v 128 small, value) in
      Reads->>= e read_fuint8 (after_tmp width rounds i acc) (v ∷ []) [] v (acc + v * 2 ^ i)
        (read_fuint8-Reads e v)
        (subst (λ (m : M ℕ). Reads e m [] (acc + v * 2 ^ i)) (sym stops)
          (Reads-return e (acc + v * 2 ^ i)))

  inner_group :
      (rounds i acc g w : ℕ) (bs : List ℕ)
      → g < 128
      → acc < 2 ^ i
      → g * 2 ^ i < 2 ^ width
      → Reads e (read_varint width rounds (i + 7) (acc + g * 2 ^ i)) bs w
      → Reads e (read_varint width (suc rounds) i acc) ((g + 128) ∷ bs) w
  unfolding read_varint
  inner_group rounds i acc g w bs small h fits more =
      let value = add_group width i acc (g + 128) g h (omega arith) fits in
      let goes_on : after_tmp width rounds i acc (g + 128)
          ≡ read_varint width rounds (i + 7) (acc + g * 2 ^ i) =
        rw (le→ltb (g + 128) 128 (omega arith), value) in
      Reads->>= e read_fuint8 (after_tmp width rounds i acc) ((g + 128) ∷ []) bs (g + 128) w
        (read_fuint8-Reads e (g + 128)) (subst (λ (m : M ℕ). Reads e m bs w) (sym goes_on) more)

  -- `v` is what is still to be read, and it counts from bit `i` on.
  pub read_varint-Reads :
      (k rounds i acc v : ℕ)
      → v < 128 ^ suc k
      → k < rounds
      → acc < 2 ^ i
      → acc + v * 2 ^ i < 2 ^ width
      → Reads e (read_varint width rounds i acc) (varint k v) (acc + v * 2 ^ i)
  read_varint-Reads k zero i acc v h more low fits = absurd (omega arith)
  read_varint-Reads zero (suc rounds) i acc v h more low fits =
      subst (λ (bs : List ℕ). Reads e (read_varint width (suc rounds) i acc) bs (acc + v * 2 ^ i))
        (sym (varint_small zero v (omega arith)))
        (last_group rounds i acc v (omega arith) low (omega arith))
  read_varint-Reads (suc k) (suc rounds) i acc v h more low fits = elim (dec_lt v 128) [
    | yes small ↦
        subst (λ (bs : List ℕ). Reads e (read_varint width (suc rounds) i acc) bs (acc + v * 2 ^ i))
          (sym (varint_small (suc k) v small)) (last_group rounds i acc v small low (omega arith))
    | no large ↦
        let total : acc + v % 128 * 2 ^ i + v / 128 * 2 ^ (i + 7) ≡ acc + v * 2 ^ i = omega (
          arith,
          ap (λ (t : ℕ). t * 2 ^ i) (div-add-mod' v 128),
          ap (λ (t : ℕ). v / 128 * t) (shift_seven i),
        ) in
        let room : v % 128 * 2 ^ i + 2 ^ i ≤ 128 * 2 ^ i =
          mul_room (v % 128) 128 (2 ^ i) (omega arith) in
        let rest : Reads e (read_varint width rounds (i + 7) (acc + v % 128 * 2 ^ i))
            (varint k (v / 128)) (acc + v % 128 * 2 ^ i + v / 128 * 2 ^ (i + 7)) =
          read_varint-Reads k rounds (i + 7) (acc + v % 128 * 2 ^ i) (v / 128)
            (omega (arith, pow-suc 128 (suc k))) (omega arith) (omega (arith, shift_seven i))
            (omega arith) in
        subst (λ (bs : List ℕ). Reads e (read_varint width (suc rounds) i acc) bs (acc + v * 2 ^ i))
          (sym (varint_large k v (omega arith)))
          (inner_group rounds i acc (v % 128) (acc + v * 2 ^ i) (varint k (v / 128)) (omega arith)
            low (omega arith)
            (subst
              (Reads e (read_varint width rounds (i + 7) (acc + v % 128 * 2 ^ i))
                (varint k (v / 128)))
              total rest))
  ]

pub write_uint32-Writes : (e : Endian) (v : ℕ) → v < 2 ^ 32 → Writes e (write_uint32 v) (varint 4 v)
unfolding write_uint32
write_uint32-Writes e v h =
    subst (λ (o : Option (List ℕ)). Writes e (write_tmp o) (varint 4 v))
      (sym (varint_loop-varint 4 v (omega arith))) (write_tmp-Writes e (varint 4 v))
  where
    write_tmp-Writes : (o : Endian) (tmp : List ℕ) → Writes o (write_tmp (some tmp)) tmp
    write_tmp-Writes o tmp = write-Writes o tmp

pub read_uint32-Reads : (e : Endian) (v : ℕ) → v < 2 ^ 32 → Reads e read_uint32 (varint 4 v) v
unfolding read_uint32
read_uint32-Reads e v h =
    subst (Reads e (read_varint 32 5 0 0) (varint 4 v)) (omega arith)
      (read_varint-Reads e 32 4 5 0 0 v (omega arith) (omega arith) (omega arith) (omega arith))

pub write_uint64-Writes : (e : Endian) (v : ℕ) → v < 2 ^ 32 → Writes e (write_uint64 v) (varint 9 v)
unfolding write_uint64
write_uint64-Writes e v h =
    subst (λ (o : Option (List ℕ)). Writes e (write_tmp o) (varint 9 v))
      (sym (ap (varint_loop 10) cut ∙ varint_loop-varint 9 v (omega arith)))
      (write-Writes e (varint 9 v))
  where
    cut : v % 2 ^ 32 ≡ v
    cut = omega arith

pub read_uint64-Reads : (e : Endian) (v : ℕ) → v < 2 ^ 64 → Reads e read_uint64 (varint 9 v) v
unfolding read_uint64
read_uint64-Reads e v h =
    subst (Reads e (read_varint 64 10 0 0) (varint 9 v)) (omega arith)
      (read_varint-Reads e 64 9 10 0 0 v (omega arith) (omega arith) (omega arith) (omega arith))
