-- ===== src/Codec/Fixed.antt =====
-- Integers of fixed width: what is written is the value in the buffer's byte order, whatever the
-- byte order of the machine, and reading gives it back.
use mathlib.Core.List.{reverse, reverse-reverse, reverse-cons}
use seaice.Prelude.{
  ◌<◌, ℕ, ◌%◌, ◌^◌, ◌<◌, ◌≡◌, refl, ◌∙◌, ap, sym, subst, List, [], ◌∷◌, ◌++◌, arith, length,
  length-reverse, All-append, append-nil, if◌then◌else◌,
}
use seaice.Prelude.Bytes.{
  IsBytes, le_bytes, of_le, length-le_bytes, le_bytes-IsBytes, of_le-le_bytes, le_bytes-of_le,
  of_le-lt,
}
use seaice.Endian.{Endian, little, big, same, byte_order, byteswap}
use seaice.ByteArray.{ByteArray, ok, write, read, return}
use seaice.ByteArray.Streams.{
  Sink, Writes, Reads, write-Writes, read-Reads, Reads->>=, Reads-return,
}
use seaice.Codec.{write_fixed, read_fixed, in_order, write_fuint8, read_fuint8}

-- The `k` bytes of a value in a byte order.
abbrev pub in_endian : Endian → ℕ → ℕ → List ℕ
in_endian little k v = le_bytes k v
in_endian big k v = reverse (le_bytes k v)

pub length-in_endian : (e : Endian) (k v : ℕ) → length (in_endian e k v) ≡ k
length-in_endian little k v = length-le_bytes k v
length-in_endian big k v = length-reverse (le_bytes k v) ∙ length-le_bytes k v

IsBytes-reverse : (bs : List ℕ) → IsBytes bs → IsBytes (reverse bs)
IsBytes-reverse [] h = h
IsBytes-reverse (b ∷ bs) h =
    subst IsBytes (sym (reverse-cons b bs))
      (All-append _ (reverse bs) (b ∷ []) (IsBytes-reverse bs h.1) (h.0, tt))

pub le_bytes-byteswap : (k v : ℕ) → le_bytes k (byteswap k v) ≡ reverse (le_bytes k v)
unfolding byteswap
le_bytes-byteswap k v =
    let bs = reverse (le_bytes k v) in
    ap (λ (n : ℕ). le_bytes n (of_le bs)) (sym (length-in_endian big k v))
    ∙ le_bytes-of_le bs (IsBytes-reverse (le_bytes k v) (le_bytes-IsBytes k v))

pub byteswap-lt : (k v : ℕ) → byteswap k v < 256 ^ k
unfolding byteswap
byteswap-lt k v =
    subst (λ (j : ℕ). of_le (reverse (le_bytes k v)) < 256 ^ j) (length-in_endian big k v)
      (of_le-lt (reverse (le_bytes k v)) (IsBytes-reverse (le_bytes k v) (le_bytes-IsBytes k v)))

-- `byteswap` undoes itself on the values of its width.
pub byteswap_twice : (k v : ℕ) → v < 256 ^ k → byteswap k (byteswap k v) ≡ v
unfolding byteswap
byteswap_twice k v h =
    ap (λ (bs : List ℕ). of_le (reverse bs)) (le_bytes-byteswap k v)
    ∙ ap of_le (reverse-reverse (le_bytes k v))
    ∙ of_le-le_bytes k v h

written_bytes :
    (e : Endian) (k v : ℕ)
    → le_bytes k (if same e byte_order then v else byteswap k v) ≡ in_endian e k v
written_bytes little k v = refl
written_bytes big k v = le_bytes-byteswap k v

read_value :
    (e : Endian) (k v : ℕ)
    → v < 256 ^ k
    → (if same e byte_order then of_le (in_endian e k v) else byteswap k (of_le (in_endian e k v)))
      ≡ v
unfolding of_le byteswap
read_value little k v h = of_le-le_bytes k v h
read_value big k v h = byteswap_twice k v h

module _ (e : Endian) (k v : ℕ) where
  pub write_fixed-Writes : Writes e (write_fixed k v) (in_endian e k v)
  unfolding write_fixed
  write_fixed-Writes b text s =
      subst
        (λ (bs : List ℕ).
          (c : ByteArray) × (write bs b ≡ (c, ok tt)) × Sink e c (text ++ in_endian e k v))
        (sym (written_bytes e k v)
          ∙ ap (λ (o : Endian). le_bytes k (if same o byte_order then v else byteswap k v))
              (sym s.order))
        (write-Writes e (in_endian e k v) b text s)

  in_order-Reads : v < 256 ^ k → Reads e (in_order k (of_le (in_endian e k v))) [] v
  unfolding in_order
  in_order-Reads h b rest s = (
    b,
    ap
          (λ (o : Endian). (
            b,
            ok (
                if same o byte_order
                then of_le (in_endian e k v)
                else byteswap k (of_le (in_endian e k v))),
          ))
          s.order
        ∙ ap (λ (n : ℕ). (b, ok n)) (read_value e k v h),
    s,
  )

  pub read_fixed-Reads : v < 256 ^ k → Reads e (read_fixed k) (in_endian e k v) v
  unfolding read_fixed
  read_fixed-Reads h =
      subst (λ (bs : List ℕ). Reads e (read_fixed k) bs v) (append-nil (in_endian e k v))
        (Reads->>= e (read k) (λ bs. in_order k (of_le bs)) (in_endian e k v) [] (in_endian e k v) v
          (read-Reads e (in_endian e k v) k (sym (length-in_endian e k v))) (in_order-Reads h))

pub of_le-byte : (b : ℕ) → of_le (b ∷ []) ≡ b
unfolding of_le
of_le-byte b = omega arith

pub read_fuint8-Reads : (e : Endian) (b : ℕ) → Reads e read_fuint8 (b ∷ []) b
unfolding read_fuint8
read_fuint8-Reads e b = subst (Reads e read_fuint8 (b ∷ [])) (of_le-byte b) (
    Reads->>= e (read 1) (λ bs. return (of_le bs)) (b ∷ []) [] (b ∷ []) (of_le (b ∷ []))
      (read-Reads e (b ∷ []) 1 refl) (Reads-return e (of_le (b ∷ []))))

pub write_fuint8-Writes : (e : Endian) (b : ℕ) → b < 256 → Writes e (write_fuint8 b) (b ∷ [])
unfolding write_fuint8 le_bytes
write_fuint8-Writes e b h =
    subst (λ (n : ℕ). Writes e (write (n ∷ [])) (b ∷ [])) byte (write-Writes e (b ∷ []))
  where
    byte : b ≡ b % 256
    byte = omega arith
