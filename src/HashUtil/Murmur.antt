-- ===== src/HashUtil/Murmur.antt =====
-- The hash functions of seaice/util/hash_util.cpp: MurmurHash3 and `quick_hash`. Every number is a
-- `uint32_t` and wraps round at 2 ^ 32; a 32-bit word is read in the machine's byte order.
use seaice.Prelude.{
  ℕ, zero, suc, ◌+◌, ◌-◌, ◌*◌, ◌/◌, ◌%◌, ◌^◌, bit_or, bit_xor, List, [], ◌∷◌, ◌++◌, ◌≡◌, ◌≢◌, refl,
  ◌∙◌, ap, ◌==◌, ltb, if◌then◌else◌, length, All, ==_iff, Bool, Bool-cases, inl, inr,
}
use seaice.Prelude.Bytes.{of_le}

-- `ROTL(x, r)`
abbrev pub rotl : ℕ → ℕ → ℕ
rotl x r = bit_or (x * 2 ^ r % 2 ^ 32) (x / 2 ^ (32 - r))

pub fmix32 : ℕ → ℕ
fmix32 h =
    let h1 = bit_xor h (h / 2 ^ 16) * 0x85ebca6b % 2 ^ 32 in
    let h2 = bit_xor h1 (h1 / 2 ^ 13) * 0xc2b2ae35 % 2 ^ 32 in bit_xor h2 (h2 / 2 ^ 16)

-- `s *= seed1; s = ROTL(s, 15); s *= seed2;`
abbrev pub scramble : ℕ → ℕ
scramble s = rotl (s * 0xcc9e2d51 % 2 ^ 32) 15 * 0x1b873593 % 2 ^ 32

abbrev pub mix_block : ℕ → ℕ → ℕ
mix_block h s = (rotl (bit_xor h (scramble s)) 13 * 5 % 2 ^ 32 + 0xe6546b64) % 2 ^ 32

-- The loop over the blocks, and the `switch` over what is left behind them.
pub mix : ℕ → List ℕ → ℕ
mix h (a ∷ b ∷ c ∷ d ∷ rest) = mix (mix_block h (of_le (a ∷ b ∷ c ∷ d ∷ []))) rest
mix h (a ∷ b ∷ c ∷ []) = bit_xor h (scramble (bit_or (bit_or (c * 2 ^ 16) (b * 2 ^ 8)) a))
mix h (a ∷ b ∷ []) = bit_xor h (scramble (bit_or (b * 2 ^ 8) a))
mix h (a ∷ []) = bit_xor h (scramble a)
mix h [] = h

-- `murmur3_hash(data, size, seed)`, for the `size` bytes at `data`.
unfoldable pub murmur3_hash : List ℕ → ℕ → ℕ
unfolding mix fmix32
murmur3_hash bytes seed = fmix32 (bit_xor (mix seed bytes) (length bytes))

-- The bytes in front of the terminating 0.
pub until_nul : List ℕ → List ℕ
until_nul [] = []
until_nul (c ∷ cs) = let rest = until_nul cs in if c == 0 then [] else c ∷ rest

-- `murmur3_hash(str, seed)`, for the memory from `str` on.
unfoldable pub murmur3_hash_string : List ℕ → ℕ → ℕ
unfolding murmur3_hash until_nul
murmur3_hash_string str seed = murmur3_hash (until_nul str) seed

unfoldable pub murmur3_hash64 : List ℕ → ℕ → ℕ → ℕ
unfolding murmur3_hash
murmur3_hash64 bytes seed seed2 =
    bit_or (murmur3_hash bytes seed * 2 ^ 32) (murmur3_hash bytes seed2)

-- A `char` as it is added: it is signed.
abbrev pub sign_extend : ℕ → ℕ
sign_extend c = if ltb c 128 then c else c + (2 ^ 32 - 256)

pub quick_loop : ℕ → List ℕ → ℕ
quick_loop h [] = h
quick_loop h (c ∷ cs) = quick_loop ((31 * h + sign_extend c) % 2 ^ 32) cs

-- `quick_hash(str)`
unfoldable pub quick_hash : List ℕ → ℕ
unfolding quick_loop until_nul
quick_hash str = quick_loop 0 (until_nul str)

-- The loop of `quick_hash(tmp, size)`, by the rounds left. `str` is not moved.
pub quick_size_loop : ℕ → ℕ → ℕ → ℕ
quick_size_loop zero h c = h
quick_size_loop (suc rounds) h c = quick_size_loop rounds ((31 * h + sign_extend c) % 2 ^ 32) c

unfoldable pub quick_hash_size : List ℕ → ℕ
unfolding quick_size_loop
quick_hash_size [] = 0
quick_hash_size (c ∷ cs) = quick_size_loop (length (c ∷ cs)) 0 c

until_nul-append : (s rest : List ℕ) → All (λ c. c ≢ 0) s → until_nul (s ++ 0 ∷ rest) ≡ s
unfolding until_nul
until_nul-append [] rest h = refl
until_nul-append (c ∷ s) rest h = elim (Bool-cases (c == 0)) [
  | inl nul ↦ absurd (h.0 ((==_iff c 0).0 nul))
  | inr other ↦
      ap (λ (b : Bool). if b then [] else c ∷ until_nul (s ++ 0 ∷ rest)) other
      ∙ ap (◌∷◌ c) (until_nul-append s rest h.1)
]

-- On the memory of a string without a 0 inside, both forms of `murmur3_hash` agree.
pub murmur3_hash_string_lem :
    (s rest : List ℕ) (seed : ℕ)
    → All (λ c. c ≢ 0) s
    → murmur3_hash_string (s ++ 0 ∷ rest) seed ≡ murmur3_hash s seed
unfolding murmur3_hash_string
murmur3_hash_string_lem s rest seed h =
    ap (λ (t : List ℕ). murmur3_hash t seed) (until_nul-append s rest h)
