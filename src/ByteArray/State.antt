-- ===== src/ByteArray/State.antt =====
-- The states of a ByteArray between two calls: what holds of every one, and of those in which a write
-- lands where `m_pos` says.
use native.Mathlib.Decide.{dec_lt}
use native.Mathlib.Nat.{div-add-mod', mod-lt, mod-eq_of_lt, mul-add-mod_self_left}
use seaice.Prelude.{
  ℕ, ◌+◌, ◌-◌, ◌*◌, ◌%◌, ◌≤◌, ◌<◌, ◌≡◌, ◌∙◌, ap, ◌⊎◌, List, arith, length, flatten, false, leb,
  if◌then◌else◌,
}
use seaice.ByteArray.{ByteArray, node_count}
use seaice.ByteArray.Chain.{Equal}

-- The bytes of the chain in a row, whatever the counters say.
abbrev pub contents : ByteArray → List ℕ
contents b = flatten b.nodes

pub record IsValid (b : ByteArray) : Type 0 where
  pub base_pos : 0 < b.base_size
  pub rooted : 0 < length b.nodes
  pub equal : Equal b.base_size b.nodes
  pub cap_eq : b.cap ≡ length b.nodes * b.base_size
  pub pos_le : b.pos ≤ b.cap

-- The cursor stands at the node of `m_pos`, or at the end of the whole chain.
pub record IsReady (b : ByteArray) : Type 0 where
  pub valid : IsValid b
  pub here : b.cur < length b.nodes
  pub lower : b.cur * b.base_size ≤ b.pos
  pub upper : b.pos ≤ b.cur * b.base_size + b.base_size
  pub room : (b.pos < b.cur * b.base_size + b.base_size) ⊎ (b.pos ≡ b.cap)

-- The nodes that a write of `n` bytes adds to the chain.
abbrev pub grown : ByteArray → ℕ → ℕ
grown b n = if leb n (b.cap - b.pos) then 0 else node_count (n - (b.cap - b.pos)) b.base_size

pub cancel_lt : (a b c : ℕ) → a * c < b * c → a < b
cancel_lt a b c h = elim (dec_lt a b) [ yes p ↦ p | no p ↦ absurd (grind arith) ]

pub node_count_bounds :
    (m base : ℕ) → 0 < base → (m ≤ node_count m base * base) × (node_count m base * base < m + base)
node_count_bounds m base h = ground (arith, div-add-mod' m base, mod-lt m h)

pub offset_of :
    (pos c base : ℕ) → c * base ≤ pos → pos < c * base + base → pos % base ≡ pos - c * base
offset_of pos c base lo hi =
    let split : pos ≡ base * c + (pos - c * base) = omega arith in
    ap (λ (n : ℕ). n % base) split
    ∙ mul-add-mod_self_left base c (pos - c * base)
    ∙ mod-eq_of_lt (omega arith)

pub pos_of_mul : (a c : ℕ) → 0 < a * c → 0 < a
pos_of_mul a c h = cancel_lt 0 a c (omega arith)

pub grown_none : (b : ByteArray) (n : ℕ) → n ≤ b.cap - b.pos → grown b n ≡ 0
grown_none b n h = ground arith

pub grown_bounds :
    (b : ByteArray) (n : ℕ)
    → 0 < b.base_size
    → b.cap - b.pos < n
    → (n - (b.cap - b.pos) ≤ grown b n * b.base_size)
      × (grown b n * b.base_size < n - (b.cap - b.pos) + b.base_size)
grown_bounds b n h more =
    rw (le→ltb' (b.cap - b.pos) n more) (node_count_bounds (n - (b.cap - b.pos)) b.base_size h)
  where
    le→ltb' : (x y : ℕ) → x < y → leb y x ≡ false
    le→ltb' x y g = ground arith

pub mul_room : (a b c : ℕ) → a < b → a * c + c ≤ b * c
mul_room a b c h = grind arith
