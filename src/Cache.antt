-- ===== src/Cache.antt =====
-- seaice/ds: the caches and what they count.
pub mod CacheStatus
pub mod LruCache
use seaice.Prelude.{◌≡◌, ◌↔◌, Bool, true}

-- The equality of keys, `operator==`.
pub record Eq (K : Type 0) : Type 0 where
  pub beq : K → K → Bool
  pub beq_iff : (a b : K) → (beq a b ≡ true) ↔ (a ≡ b)
