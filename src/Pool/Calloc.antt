-- ===== src/Pool/Calloc.antt =====
-- em_pool_calloc of include/em/pool_i.h. The memory of the machine is a function from addresses to bytes.
use emlib.Prelude.{
  ℕ, ◌+◌, ◌*◌, ◌%◌, ◌≤◌, ◌<◌, ◌≡◌, Option, none, some, ◌&&◌, leb, ltb, if◌then◌else◌,
}
use emlib.Pool.{Pool, word, AllocResult, alloc}
use emlib.Pool.Fit.{InUse}

-- `em_bzero` of n bytes from p on
abbrev pub bzero : (ℕ → ℕ) → ℕ → ℕ → ℕ → ℕ
bzero bytes p n a = if leb p a && ltb a (p + n) then 0 else bytes a

abbrev pub zeroed : (ℕ → ℕ) → ℕ → Option ℕ → ℕ → ℕ
zeroed bytes n none = bytes
zeroed bytes n (some p) = bzero bytes p n

-- `em_pool_calloc`, whose product is an em_size_t, with the bytes of the memory after it
unfoldable pub calloc : Pool → (ℕ → ℕ) → ℕ → ℕ → Option ℕ → AllocResult × (ℕ → ℕ)
calloc pool bytes count size memory =
    let r = alloc pool (size * count % word) memory in (r, zeroed bytes (size * count % word) r.0)

-- The n bytes from p on are zero, and no byte that was in use has changed.
pub record Cleared (pool : Pool) (bytes : ℕ → ℕ) (n p : ℕ) (bytes' : ℕ → ℕ) : Type 0 where
  pub zeros : (a : ℕ) → p ≤ a → a < p + n → bytes' a ≡ 0
  pub kept : (a : ℕ) → InUse pool.blocks a → bytes' a ≡ bytes a
