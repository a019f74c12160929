-- ===== src/Pool/Grow.antt =====
-- `em_pool_alloc` of src/pool.c on pools that may expand, and on those that may not.
use emlib.Prelude.{ℕ, ◌+◌, ◌%◌, ◌<◌, ◌≡◌, ◌∷◌, All}
use emlib.Pool.{Pool, word, aligned_size, bump, new_block_size, fresh_block}
use emlib.Pool.Fit.{Outside, Fit}
use emlib.Pool.Alloc.{IsValid}

-- What block_alloc promises for a call with n: aligned memory that no block uses.
pub record IsMemory (pool : Pool) (n m : ℕ) : Type 0 where
  pub aligned : m % 4 ≡ 0
  pub fits : m + n < word
  pub apart : All (Outside m (m + n)) pool.blocks
  pub total : pool.capacity + n < word

module _ (pool : Pool) (size m : ℕ) (v : IsValid pool) (grows : 0 < pool.increment_size)
    (small : size + pool.increment_size + 44 < word)
    (mem : IsMemory pool (new_block_size pool.increment_size size) m) where
  abbrev n : ℕ
  n = new_block_size pool.increment_size size

  abbrev pool' : Pool
  pool' = record pool {
    capacity = (pool.capacity + n) % word;
    blocks = fresh_block m n ∷ pool.blocks;
  }

  expanded : Pool
  expanded = record pool' { blocks = bump (fresh_block m n) (aligned_size size) ∷ pool.blocks }
