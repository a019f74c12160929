-- ===== src/Pool/Tests.antt =====
-- The theorems on src/pool.c on a pool of 256 bytes.
use emlib.Prelude.{◌≡◌, refl, none, some, [], ◌∷◌}
use emlib.Pool.{Pool, alloc, alloc_from_block, created, fresh_block}
use emlib.Pool.Calloc.{calloc}
use emlib.Pool.Reset.{first_block}

-- With one block added, and memory taken of both.
abbrev small_pool : Pool
small_pool = record (created 4096 256 100) {
  capacity = 356;
  blocks = record (fresh_block 8192 100) { cur = 8252 } ∷ (first_block 4096 256 4304 ∷ []);
}

-- 2 ^ 62 elements of 4 bytes are answered with a pointer to no memory.
calloc_wraps : (calloc small_pool (λ a. 255) 4611686018427387904 4 none).0.0 ≡ some 8252
unfolding calloc alloc alloc_from_block
calloc_wraps = refl
