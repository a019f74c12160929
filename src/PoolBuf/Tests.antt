-- ===== src/PoolBuf/Tests.antt =====
-- A buffer at an even address, and one at an odd address, which stays unaligned.
use emlib.Prelude.{◌≡◌, refl, some, none, List, [], ◌∷◌, true, false}
use emlib.Pool.{alloc, alloc_from_block, allocate_find, first_fit, expand, created, create_int}
use emlib.PoolBuf.{BufState, create_on_buf}
use emlib.PoolBuf.Confined.{Request, alloc_each}
use emlib.PoolBuf.Aligned.{pool_in, ready}

abbrev unused : BufState
unused = record { is_initialized = false; param = none }

-- The second does not fit.
abbrev requests : List Request
requests = (30, some 8192) ∷ ((1000, some 8192) ∷ ((20, none) ∷ []))

answers : (alloc_each (pool_in 4098 256) requests).0 ≡ some 4268 ∷ (none ∷ (some 4300 ∷ []))
unfolding alloc alloc_from_block allocate_find first_fit expand
answers = refl

-- The pool of the buffer at 4097 starts at 4098, which is no multiple of 4.
odd_buffer : create_on_buf true unused 4097 256 ≡ (ready, some (created 4098 255 0))
unfolding create_int
odd_buffer = refl
