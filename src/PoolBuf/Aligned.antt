-- ===== src/PoolBuf/Aligned.antt =====
-- The pools that src/pool_buf.c makes of a buffer.
use emlib.Prelude.{ℕ, ◌+◌, ◌-◌, true, none}
use emlib.Pool.{Pool, created}
use emlib.PoolBuf.{BufState, align_diff}

-- The pool in the buffer
abbrev pub pool_in : (buf size : ℕ) → Pool
pool_in buf size = created (buf + align_diff buf) (size - align_diff buf) 0

-- The variable of the thread is cleared again.
abbrev pub ready : BufState
ready = record { is_initialized = true; param = none }
