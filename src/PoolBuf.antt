-- ===== src/PoolBuf.antt =====
-- Pools on a buffer of the caller: src/pool_buf.c, with the memory pool of src/pool.c. A buffer is an address. What
-- em_thread_local_alloc returns is an argument, and the variable of the thread is part of the state.
pub mod Confined
pub mod Aligned
mod Tests
use emlib.Prelude.{
  ℕ, suc, ◌+◌, ◌-◌, ◌%◌, Bool, true, false, not, ◌||◌, ◌&&◌, Option, some, none, ltb, leb, ◌==◌,
  if◌then◌else◌,
}
use emlib.Pool.{Pool, word, alignment, pool_header, block_header, create_int}

-- `creation_param`
pub record CreationParam : Type 0 where
  pub stack_buf : ℕ
  pub size : ℕ

-- `is_initialized`, and what the variable of the thread points to
pub record BufState : Type 0 where
  pub is_initialized : Bool
  pub param : Option CreationParam

-- `pool_buf_cleanup`, which em_shutdown calls
abbrev pub cleanup : BufState → BufState
cleanup s = record { is_initialized = false; param = none }

-- `stack_alloc`
abbrev pub stack_alloc_of : BufState → ℕ → Option CreationParam → BufState × Option ℕ
stack_alloc_of s size none = (s, none)
stack_alloc_of s size (some param) =
    (record s { param = none }, if leb size param.size then some param.stack_buf else none)

abbrev pub stack_alloc : BufState → ℕ → BufState × Option ℕ
stack_alloc s size = stack_alloc_of s size s.param

-- `em_pool_create_on_buf`: the shift of the buffer, and the creation.
abbrev pub align_diff : ℕ → ℕ
align_diff buf = buf % alignment

abbrev pub rest_size : (buf size : ℕ) → ℕ
rest_size buf size = (size + word - align_diff buf) % word

abbrev pub created_by : ℕ → BufState × Option ℕ → BufState × Option Pool
created_by size (s, memory) = (s, create_int memory size 0)

abbrev pub create_in_buf : BufState → (buf size : ℕ) → BufState × Option Pool
create_in_buf s buf size =
    let given : BufState = record {
      is_initialized = true;
      param = some (record { stack_buf = buf; size = size });
    } in
    if ltb size (pool_header + block_header)
    then (given, none)
    else created_by size (stack_alloc given size)

abbrev pub create_on_buf :
    (tls_allocated : Bool) → BufState → (buf size : ℕ) → BufState × Option Pool
create_on_buf tls_allocated s buf size =
    if (buf == 0) || (size == 0)
    then (s, none)
    else if not (s.is_initialized || tls_allocated)
    then (s, none)
    else create_in_buf s (buf + align_diff buf) (rest_size buf size)
