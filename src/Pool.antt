-- ===== src/Pool.antt =====
-- Memory pools: src/pool.c and include/em/pool_i.h, on a machine with 64-bit pointers. Addresses are
-- numbers, and the difference of two of them is taken as em_size_t, which wraps.
pub mod Fit
pub mod Effect
pub mod Alloc
pub mod Grow
pub mod Calloc
pub mod Reset
mod Tests
use emlib.Prelude.{
  ℕ, zero, suc, ◌+◌, ◌-◌, ◌*◌, ◌/◌, ◌%◌, Option, none, some, Bool, true, false, not, List, [], ◌∷◌,
  ◌++◌, ltb, leb, ◌==◌, if◌then◌else◌, map,
}

-- 2 ^ 64
abbrev pub word : ℕ
word = 18446744073709551616

-- EM_POOL_ALIGNMENT, sizeof(em_pool_block) and sizeof(em_pool_t)
abbrev pub alignment : ℕ
alignment = 4

abbrev pub block_header : ℕ
block_header = 40

abbrev pub pool_header : ℕ
pool_header = 128

-- `em_pool_block` with its address; its links are its place in the pool's list.
pub record Block : Type 0 where
  pub address : ℕ
  pub buf : ℕ
  pub cur : ℕ
  pub end : ℕ

-- `em_pool_t` with its address. The list is from the front; the block that the pool itself stands in
-- is the last.
pub record Pool : Type 0 where
  pub address : ℕ
  pub capacity : ℕ
  pub increment_size : ℕ
  pub blocks : List Block

-- ALIGN_PTR
abbrev pub align_ptr : ℕ → ℕ
align_ptr p = p + (alignment - p % alignment) % alignment

-- The size that `em_pool_alloc_from_block` takes for the size asked for.
abbrev pub aligned_size : ℕ → ℕ
aligned_size size =
    if size % alignment == 0 then size else (size + alignment) % word / alignment * alignment

-- `(em_size_t)(block->end - block->cur)`
abbrev pub room : Block → ℕ
room b = (b.end + word - b.cur) % word

abbrev pub bump : Block → ℕ → Block
bump b size = record b { cur = b.cur + size }

-- `em_pool_alloc_from_block`: the memory and the block after.
unfoldable pub alloc_from_block : Block → ℕ → Option (ℕ × Block)
alloc_from_block b size =
    if leb (aligned_size size) (room b) then some (b.cur, bump b (aligned_size size)) else none

-- The loop of `em_pool_allocate_find`: the first block that has room.
abbrev pub or_later :
    Block → List Block → Option (ℕ × Block) → Option (ℕ × List Block) → Option (ℕ × List Block)
or_later b bs (some r) later = some (r.0, r.1 ∷ bs)
or_later b bs none none = none
or_later b bs none (some r) = some (r.0, b ∷ r.1)

unfoldable pub first_fit : List Block → ℕ → Option (ℕ × List Block)
first_fit [] size = none
first_fit (b ∷ bs) size = or_later b bs (alloc_from_block b size) (first_fit bs size)

-- The size of the block that `em_pool_allocate_find` adds.
abbrev pub new_block_size : ℕ → ℕ → ℕ
new_block_size increment size =
    if ltb increment ((size + block_header + alignment) % word)
    then (size + increment + block_header + alignment) % word / increment * increment % word
    else increment

abbrev pub fresh_block : ℕ → ℕ → Block
fresh_block p size = record {
  address = p;
  buf = p + block_header;
  cur = align_ptr (p + block_header);
  end = p + size;
}

-- `em_pool_create_block`; `memory` is what block_alloc returns.
unfoldable pub create_block : Pool → ℕ → Option ℕ → Option Pool
create_block pool size none = none
create_block pool size (some p) = some (record pool {
  capacity = (pool.capacity + size) % word;
  blocks = fresh_block p size ∷ pool.blocks;
})

-- Taking the memory from the first block, that was just added.
abbrev pub given : Pool → List Block → Option (ℕ × Block) → Option ℕ × Pool
given pool bs none = (none, pool)
given pool bs (some r) = (some r.0, record pool { blocks = r.1 ∷ bs })

abbrev pub from_front : Pool → ℕ → List Block → Option ℕ × Pool
from_front pool size [] = (none, pool)
from_front pool size (b ∷ bs) = given pool bs (alloc_from_block b size)

-- The memory that an allocation gives, the pool after it, and the sizes with which the callback for
-- lack of memory was called.
abbrev pub AllocResult : Type 0
AllocResult = Option ℕ × Pool × List ℕ

-- The part of `em_pool_allocate_find` behind the loop.
abbrev pub from_created : Pool → ℕ → ℕ → Option Pool → AllocResult
from_created pool size block_size none = (none, pool, block_size ∷ [])
from_created pool size block_size (some pool') =
    let r = from_front pool' size pool'.blocks in (r.0, r.1, [])

unfoldable pub expand : Pool → ℕ → Option ℕ → AllocResult
expand pool size memory =
    if pool.increment_size == 0
    then (none, pool, size ∷ [])
    else (let block_size = new_block_size pool.increment_size size in
        from_created pool size block_size (create_block pool block_size memory))

-- A block of the pool gave the memory, or else what follows does.
abbrev pub or_else : Pool → Option (ℕ × List Block) → AllocResult → AllocResult
or_else pool none later = later
or_else pool (some r) later = (some r.0, record pool { blocks = r.1 }, [])

unfoldable pub allocate_find : Pool → ℕ → Option ℕ → AllocResult
allocate_find pool size memory = or_else pool (first_fit pool.blocks size) (expand pool size memory)

-- `em_pool_alloc` tries the front block and then all blocks, the front one again.
abbrev pub front_block : List Block → ℕ → Option (ℕ × List Block)
front_block [] size = none
front_block (b ∷ bs) size = or_later b bs (alloc_from_block b size) none

unfoldable pub alloc : Pool → ℕ → Option ℕ → AllocResult
alloc pool size memory =
    or_else pool (front_block pool.blocks size) (allocate_find pool size memory)

-- `em_pool_create_int`; `memory` is what block_alloc returns for the initial size.
abbrev pub created : ℕ → ℕ → ℕ → Pool
created p initial increment = record {
  address = p;
  capacity = initial;
  increment_size = increment;
  blocks = (record (fresh_block (p + pool_header) 0) { end = p + initial }) ∷ [];
}

unfoldable pub create_int : Option ℕ → ℕ → ℕ → Option Pool
create_int none initial increment = none
create_int (some p) initial increment =
    if ltb initial (pool_header + block_header) then none else some (created p initial increment)

-- `reset_pool`: the blocks but the last, in the order in which they are freed, and the pool.
abbrev pub last_block : Block → List Block → Block
last_block b [] = b
last_block b (c ∷ bs) = last_block c bs

abbrev pub rewound : Pool → Block → Pool
rewound pool b = record pool {
  blocks = (record b { cur = align_ptr b.buf }) ∷ [];
  capacity = (b.end + word - pool.address) % word;
}

abbrev pub freed_blocks : Block → List Block → List (ℕ × ℕ)
freed_blocks b [] = []
freed_blocks b (c ∷ bs) = freed_blocks c bs ++ ((b.address, (b.end + word - b.address) % word) ∷ [])

unfoldable pub reset_blocks : Pool → List Block → List (ℕ × ℕ) × Pool
reset_blocks pool [] = ([], pool)
reset_blocks pool (b ∷ bs) = (freed_blocks b bs, rewound pool (last_block b bs))

abbrev pub reset : Pool → List (ℕ × ℕ) × Pool
reset pool = reset_blocks pool pool.blocks

-- `em_pool_get_used_size`
abbrev pub used_in : List Block → ℕ
used_in [] = 0
used_in (b ∷ bs) = (b.cur + word - b.buf) % word + block_header + used_in bs

abbrev pub used_size : Pool → ℕ
used_size pool = (pool_header + used_in pool.blocks) % word

-- The size of the first of the blocks as `em_pool_destroy_int` takes it, from the pool on.
abbrev pub size_in : ℕ → List Block → ℕ
size_in address [] = 0
size_in address (b ∷ bs) = (b.end + word - address) % word

-- `em_pool_destroy_int`: the memory that is given back, with the sizes, in this order.
abbrev pub destroy_int : Pool → List (ℕ × ℕ)
destroy_int pool =
    let r = reset pool in r.0 ++ ((pool.address, size_in pool.address r.1.blocks) ∷ [])
