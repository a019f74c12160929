-- ===== src/CachingPool.antt =====
-- The caching pool factory of src/pool_caching.c with the default policy of
-- src/pool_policy_malloc.c, on a machine with 64-bit sizes. The lock is held throughout each call.
-- Pools are those of module Pool; what malloc returns is an argument.
pub mod Classes
pub mod Made
pub mod Valid
pub mod Steps
pub mod Release
pub mod Reach
pub mod Recycle
mod Tests
use emlib.Prelude.{
  ℕ, zero, suc, ◌+◌, ◌-◌, ◌%◌, Option, none, some, Bool, true, false, not, ◌&&◌, ◌||◌, List, [],
  ◌∷◌, ◌++◌, ltb, leb, ◌==◌, if◌then◌else◌, put_at,
}
use emlib.Pool.{
  Pool, word, pool_header, block_header, create_int, reset, destroy_int, front_block, first_fit,
  new_block_size, alloc,
}

-- EM_CACHING_POOL_ARRAY_SIZE and START_SIZE
abbrev pub array_size : ℕ
array_size = 16

abbrev pub start_size : ℕ
start_size = 5

abbrev pub pool_sizes : List ℕ
pool_sizes =
    256 ∷ 512 ∷ 1024 ∷ 2048 ∷ 4096 ∷ 8192 ∷ 12288 ∷ 16384 ∷ 20480 ∷ 24576 ∷ 28672 ∷ 32768 ∷ 40960
    ∷ 49152 ∷ 57344 ∷ 65536 ∷ []

abbrev pub nth : List ℕ → ℕ → ℕ
nth [] i = 0
nth (x ∷ xs) zero = x
nth (x ∷ xs) (suc i) = nth xs i

-- pool_sizes[i]
unfoldable pub size_at : ℕ → ℕ
size_at i = nth pool_sizes i

-- A pool with its `factory_data`.
pub record CachedPool : Type 0 where
  pub pool : Pool
  pub factory_data : ℕ

-- `em_caching_pool`; a list is from its front.
pub record CachingPool : Type 0 where
  pub capacity : ℕ
  pub max_capacity : ℕ
  pub used_count : ℕ
  pub used_size : ℕ
  pub peak_used_size : ℕ
  pub free_list : ℕ → List CachedPool
  pub used_list : List CachedPool

-- `em_caching_pool_init`
abbrev pub init : ℕ → CachingPool
init max_capacity = record {
  capacity = 0;
  max_capacity = max_capacity;
  used_count = 0;
  used_size = 0;
  peak_used_size = 0;
  free_list = λ i. [];
  used_list = [];
}

-- `cpool_on_block_alloc` and `cpool_on_block_free`
abbrev pub on_block_alloc : CachingPool → ℕ → CachingPool
on_block_alloc cp sz =
    let used = (cp.used_size + sz) % word in
    record cp {
      used_size = used;
      peak_used_size = if ltb cp.peak_used_size used then used else cp.peak_used_size;
    }

abbrev pub on_block_free : CachingPool → ℕ → CachingPool
on_block_free cp sz = record cp { used_size = (cp.used_size + word - sz) % word }

-- `default_block_alloc`: what malloc gave is passed on.
abbrev pub default_block_alloc : CachingPool → ℕ → Option ℕ → CachingPool × Option ℕ
default_block_alloc cp size none = (on_block_free (on_block_alloc cp size) size, none)
default_block_alloc cp size (some p) = (on_block_alloc cp size, some p)

-- `default_block_free` of several blocks with their sizes
unfoldable pub free_blocks : CachingPool → List (ℕ × ℕ) → CachingPool
free_blocks cp [] = cp
free_blocks cp (b ∷ bs) = free_blocks (on_block_free cp b.1) bs

-- The search for the size class in `cpool_create_pool`: the loop downwards, which has looked at the
-- classes from k on, with the increment behind it, and the loop upwards, which has m classes ahead.
unfoldable pub search_down : ℕ → ℕ → ℕ
search_down initial zero = zero
search_down initial (suc idx) =
    let rest = search_down initial idx in if leb initial (size_at idx) then rest else suc idx

unfoldable pub search_up : ℕ → ℕ → ℕ
search_up initial zero = array_size
search_up initial (suc m) =
    let rest = search_up initial m in
    if ltb (size_at (array_size - suc m)) initial then rest else array_size - suc m

unfoldable pub size_class : ℕ → ℕ
size_class initial =
    if leb initial (size_at start_size)
    then search_down initial start_size
    else search_up initial (array_size - (start_size + 1))

-- `em_pool_create_int` with the default policy
unfoldable pub new_pool : CachingPool → ℕ → ℕ → Option ℕ → CachingPool × Option Pool
new_pool cp size increment memory =
    let r = default_block_alloc cp size memory in
    if ltb size (pool_header + block_header)
    then (cp, none)
    else (r.0, create_int r.1 size increment)

-- The end of `cpool_create_pool`: the pool is put in the list of those in use.
abbrev pub handed_out : CachingPool → ℕ → Option Pool → CachingPool × Option CachedPool
handed_out cp idx none = (cp, none)
handed_out cp idx (some pool) =
    let c : CachedPool = record { pool = pool; factory_data = idx } in
    (
      record cp { used_list = cp.used_list ++ (c ∷ []); used_count = (cp.used_count + 1) % word },
      some c,
    )

-- The choice in `cpool_create_pool` between a pool of the class's free list and a new one.
abbrev pub without_capacity : CachingPool → ℕ → ℕ
without_capacity cp n = if ltb n cp.capacity then cp.capacity - n else 0

abbrev pub taken_or_new :
    CachingPool → ℕ → ℕ → ℕ → Option ℕ → List CachedPool → CachingPool × Option Pool
taken_or_new cp idx initial increment memory [] =
    new_pool cp (if ltb idx array_size then size_at idx else initial) increment memory
taken_or_new cp idx initial increment memory (c ∷ cs) = (
  record cp {
    free_list = put_at cp.free_list idx cs;
    capacity = without_capacity cp c.pool.capacity;
  },
  some (record (c.pool) { increment_size = increment }),
)

abbrev pub free_pools : CachingPool → ℕ → List CachedPool
free_pools cp idx = if idx == array_size then [] else cp.free_list idx

-- `cpool_create_pool` with the class idx
abbrev pub create_in : CachingPool → ℕ → ℕ → ℕ → Option ℕ → CachingPool × Option CachedPool
create_in cp idx initial increment memory =
    let r = taken_or_new cp idx initial increment memory (free_pools cp idx) in
    handed_out r.0 idx r.1

unfoldable pub create_pool : CachingPool → ℕ → ℕ → Option ℕ → CachingPool × Option CachedPool
create_pool cp initial increment memory = create_in cp (size_class initial) initial increment memory

-- `em_list_erase` of the pool at an address: the pool and the rest of the list; `none` if the list
-- has no such pool.
abbrev pub beside :
    CachedPool → Option (CachedPool × List CachedPool) → Option (CachedPool × List CachedPool)
beside c none = none
beside c (some r) = some (r.0, c ∷ r.1)

unfoldable pub erase_pool : ℕ → List CachedPool → Option (CachedPool × List CachedPool)
erase_pool a [] = none
erase_pool a (c ∷ cs) =
    let later = beside c (erase_pool a cs) in if c.pool.address == a then some (c, cs) else later

-- `em_pool_destroy_int` with the default policy
abbrev pub destroy_pool : CachingPool → Pool → CachingPool
destroy_pool cp pool = free_blocks cp (destroy_int pool)

-- The end of `cpool_release_pool`: the pool is reset and put in the free list of its class.
abbrev pub recycle : CachingPool → ℕ → Pool → CachingPool
recycle cp i pool = if leb array_size i then destroy_pool cp pool else record cp {
  free_list = put_at cp.free_list i (record { pool = pool; factory_data = i } ∷ cp.free_list i);
  capacity = (cp.capacity + pool.capacity) % word;
}

abbrev pub is_too_large : CachingPool → ℕ → Bool
is_too_large cp n =
    ltb (size_at (array_size - 1)) n || ltb cp.max_capacity ((cp.capacity + n) % word)

abbrev pub released : CachingPool → CachedPool → CachingPool
released cp c =
    if is_too_large cp c.pool.capacity
    then destroy_pool cp c.pool
    else recycle (free_blocks cp (reset c.pool).0) c.factory_data (reset c.pool).1

abbrev pub release_found : CachingPool → Option (CachedPool × List CachedPool) → Option CachingPool
release_found cp none = none
release_found cp (some r) =
    some
      (released (record cp { used_list = r.1; used_count = (cp.used_count + word - 1) % word }) r.0)

-- `cpool_release_pool` of the pool at an address; `none` if it is not in use, where the source makes
-- no check.
unfoldable pub release_pool : CachingPool → ℕ → Option CachingPool
release_pool cp a = release_found cp (erase_pool a cp.used_list)

-- `em_pool_alloc` by a client on the pool in use at an address, with its calls of the default policy.
abbrev pub is_none {ℓ} : {A : Type ℓ} → Option A → Bool
is_none none = true
is_none (some x) = false

abbrev pub calls_block_alloc : Pool → ℕ → Bool
calls_block_alloc pool size =
    is_none (front_block pool.blocks size)
    && is_none (first_fit pool.blocks size)
    && not (pool.increment_size == 0)

abbrev pub account_alloc : CachingPool → Pool → ℕ → Option ℕ → CachingPool
account_alloc cp pool size memory =
    if calls_block_alloc pool size
    then (default_block_alloc cp (new_block_size pool.increment_size size) memory).0
    else cp

abbrev pub alloc_in : CachedPool → ℕ → Option ℕ → CachedPool
alloc_in c size memory = record c { pool = (alloc c.pool size memory).1 }

unfoldable pub alloc_at : List CachedPool → ℕ → ℕ → Option ℕ → List CachedPool
alloc_at [] a size memory = []
alloc_at (c ∷ cs) a size memory =
    let later = c ∷ alloc_at cs a size memory in
    if c.pool.address == a then alloc_in c size memory ∷ cs else later

abbrev pub account_found :
    CachingPool → ℕ → Option ℕ → Option (CachedPool × List CachedPool) → CachingPool
account_found cp size memory none = cp
account_found cp size memory (some r) = account_alloc cp r.0.pool size memory

abbrev pub alloc_in_use : CachingPool → ℕ → ℕ → Option ℕ → CachingPool
alloc_in_use cp a size memory = record (account_found cp size memory (erase_pool a cp.used_list)) {
  used_list = alloc_at cp.used_list a size memory;
}

-- `em_caching_pool_destroy`, without the lock: the free lists from the first class on, then the pools
-- in use.
abbrev pub destroy_pools : CachingPool → List CachedPool → CachingPool
destroy_pools cp [] = cp
destroy_pools cp (c ∷ cs) = destroy_pools (destroy_pool cp c.pool) cs

abbrev pub destroy_classes : CachingPool → ℕ → CachingPool
destroy_classes cp zero = cp
destroy_classes cp (suc k) =
    let cp' = destroy_classes cp k in
    record (destroy_pools cp' (cp.free_list k)) { free_list = put_at cp'.free_list k [] }

abbrev pub destroy : CachingPool → CachingPool
destroy cp =
    let cp' = destroy_classes cp array_size in
    record (destroy_pools cp' cp.used_list) { used_list = [] }
