-- ===== src/CachingPool/Tests.antt =====
-- The caching pool on concrete states.
use emlib.Prelude.{◌≡◌, refl, none, some, [], arith, false}
use emlib.Pool.{
  created, alloc, alloc_from_block, first_fit, allocate_find, expand, create_block, create_int,
}
use emlib.CachingPool.{
  CachingPool, CachedPool, init, size_at, size_class, create_pool, release_pool, erase_pool,
  new_pool, search_up, search_down, is_too_large, alloc_in_use, alloc_at,
}
use emlib.CachingPool.Classes.{IsClass, size_class_lem}
use emlib.CachingPool.Valid.{IsValid}
use emlib.CachingPool.Reach.{Reach, start, create, use_pool, Reach-IsValid}
use emlib.CachingPool.Recycle.{create_pool-release_pool}

smallest : size_class 0 ≡ 0
unfolding size_class search_down size_at
smallest = refl

ninth : size_class 20000 ≡ 8
unfolding size_class search_down search_up size_at
ninth = refl

none_fits : size_class 65537 ≡ 16
unfolding size_class search_down search_up size_at
none_fits = refl

size_class_lem_example : IsClass 20000 (size_class 20000)
size_class_lem_example = size_class_lem 20000

-- A pool for 1000 bytes, at 4096, and an allocation of 3000 bytes in it, that adds a block at 100000.
abbrev with_pool : CachingPool
with_pool = (create_pool (init 100000) 1000 4096 (some 4096)).0

abbrev with_block : CachingPool
with_block = alloc_in_use with_pool 4096 3000 (some 100000)

with_pool-Reach : Reach 100000 with_pool
with_pool-Reach = create 1000 4096 (some 4096) start (omega arith)

class_of_600 : size_class 600 ≡ 2
unfolding size_class search_down search_up size_at
class_of_600 = refl

with_block-Reach : Reach 100000 with_block
unfolding create_pool size_class search_down search_up size_at new_pool create_int
with_block-Reach = use_pool 4096 3000 (some 100000) with_pool-Reach (ground arith)

Reach-IsValid_example : IsValid with_block
Reach-IsValid_example = Reach-IsValid 100000 with_block (omega arith) with_block-Reach

-- The pool in use in that state.
abbrev grown : CachedPool
grown = record { pool = (alloc (created 4096 1024 4096) 3000 (some 100000)).1; factory_data = 2 }

grown_found : erase_pool 4096 with_block.used_list ≡ some (grown, [])
unfolding erase_pool alloc_at create_pool size_class search_down search_up size_at new_pool
    create_int alloc alloc_from_block first_fit allocate_find expand create_block
grown_found = refl

grown_small : is_too_large with_block grown.pool.capacity ≡ false
unfolding erase_pool size_at create_pool size_class search_down search_up new_pool create_int alloc
    alloc_from_block first_fit allocate_find expand create_block
grown_small = refl

with_block-IsValid : IsValid with_block
with_block-IsValid = Reach-IsValid 100000 with_block (omega arith) with_block-Reach

create_pool-release_pool_example :
    (cp' : CachingPool) × (release_pool with_block 4096 ≡ some cp')
    × ((create_pool cp' 600 512 none).1
        ≡ some (record { pool = created 4096 (size_at 2) 512; factory_data = 2 }))
    × ((create_pool cp' 600 512 none).0.capacity ≡ with_block.capacity)
    × ((create_pool cp' 600 512 none).0.free_list 2 ≡ with_block.free_list 2)
create_pool-release_pool_example =
    create_pool-release_pool with_block 4096 600 512 none grown [] with_block-IsValid grown_found
      grown_small class_of_600
