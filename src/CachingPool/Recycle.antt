-- ===== src/CachingPool/Recycle.antt =====
-- A pool that src/pool_caching.c keeps at its release is the one that the next creation of its class
-- hands out.
use emlib.Prelude.{
  ℕ, ◌+◌, ◌-◌, ◌%◌, ◌<◌, ◌≡◌, refl, subst, Option, some, List, ◌∷◌, arith, false, leb, ◌==◌,
  if◌then◌else◌, ==-refl, put_at, ltb,
}
use emlib.Pool.{word, created, reset}
use emlib.CachingPool.{
  CachingPool, CachedPool, size_at, size_class, create_pool, is_too_large, released, release_pool,
  erase_pool,
}
use emlib.CachingPool.Classes.{size_at_bounds}
use emlib.CachingPool.Made.{IsMade, reset-Made}
use emlib.CachingPool.Valid.{IsValid, IsInUse, free_blocks_lem, Erased, erase_pool-Erased}
use emlib.CachingPool.Release.{kept}

-- The state with the pool of a client, reset, back in the free list of its class.
abbrev put_back : CachingPool → CachedPool → ℕ → CachingPool
put_back cp c used =
    let i = c.factory_data in
    record cp {
      used_size = used;
      capacity = (cp.capacity + size_at i) % word;
      free_list = put_at cp.free_list i (
          (record {
            pool = created c.pool.address (size_at i) c.pool.increment_size;
            factory_data = i;
          })
          ∷ cp.free_list i);
    }

released_lem :
    (cp : CachingPool) (c : CachedPool)
    → c.factory_data < 16
    → IsMade (size_at c.factory_data) c.pool
    → is_too_large cp c.pool.capacity ≡ false
    → (used : ℕ) × (released cp c ≡ put_back cp c used)
released_lem cp c b made small =
    let (used, e) = free_blocks_lem cp (reset c.pool).0 in
    let inside : leb 16 c.factory_data ≡ false = ground arith in
    (used, rw (small, e, reset-Made (size_at c.factory_data) c.pool made, inside) refl)

put_at_same : (f : ℕ → List CachedPool) (i : ℕ) (l : List CachedPool) → put_at f i l i ≡ l
put_at_same f i l = rw (==-refl i) refl

capacity_back :
    (k n : ℕ) → k + n < word → (if ltb n ((k + n) % word) then (k + n) % word - n else 0) ≡ k
capacity_back k n h = ground arith

-- The state from which a creation takes the pool c.
taken_back :
    (cp : CachingPool) (c : CachedPool) (used n increment : ℕ) (memory : Option ℕ)
    → c.factory_data < 16
    → size_class n ≡ c.factory_data
    → cp.capacity + 65536 < word
    → ((create_pool (put_back cp c used) n increment memory).1
        ≡ some (record {
          pool = created c.pool.address (size_at c.factory_data) increment;
          factory_data = c.factory_data;
        }))
      × ((create_pool (put_back cp c used) n increment memory).0.capacity ≡ cp.capacity)
      × ((create_pool (put_back cp c used) n increment memory).0.free_list c.factory_data
          ≡ cp.free_list c.factory_data)
unfolding create_pool
taken_back cp c used n increment memory b e small =
    let inside : (c.factory_data == 16) ≡ false = ground arith in
    rw (e, inside, ==-refl c.factory_data)
      (
        refl,
        capacity_back cp.capacity (size_at c.factory_data)
            (omega (arith, size_at_bounds c.factory_data b)),
        put_at_same (put_back cp c used).free_list c.factory_data (cp.free_list c.factory_data),
      )

found_back :
    (cp : CachingPool) (a n increment : ℕ) (memory : Option ℕ) (c : CachedPool)
    (rest : List CachedPool)
    → IsValid cp
    → erase_pool a cp.used_list ≡ some (c, rest)
    → c.pool.address ≡ a
    → IsInUse c
    → is_too_large cp c.pool.capacity ≡ false
    → size_class n ≡ c.factory_data
    → (cp' : CachingPool) × (release_pool cp a ≡ some cp')
      × ((create_pool cp' n increment memory).1
          ≡ some (record {
            pool = created a (size_at c.factory_data) increment;
            factory_data = c.factory_data;
          }))
      × ((create_pool cp' n increment memory).0.capacity ≡ cp.capacity)
      × ((create_pool cp' n increment memory).0.free_list c.factory_data
          ≡ cp.free_list c.factory_data)
unfolding release_pool
found_back cp a n increment memory c rest v found at u small e =
    let (b, made, room) = kept cp c v u small in
    let cp1 : CachingPool = record cp {
      used_list = rest;
      used_count = (cp.used_count + word - 1) % word;
    } in
    let (used, back) = released_lem cp1 c b made small in
    let again = taken_back cp1 c used n increment memory b e (omega (arith, v.limit, v.bounded)) in
    (
      put_back cp1 c used,
      rw (found, back) refl,
      subst
          (λ p.
            (create_pool (put_back cp1 c used) n increment memory).1
            ≡ some (record {
              pool = created p (size_at c.factory_data) increment;
              factory_data = c.factory_data;
            }))
          at again.0,
      again.1,
      again.2,
    )

-- In a valid state let a pool at a be in use that is neither larger than all sizes nor more than the
-- limit leaves room for. Its release, and a creation then of a size in the same class, give
-- back the same pool, as a new pool of the size of its class would be, without any need of memory; the
-- free list of the class and the capacity are then those of before.
pub create_pool-release_pool :
    (cp : CachingPool) (a n increment : ℕ) (memory : Option ℕ) (c : CachedPool)
    (rest : List CachedPool)
    → IsValid cp
    → erase_pool a cp.used_list ≡ some (c, rest)
    → is_too_large cp c.pool.capacity ≡ false
    → size_class n ≡ c.factory_data
    → (cp' : CachingPool) × (release_pool cp a ≡ some cp')
      × ((create_pool cp' n increment memory).1
          ≡ some (record {
            pool = created a (size_at c.factory_data) increment;
            factory_data = c.factory_data;
          }))
      × ((create_pool cp' n increment memory).0.capacity ≡ cp.capacity)
      × ((create_pool cp' n increment memory).0.free_list c.factory_data
          ≡ cp.free_list c.factory_data)
create_pool-release_pool cp a n increment memory c rest v found small e =
    let h =
      subst (Erased IsInUse a cp.used_list) found
        (erase_pool-Erased IsInUse a cp.used_list v.used) in
    found_back cp a n increment memory c rest v found h.0 h.1 small e
