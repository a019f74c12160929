-- ===== src/CachingPool/Release.antt =====
-- Releases of pools in src/pool_caching.c, and clients' allocations, keep the state valid; so do all
-- calls in any order.
use emlib.Prelude.{
  ℕ, ◌+◌, ◌-◌, ◌%◌, ◌≤◌, ◌<◌, ◌≡◌, refl, subst, sym, Option, none, some, List, ◌∷◌, arith, leb,
  Bool-cases, inl, inr, false,
}
use mathlib.Core.Option.{some-injective}
use emlib.Pool.{Pool, word, created, reset, destroy_int}
use emlib.CachingPool.{
  CachingPool, CachedPool, size_at, is_too_large, recycle, released, release_found, release_pool,
  erase_pool, free_blocks,
}
use emlib.CachingPool.Classes.{size_at_last}
use emlib.CachingPool.Made.{IsMade, reset-Made}
use emlib.CachingPool.Valid.{
  IsValid, IsInUse, total-put_at, accounted-IsValid, free_blocks_lem, Erased, erase_pool-Erased,
}
use emlib.CachingPool.Steps.{put_at-IsIdle}

-- Releases: the accounting of what is freed leaves the state valid, and so does putting a pool of the
-- size of its class in the free list, if there is room.
freed-IsValid : (cp : CachingPool) (bs : List (ℕ × ℕ)) → IsValid cp → IsValid (free_blocks cp bs)
freed-IsValid cp bs v =
    let (used, e) = free_blocks_lem cp bs in
    subst IsValid (sym e) (accounted-IsValid cp used cp.peak_used_size v)

recycle-IsValid :
    (cp : CachingPool) (i : ℕ) (pool : Pool)
    → IsValid cp
    → i < 16
    → pool ≡ created pool.address (size_at i) pool.increment_size
    → cp.capacity + pool.capacity ≤ cp.max_capacity
    → IsValid (recycle cp i pool)
recycle-IsValid cp i pool v b e room =
    let c : CachedPool = record { pool = pool; factory_data = i } in
    let inside : leb 16 i ≡ false = ground arith in
    let sum = total-put_at 16 i cp.free_list (c ∷ cp.free_list i) b in
    rw inside record {
      count = v.count;
      capacity = omega (arith, sum, v.capacity, v.bounded, room);
      limit = omega (arith, v.bounded, room);
      bounded = v.bounded;
      idle =
          put_at-IsIdle cp.free_list i (c ∷ cp.free_list i) (record { created = e }, v.idle i b)
            v.idle;
      used = v.used;
    }

-- A pool that is not destroyed at its release has the size of its class, and there is room for it.
pub kept :
    (cp : CachingPool) (c : CachedPool)
    → IsValid cp
    → IsInUse c
    → is_too_large cp c.pool.capacity ≡ false
    → (c.factory_data < 16)
      × IsMade (size_at c.factory_data) c.pool
      × (cp.capacity + c.pool.capacity ≤ cp.max_capacity)
kept cp c v u small = elim (u.class) [
  | inl (b, e) ↦
      (b, subst (λ m. IsMade m c.pool) e u.made, ground (arith, v.limit, v.bounded, size_at_last))
  | inr (last, large) ↦ absurd (ground (arith, u.made.capacity, size_at_last))
]

released-IsValid :
    (cp : CachingPool) (c : CachedPool) → IsValid cp → IsInUse c → IsValid (released cp c)
released-IsValid cp c v u = elim (Bool-cases (is_too_large cp c.pool.capacity)) [
  | inl large ↦ rw large (freed-IsValid cp (destroy_int c.pool) v)
  | inr small ↦
      let (b, made, room) = kept cp c v u small in
      let (used, e) = free_blocks_lem cp (reset c.pool).0 in
      rw (small, e, reset-Made (size_at c.factory_data) c.pool made)
        (recycle-IsValid (record cp { used_size = used }) c.factory_data
          (created c.pool.address (size_at c.factory_data) c.pool.increment_size)
          (accounted-IsValid cp used cp.peak_used_size v) b refl
          (omega (arith, room, made.capacity)))
]

release_found-IsValid :
    (cp cp' : CachingPool) (a : ℕ) (o : Option (CachedPool × List CachedPool))
    → IsValid cp
    → Erased IsInUse a cp.used_list o
    → release_found cp o ≡ some cp'
    → IsValid cp'
release_found-IsValid cp cp' a none v h e = absurd (ground arith)
release_found-IsValid cp cp' a (some r) v h e =
    let rest : CachingPool = record cp {
      used_list = r.1;
      used_count = (cp.used_count + word - 1) % word;
    } in
    let valid : IsValid rest = record {
      count = omega (arith, v.count, h.3);
      capacity = v.capacity;
      limit = v.limit;
      bounded = v.bounded;
      idle = v.idle;
      used = h.2;
    } in
    subst IsValid (some-injective (released rest r.0) cp' e) (released-IsValid rest r.0 valid h.1)

pub release_pool-IsValid :
    (cp cp' : CachingPool) (a : ℕ) → IsValid cp → release_pool cp a ≡ some cp' → IsValid cp'
unfolding release_pool
release_pool-IsValid cp cp' a v e =
    release_found-IsValid cp cp' a (erase_pool a cp.used_list) v
      (erase_pool-Erased IsInUse a cp.used_list v.used) e
