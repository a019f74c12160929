-- ===== src/CachingPool/Reach.antt =====
-- The states that calls of src/pool_caching.c, with clients' allocations between them, lead to.
use emlib.Prelude.{
  ℕ, ◌+◌, ◌<◌, ◌≡◌, refl, ap, Option, none, some, List, [], ◌∷◌, arith, ◌==◌, Bool-cases, inl, inr,
  All, length,
}
use emlib.Pool.{Pool, word, new_block_size}
use emlib.CachingPool.{
  CachingPool, CachedPool, init, create_pool, release_pool, erase_pool, alloc_at, alloc_in,
  account_alloc, account_found, alloc_in_use, calls_block_alloc,
}
use emlib.CachingPool.Made.{alloc-Made}
use emlib.CachingPool.Valid.{IsValid, IsInUse, accounted-IsValid}
use emlib.CachingPool.Steps.{create_pool-IsValid}
use emlib.CachingPool.Release.{release_pool-IsValid}

-- An allocation does not let the capacity of a pool pass 2 ^ 64.
abbrev pub IsSmall : ℕ → CachedPool → Type 0
IsSmall size c = c.pool.capacity + new_block_size c.pool.increment_size size < word

pub data Reach (max_capacity : ℕ) : CachingPool → Type 0 where
  start : Reach max_capacity (init max_capacity)
  create :
      {cp : CachingPool} (initial increment : ℕ) (memory : Option ℕ)
      → Reach max_capacity cp
      → initial < word
      → Reach max_capacity (create_pool cp initial increment memory).0
  release :
      {cp cp' : CachingPool} (a : ℕ)
      → Reach max_capacity cp
      → release_pool cp a ≡ some cp'
      → Reach max_capacity cp'
  use_pool :
      {cp : CachingPool} (a size : ℕ) (memory : Option ℕ)
      → Reach max_capacity cp
      → All (IsSmall size) cp.used_list
      → Reach max_capacity (alloc_in_use cp a size memory)

init-IsValid : (max_capacity : ℕ) → max_capacity + 65536 < word → IsValid (init max_capacity)
init-IsValid max_capacity h = record {
  count = omega arith;
  capacity = refl;
  limit = omega arith;
  bounded = h;
  idle = λ i b. tt;
  used = tt;
}

alloc_in-IsInUse :
    (c : CachedPool) (size : ℕ) (memory : Option ℕ)
    → IsSmall size c
    → IsInUse c
    → IsInUse (alloc_in c size memory)
alloc_in-IsInUse c size memory small u = record {
  size = u.size;
  made = (alloc-Made u.size c.pool size memory u.made small).1;
  class = u.class;
}

alloc_at_lem :
    (cs : List CachedPool) (a size : ℕ) (memory : Option ℕ)
    → All (IsSmall size) cs
    → All IsInUse cs
    → All IsInUse (alloc_at cs a size memory) × (length (alloc_at cs a size memory) ≡ length cs)
unfolding alloc_at
alloc_at_lem [] a size memory s h = (tt, refl)
alloc_at_lem (c ∷ cs) a size memory s h = elim (Bool-cases (c.pool.address == a)) [
  | inl e ↦ rw e ((alloc_in-IsInUse c size memory s.0 h.0, h.1), refl)
  | inr ne ↦
      let (u, e) = alloc_at_lem cs a size memory s.1 h.1 in rw ne ((h.0, u), omega (arith, e))
]

account_alloc-IsValid :
    (cp : CachingPool) (pool : Pool) (size : ℕ) (memory : Option ℕ)
    → IsValid cp
    → IsValid (account_alloc cp pool size memory)
      × ((account_alloc cp pool size memory).used_list ≡ cp.used_list)
account_alloc-IsValid cp pool size none v = elim (Bool-cases (calls_block_alloc pool size)) [
  | inl e ↦ rw e (accounted-IsValid cp _ _ v, refl)
  | inr ne ↦ rw ne (v, refl)
]
account_alloc-IsValid cp pool size (some m) v = elim (Bool-cases (calls_block_alloc pool size)) [
  | inl e ↦ rw e (accounted-IsValid cp _ _ v, refl)
  | inr ne ↦ rw ne (v, refl)
]

account_found-IsValid :
    (cp : CachingPool) (size : ℕ) (memory : Option ℕ) (o : Option (CachedPool × List CachedPool))
    → IsValid cp
    → IsValid (account_found cp size memory o)
      × ((account_found cp size memory o).used_list ≡ cp.used_list)
account_found-IsValid cp size memory none v = (v, refl)
account_found-IsValid cp size memory (some r) v = account_alloc-IsValid cp r.0.pool size memory v

alloc_in_use-IsValid :
    (cp : CachingPool) (a size : ℕ) (memory : Option ℕ)
    → IsValid cp
    → All (IsSmall size) cp.used_list
    → IsValid (alloc_in_use cp a size memory)
alloc_in_use-IsValid cp a size memory v s =
    let (v', e) = account_found-IsValid cp size memory (erase_pool a cp.used_list) v in
    let (used, len) = alloc_at_lem cp.used_list a size memory s v.used in
    record {
      count = omega (arith, v'.count, len, ap length e);
      capacity = v'.capacity;
      limit = v'.limit;
      bounded = v'.bounded;
      idle = v'.idle;
      used = used;
    }

-- From em_caching_pool_init with a limit of at most 2 ^ 64 - 65537 on, after every sequence of creations,
-- releases and allocations in pools: used_count counts the pools in use, capacity is the sum of the
-- capacities in the free lists and never above the limit, each pool in free list i is as new, with
-- pool_sizes[i] bytes, and a pool in use was created with the size of its class or above all of them.
pub Reach-IsValid :
    (max_capacity : ℕ) (cp : CachingPool)
    → max_capacity + 65536 < word
    → Reach max_capacity cp
    → IsValid cp
Reach-IsValid max_capacity _ h start = init-IsValid max_capacity h
Reach-IsValid max_capacity _ h (create {cp} initial increment memory r small) =
    create_pool-IsValid cp initial increment memory (Reach-IsValid max_capacity cp h r) small
Reach-IsValid max_capacity cp' h (release {cp} a r e) =
    release_pool-IsValid cp cp' a (Reach-IsValid max_capacity cp h r) e
Reach-IsValid max_capacity _ h (use_pool {cp} a size memory r s) =
    alloc_in_use-IsValid cp a size memory (Reach-IsValid max_capacity cp h r) s
