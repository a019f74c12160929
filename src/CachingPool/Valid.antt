-- ===== src/CachingPool/Valid.antt =====
-- The state of the caching pool of src/pool_caching.c: what its free lists hold and count.
use emlib.Prelude.{
  ℕ, zero, suc, ◌+◌, ◌%◌, ◌≤◌, ◌<◌, ◌≡◌, refl, ap, Option, none, some, List, [], ◌∷◌, arith, ◌==◌,
  Bool-cases, inl, inr, ◌⊎◌, All, length, put_at, false, ==-refl,
}
use emlib.Pool.{word, created}
use emlib.CachingPool.{
  CachingPool, CachedPool, size_at, on_block_free, free_blocks, erase_pool, beside,
}
use emlib.CachingPool.Made.{IsMade}

abbrev pub capacity_of : List CachedPool → ℕ
capacity_of [] = 0
capacity_of (c ∷ cs) = c.pool.capacity + capacity_of cs

-- The capacity of the pools in the first k free lists.
abbrev pub total : ℕ → (ℕ → List CachedPool) → ℕ
total zero f = 0
total (suc k) f = total k f + capacity_of (f k)

total-put_at_above :
    (k i : ℕ) (f : ℕ → List CachedPool) (l : List CachedPool)
    → k ≤ i
    → total k (put_at f i l) ≡ total k f
total-put_at_above zero i f l h = refl
total-put_at_above (suc k) i f l h =
    let away : (i == k) ≡ false = ground arith in
    rw (total-put_at_above k i f l (omega arith), away) refl

pub total-put_at :
    (k i : ℕ) (f : ℕ → List CachedPool) (l : List CachedPool)
    → i < k
    → total k (put_at f i l) + capacity_of (f i) ≡ total k f + capacity_of l
total-put_at zero i f l h = absurd (omega arith)
total-put_at (suc k) i f l h = elim (Bool-cases (i == k)) [
  | inl e ↦
      let here : i ≡ k = ground arith in
      rw (here, total-put_at_above k k f l (omega arith), ==-refl k) (omega arith)
  | inr ne ↦ rw ne (omega (arith, total-put_at k i f l (ground arith)))
]

-- A pool of the free list i is as it was created, with the size of the class.
pub record IsIdle (i : ℕ) (c : CachedPool) : Type 0 where
  pub created : c.pool ≡ created c.pool.address (size_at i) c.pool.increment_size

-- A pool in use was created with n bytes: the size of its class, or above all sizes.
pub record IsInUse (c : CachedPool) : Type 0 where
  pub size : ℕ
  pub made : IsMade size c.pool
  pub class :
      ((c.factory_data < 16) × (size ≡ size_at c.factory_data))
      ⊎ ((c.factory_data ≡ 16) × (65536 < size))

pub record IsValid (cp : CachingPool) : Type 0 where
  pub count : cp.used_count ≡ length cp.used_list % word
  pub capacity : cp.capacity ≡ total 16 cp.free_list
  pub limit : cp.capacity ≤ cp.max_capacity
  pub bounded : cp.max_capacity + 65536 < word
  pub idle : (i : ℕ) → i < 16 → All (IsIdle i) (cp.free_list i)
  pub used : All IsInUse cp.used_list

-- Only the accounting of memory changes.
pub accounted-IsValid :
    (cp : CachingPool) (used peak : ℕ)
    → IsValid cp
    → IsValid (record cp { used_size = used; peak_used_size = peak })
accounted-IsValid cp used peak v = record {
  count = v.count;
  capacity = v.capacity;
  limit = v.limit;
  bounded = v.bounded;
  idle = v.idle;
  used = v.used;
}

pub free_blocks_lem :
    (cp : CachingPool) (bs : List (ℕ × ℕ))
    → (used : ℕ) × (free_blocks cp bs ≡ record cp { used_size = used })
unfolding free_blocks
free_blocks_lem cp [] = (cp.used_size, refl)
free_blocks_lem cp (b ∷ bs) = free_blocks_lem (on_block_free cp b.1) bs

-- What an erased pool and the rest of the list are.
abbrev pub Erased {κ} :
    (CachedPool → Type κ) → ℕ → List CachedPool → Option (CachedPool × List CachedPool) → Type κ
Erased P a cs none = Unit
Erased P a cs (some r) = (r.0.pool.address ≡ a) × P r.0 × All P r.1 × (length cs ≡ suc (length r.1))

beside-Erased {κ} :
    (P : CachedPool → Type κ) (a : ℕ) (c : CachedPool) (cs : List CachedPool)
    (later : Option (CachedPool × List CachedPool))
    → P c
    → Erased P a cs later
    → Erased P a (c ∷ cs) (beside c later)
beside-Erased P a c cs none h e = tt
beside-Erased P a c cs (some r) h e = (e.0, e.1, (h, e.2), ap suc e.3)

pub erase_pool-Erased {κ} :
    (P : CachedPool → Type κ) (a : ℕ) (cs : List CachedPool)
    → All P cs
    → Erased P a cs (erase_pool a cs)
unfolding erase_pool
erase_pool-Erased P a [] h = tt
erase_pool-Erased P a (c ∷ cs) h = elim (Bool-cases (c.pool.address == a)) [
  | inl e ↦ rw e (ground arith, h.0, h.1, refl)
  | inr ne ↦ rw ne (beside-Erased P a c cs (erase_pool a cs) h.0 (erase_pool-Erased P a cs h.1))
]
