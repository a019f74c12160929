-- ===== src/CachingPool/Steps.antt =====
-- The calls of src/pool_caching.c, and clients' allocations, keep the state valid.
use emlib.Prelude.{
  ℕ, ◌+◌, ◌-◌, ◌≤◌, ◌<◌, ◌⊎◌, ◌≡◌, refl, ap, subst, sym, Option, none, some, List, [], ◌∷◌, arith,
  ltb, ◌==◌, Bool-cases, inl, inr, All, All-append, length-append, put_at, false, if◌then◌else◌,
}
use emlib.Pool.{Pool, word, created, create_int}
use emlib.CachingPool.{
  CachingPool, CachedPool, size_at, size_class, new_pool, handed_out, taken_or_new, free_pools,
  create_pool, without_capacity,
}
use emlib.CachingPool.Classes.{IsClass, size_class_lem, size_at_last, size_at_bounds}
use emlib.CachingPool.Made.{IsMade, created-IsMade}
use emlib.CachingPool.Valid.{IsValid, IsIdle, IsInUse, total-put_at, capacity_of, accounted-IsValid}

-- A pool that is handed out with its class.
abbrev Ready : ℕ → Option Pool → Type 0
Ready idx none = Unit
Ready idx (some pool) = IsInUse (record { pool = pool; factory_data = idx })

handed_out-IsValid :
    (cp : CachingPool) (idx : ℕ) (o : Option Pool)
    → IsValid cp
    → Ready idx o
    → IsValid (handed_out cp idx o).0
handed_out-IsValid cp idx none v r = v
handed_out-IsValid cp idx (some pool) v r = record {
  count = omega (
    arith,
    v.count,
    length-append cp.used_list (record { pool = pool; factory_data = idx } ∷ []),
  );
  capacity = v.capacity;
  limit = v.limit;
  bounded = v.bounded;
  idle = v.idle;
  used =
      All-append IsInUse cp.used_list (record { pool = pool; factory_data = idx } ∷ []) v.used
        (r, tt);
}

-- The size that a new pool of a class is created with.
abbrev class_size : ℕ → ℕ → ℕ
class_size idx initial = if ltb idx 16 then size_at idx else initial

class_of :
    (n idx : ℕ)
    → IsClass n idx
    → ((idx < 16) × (class_size idx n ≡ size_at idx))
      ⊎ ((idx ≡ 16) × (class_size idx n ≡ n) × (65536 < n))
class_of n idx c = elim (Bool-cases (ltb idx 16)) [
  | inl lt ↦ inl (ground arith, rw lt refl)
  | inr ge ↦
      let last : idx ≡ 16 = ground (arith, c.bounded) in
      inr (last, rw ge refl, omega (arith, c.least 15 (omega arith), size_at_last))
]

-- The sizes of new pools: their class, and room for the headers.
new_size :
    (n idx : ℕ) → n < word → IsClass n idx → (168 ≤ class_size idx n) × (class_size idx n < word)
new_size n idx small c = elim (class_of n idx c) [
  | inl (lt, e) ↦ omega (arith, size_at_bounds idx lt, e)
  | inr (e, e', gt) ↦ omega (arith, e', gt)
]

created-IsInUse :
    (n idx p increment : ℕ)
    → n < word
    → IsClass n idx
    → IsInUse (record { pool = created p (class_size idx n) increment; factory_data = idx })
created-IsInUse n idx p increment small c = record {
  size = class_size idx n;
  made = created-IsMade p (class_size idx n) increment (new_size n idx small c).1;
  class = elim (class_of n idx c) [
    | inl (lt, e) ↦ inl (lt, e)
    | inr (e, e', gt) ↦ inr (e, omega (arith, e', gt))
  ];
}

new_pool_lem :
    (cp : CachingPool) (n idx increment : ℕ) (memory : Option ℕ)
    → IsValid cp
    → n < word
    → IsClass n idx
    → IsValid (new_pool cp (class_size idx n) increment memory).0
      × Ready idx (new_pool cp (class_size idx n) increment memory).1
unfolding new_pool create_int
new_pool_lem cp n idx increment none v small c =
    let large : ltb (class_size idx n) 168 ≡ false = ground (arith, new_size n idx small c) in
    rw large (accounted-IsValid cp _ _ v, tt)
new_pool_lem cp n idx increment (some p) v small c =
    let large : ltb (class_size idx n) 168 ≡ false = ground (arith, new_size n idx small c) in
    rw large (accounted-IsValid cp _ _ v, created-IsInUse n idx p increment small c)

pub put_at-IsIdle :
    (f : ℕ → List CachedPool) (i : ℕ) (l : List CachedPool)
    → All (IsIdle i) l
    → ((j : ℕ) → j < 16 → All (IsIdle j) (f j))
    → (j : ℕ) → j < 16
    → All (IsIdle j) (put_at f i l j)
put_at-IsIdle f i l h hs j b = elim (Bool-cases (i == j)) [
  | inl e ↦ let here : i ≡ j = ground arith in rw e (subst (λ k. All (IsIdle k) l) here h)
  | inr ne ↦ rw ne (hs j b)
]

idle-IsMade : (i : ℕ) (c : CachedPool) → i < 16 → IsIdle i c → IsMade (size_at i) c.pool
idle-IsMade i c b h =
    subst (λ pool. IsMade (size_at i) pool) (sym h.created)
      (created-IsMade c.pool.address (size_at i) c.pool.increment_size
        (omega (arith, size_at_bounds i b)))

without_capacity-le :
    (cp : CachingPool) (n : ℕ) → n ≤ cp.capacity → without_capacity cp n ≡ cp.capacity - n
without_capacity-le cp n h = ground arith

reused_lem :
    (cp : CachingPool) (n idx increment : ℕ) (memory : Option ℕ) (c : CachedPool)
    (cs : List CachedPool)
    → IsValid cp
    → idx < 16
    → cp.free_list idx ≡ c ∷ cs
    → IsValid (taken_or_new cp idx n increment memory (c ∷ cs)).0
      × Ready idx (taken_or_new cp idx n increment memory (c ∷ cs)).1
reused_lem cp n idx increment memory c cs v b e =
    let idle = subst (λ l. All (IsIdle idx) l) e (v.idle idx b) in
    let made = idle-IsMade idx c b idle.0 in
    let sum = total-put_at 16 idx cp.free_list cs b in
    let size : capacity_of (cp.free_list idx) ≡ c.pool.capacity + capacity_of cs =
      ap capacity_of e in
    let less = without_capacity-le cp c.pool.capacity (omega (arith, sum, size, v.capacity)) in
    (
      record {
        count = v.count;
        capacity = omega (arith, sum, size, v.capacity, less);
        limit = omega (arith, v.limit, less);
        bounded = v.bounded;
        idle = put_at-IsIdle cp.free_list idx cs idle.1 v.idle;
        used = v.used;
      },
      record {
        size = size_at idx;
        made = record { stands = made.stands; small = made.small; capacity = made.capacity };
        class = inl (b, refl);
      },
    )

taken_or_new_lem :
    (cp : CachingPool) (n idx increment : ℕ) (memory : Option ℕ) (l : List CachedPool)
    → IsValid cp
    → n < word
    → IsClass n idx
    → (l ≡ []) ⊎ ((idx < 16) × (cp.free_list idx ≡ l))
    → IsValid (taken_or_new cp idx n increment memory l).0
      × Ready idx (taken_or_new cp idx n increment memory l).1
taken_or_new_lem cp n idx increment memory [] v small c h =
    new_pool_lem cp n idx increment memory v small c
taken_or_new_lem cp n idx increment memory (d ∷ ds) v small c (inl e) = absurd (ground arith)
taken_or_new_lem cp n idx increment memory (d ∷ ds) v small c (inr (b, e)) =
    reused_lem cp n idx increment memory d ds v b e

free_pools_cases :
    (cp : CachingPool) (n idx : ℕ)
    → IsClass n idx
    → (free_pools cp idx ≡ []) ⊎ ((idx < 16) × (cp.free_list idx ≡ free_pools cp idx))
free_pools_cases cp n idx c = elim (Bool-cases (idx == 16)) [
  | inl e ↦ inl (rw e refl)
  | inr ne ↦ inr (ground (arith, c.bounded), rw ne refl)
]

pub create_pool-IsValid :
    (cp : CachingPool) (n increment : ℕ) (memory : Option ℕ)
    → IsValid cp
    → n < word
    → IsValid (create_pool cp n increment memory).0
unfolding create_pool
create_pool-IsValid cp n increment memory v small =
    let idx = size_class n in
    let (v', ready) =
      taken_or_new_lem cp n idx increment memory (free_pools cp idx) v small (size_class_lem n)
        (free_pools_cases cp n idx (size_class_lem n)) in
    handed_out-IsValid (taken_or_new cp idx n increment memory (free_pools cp idx)).0 idx
      (taken_or_new cp idx n increment memory (free_pools cp idx)).1 v' ready
