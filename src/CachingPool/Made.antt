-- ===== src/CachingPool/Made.antt =====
-- The block that a pool of src/pool.c was created with stays its last one, through allocations and
-- up to a reset; used for the pools that src/pool_caching.c keeps.
use emlib.Prelude.{
  ℕ, ◌+◌, ◌-◌, ◌%◌, ◌≤◌, ◌<◌, ◌≡◌, refl, ap, Option, none, some, List, [], ◌∷◌, arith, leb, ◌==◌,
  Bool-cases, inl, inr,
}
use emlib.Pool.{
  Block, Pool, word, pool_header, block_header, aligned_size, room, bump, alloc_from_block,
  or_later, first_fit, front_block, new_block_size, fresh_block, create_block, given, from_created,
  expand, or_else, allocate_find, alloc, created, last_block, reset, reset_blocks, rewound,
}

-- The last block stands behind the header of the pool at p, in n bytes.
abbrev pub Stands : ℕ → ℕ → List Block → Type 0
Stands p n [] = ⊥
Stands p n (b ∷ bs) =
    let l = last_block b bs in
    (l.address ≡ p + pool_header) × (l.buf ≡ p + pool_header + block_header) × (l.end ≡ p + n)

-- The pool was created with n bytes.
pub record IsMade (n : ℕ) (pool : Pool) : Type 0 where
  pub stands : Stands pool.address n pool.blocks
  pub small : n < word
  pub capacity : n ≤ pool.capacity

bump-Stands :
    (p n : ℕ) (b : Block) (bs : List Block) (k : ℕ)
    → Stands p n (b ∷ bs)
    → Stands p n (bump b k ∷ bs)
bump-Stands p n b [] k h = h
bump-Stands p n b (c ∷ bs) k h = h

cons-Stands : (p n : ℕ) (b : Block) (bs : List Block) → Stands p n bs → Stands p n (b ∷ bs)
cons-Stands p n b [] h = absurd h
cons-Stands p n b (c ∷ bs) h = h

-- What is found keeps the last block.
abbrev Keeps : ℕ → ℕ → Option (ℕ × List Block) → Type 0
Keeps p n none = Unit
Keeps p n (some r) = Stands p n r.1

later-Keeps :
    (p n : ℕ) (b : Block) (bs : List Block) (later : Option (ℕ × List Block))
    → Keeps p n later
    → Keeps p n (or_later b bs none later)
later-Keeps p n b bs none h = tt
later-Keeps p n b bs (some r) h = cons-Stands p n b r.1 h

or_later-Keeps :
    (p n : ℕ) (b : Block) (bs : List Block) (size : ℕ) (later : Option (ℕ × List Block))
    → Stands p n (b ∷ bs)
    → Keeps p n later
    → Keeps p n (or_later b bs (alloc_from_block b size) later)
unfolding alloc_from_block
or_later-Keeps p n b bs size later h k = elim (Bool-cases (leb (aligned_size size) (room b))) [
  | inl fits ↦ rw fits (bump-Stands p n b bs (aligned_size size) h)
  | inr full ↦ rw full (later-Keeps p n b bs later k)
]

first_fit-Keeps :
    (p n : ℕ) (bs : List Block) (size : ℕ) → Stands p n bs → Keeps p n (first_fit bs size)
unfolding first_fit
first_fit-Keeps p n [] size h = tt
first_fit-Keeps p n (b ∷ []) size h = or_later-Keeps p n b [] size none h tt
first_fit-Keeps p n (b ∷ c ∷ bs) size h =
    or_later-Keeps p n b (c ∷ bs) size (first_fit (c ∷ bs) size) h
      (first_fit-Keeps p n (c ∷ bs) size h)

front_block-Keeps :
    (p n : ℕ) (bs : List Block) (size : ℕ) → Stands p n bs → Keeps p n (front_block bs size)
front_block-Keeps p n [] size h = tt
front_block-Keeps p n (b ∷ bs) size h = or_later-Keeps p n b bs size none h tt

-- The result of an allocation on a pool at p.
abbrev Made : ℕ → ℕ → Pool → Type 0
Made p n pool = (pool.address ≡ p) × IsMade n pool

or_else-Made :
    (n : ℕ) (pool : Pool) (found : Option (ℕ × List Block)) (later : Option ℕ × Pool × List ℕ)
    → IsMade n pool
    → Keeps pool.address n found
    → Made pool.address n later.1
    → Made pool.address n (or_else pool found later).1
or_else-Made n pool none later m k l = l
or_else-Made n pool (some r) later m k l =
    (refl, record { stands = k; small = m.small; capacity = m.capacity })

given-Made :
    (n : ℕ) (pool : Pool) (b : Block) (bs : List Block) (size : ℕ)
    → IsMade n pool
    → Stands pool.address n bs
    → Made pool.address n (given pool bs (alloc_from_block b size)).1
unfolding alloc_from_block
given-Made n pool b bs size m s = elim (Bool-cases (leb (aligned_size size) (room b))) [
  | inl fits ↦ rw fits (
    refl,
    record {
      stands = cons-Stands pool.address n (bump b (aligned_size size)) bs s;
      small = m.small;
      capacity = m.capacity;
    },
  )
  | inr full ↦ rw full (refl, m)
]

expand-Made :
    (n : ℕ) (pool : Pool) (size : ℕ) (memory : Option ℕ)
    → IsMade n pool
    → pool.capacity + new_block_size pool.increment_size size < word
    → Made pool.address n (expand pool size memory).1
unfolding expand create_block
expand-Made n pool size memory m t = elim (Bool-cases (pool.increment_size == 0)) [
  | inl fixed ↦ rw fixed (refl, m)
  | inr grows ↦ rw grows (block_added memory)
]
  where
    block_added :
        (memory : Option ℕ)
        → Made pool.address n
            (from_created pool size
              (new_block_size pool.increment_size size)
              (create_block pool (new_block_size pool.increment_size size) memory)).1
    block_added none = (refl, m)
    block_added (some p) =
        given-Made n
          (record pool {
            capacity = (pool.capacity + new_block_size pool.increment_size size) % word;
            blocks = fresh_block p (new_block_size pool.increment_size size) ∷ pool.blocks;
          })
          (fresh_block p (new_block_size pool.increment_size size)) pool.blocks size
          (record {
            stands =
                cons-Stands pool.address n (fresh_block p (new_block_size pool.increment_size size))
                  pool.blocks m.stands;
            small = m.small;
            capacity = omega (arith, m.capacity);
          })
          m.stands

pub alloc-Made :
    (n : ℕ) (pool : Pool) (size : ℕ) (memory : Option ℕ)
    → IsMade n pool
    → pool.capacity + new_block_size pool.increment_size size < word
    → ((alloc pool size memory).1.address ≡ pool.address) × IsMade n (alloc pool size memory).1
unfolding alloc allocate_find
alloc-Made n pool size memory m t =
    or_else-Made n pool (front_block pool.blocks size) (allocate_find pool size memory) m
      (front_block-Keeps pool.address n pool.blocks size m.stands)
      (or_else-Made n pool (first_fit pool.blocks size) (expand pool size memory) m
        (first_fit-Keeps pool.address n pool.blocks size m.stands)
        (expand-Made n pool size memory m t))

pub created-IsMade : (p n increment : ℕ) → n < word → IsMade n (created p n increment)
created-IsMade p n increment small = record {
  stands = (refl, refl, refl);
  small = small;
  capacity = omega arith;
}

rewound-created :
    (pool : Pool) (n : ℕ) (l : Block)
    → n < word
    → l.address ≡ pool.address + pool_header
    → l.buf ≡ pool.address + pool_header + block_header
    → l.end ≡ pool.address + n
    → rewound pool l ≡ created pool.address n pool.increment_size
rewound-created pool n l small a b e =
    rw (a, b, e)
      (ap (λ c. record (created pool.address n pool.increment_size) { capacity = c })
        {x = (pool.address + n + word - pool.address) % word} {y = n} (omega arith))

reset_blocks-created :
    (pool : Pool) (n : ℕ) (bs : List Block)
    → n < word
    → Stands pool.address n bs
    → (reset_blocks pool bs).1 ≡ created pool.address n pool.increment_size
unfolding reset_blocks
reset_blocks-created pool n [] small s = absurd s
reset_blocks-created pool n (b ∷ bs) small s =
    rewound-created pool n (last_block b bs) small s.0 s.1 s.2

-- A reset leaves the pool as it was created.
pub reset-Made :
    (n : ℕ) (pool : Pool)
    → IsMade n pool
    → (reset pool).1 ≡ created pool.address n pool.increment_size
reset-Made n pool m = reset_blocks-created pool n pool.blocks m.small m.stands
