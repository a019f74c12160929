-- ===== src/Pool/Reset.antt =====
-- Creation and reset of the pools of src/pool.c, and their accounting.
use emlib.Prelude.{
  ℕ, ◌+◌, ◌-◌, ◌%◌, ◌≤◌, ◌<◌, ◌≡◌, refl, ap, none, some, List, [], ◌∷◌, ◌++◌, arith, All, false,
  ltb,
}
use emlib.Pool.{
  Block, Pool, word, block_header, pool_header, created, create_int, reset, reset_blocks, rewound,
  last_block, used_in, used_size,
}
use emlib.Pool.Fit.{IsSound, InUse}
use emlib.Pool.Alloc.{IsValid, extents}

large_enough :
    (initial : ℕ)
    → pool_header + block_header ≤ initial
    → ltb initial (pool_header + block_header) ≡ false
large_enough initial h = ground arith

-- em_pool_create_int fails without memory and for a size below the two headers; with aligned memory
-- for a size that is at least theirs, it makes a valid pool of that capacity in which nothing is in
-- use.
pub create_int-IsValid :
    (p initial increment : ℕ)
    → p % 4 ≡ 0
    → pool_header + block_header ≤ initial
    → p + initial < word
    → (create_int none initial increment ≡ none)
      × (create_int (some p) 167 increment ≡ none)
      × (create_int (some p) initial increment ≡ some (created p initial increment))
      × IsValid (created p initial increment)
      × ((a : ℕ) → ¬ InUse (created p initial increment).blocks a)
unfolding create_int
create_int-IsValid p initial increment at large small = (
  refl,
  refl,
  rw (large_enough initial large) refl,
  record {
    sound = (
      (
        record {
          header = refl;
          low = omega arith;
          high = omega arith;
          fits = small;
          aligned = omega arith;
        },
        tt,
      ),
      (tt, tt),
    );
    capacity = omega arith;
    fits = omega arith;
  },
  λ a used. ground arith,
)

used_in-le : (bs : List Block) → All IsSound bs → used_in bs ≤ extents bs
used_in-le [] v = omega arith
used_in-le (b ∷ bs) v = omega (arith, used_in-le bs v.1, v.0.header, v.0.low, v.0.high, v.0.fits)

-- On a valid pool em_pool_get_used_size is not more than em_pool_get_capacity.
pub used_size-le : (pool : Pool) → IsValid pool → used_size pool ≤ pool.capacity
used_size-le pool v = omega (arith, used_in-le pool.blocks v.sound.0, v.capacity, v.fits)

last_block-append : (b : Block) (bs : List Block) (c : Block) → last_block b (bs ++ (c ∷ [])) ≡ c
last_block-append b [] c = refl
last_block-append b (d ∷ bs) c = last_block-append d bs c

-- The block that a new pool has.
abbrev pub first_block : ℕ → ℕ → ℕ → Block
first_block p initial cur = record {
  address = p + pool_header;
  buf = p + pool_header + block_header;
  cur = cur;
  end = p + initial;
}

rewound-created :
    (p initial increment cap cur : ℕ) (bs : List Block)
    → initial < word
    → rewound
        (record (created p initial increment) { capacity = cap; blocks = bs })
        (first_block p initial cur)
      ≡ created p initial increment
rewound-created p initial increment cap cur bs small =
    ap (λ c. record (created p initial increment) { capacity = c })
      {x = (p + initial + word - p) % word} {y = initial} (omega arith)

-- em_pool_reset of a pool whose last block is the one that it was created with, whatever blocks were
-- added before it, and whatever was taken of it, makes the pool exactly what em_pool_create_int made.
pub reset-created :
    (p initial increment cap cur : ℕ) (bs : List Block)
    → initial < word
    → (reset (record (created p initial increment) {
      capacity = cap;
      blocks = bs ++ (first_block p initial cur ∷ []);
    })).1
      ≡ created p initial increment
unfolding reset_blocks
reset-created p initial increment cap cur [] small =
    rewound-created p initial increment cap cur (first_block p initial cur ∷ []) small
reset-created p initial increment cap cur (b ∷ bs) small =
    rw (last_block-append b bs (first_block p initial cur)) (
      rewound-created p initial increment cap cur (b ∷ (bs ++ (first_block p initial cur ∷ [])))
        small)
