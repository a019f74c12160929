-- ===== src/PoolBuf/Confined.antt =====
-- Allocations from a pool of src/pool_buf.c, which has one block and no increment.
use emlib.Prelude.{
  ℕ, ◌+◌, ◌-◌, ◌≤◌, ◌<◌, ◌≡◌, refl, sym, ap, subst, Option, none, some, List, [], ◌∷◌, arith, All,
  inl, inr,
}
use emlib.Pool.{
  Block, Pool, word, aligned_size, bump, alloc_from_block, first_fit, alloc, allocate_find, expand,
}
use emlib.Pool.Fit.{IsSound, Fit, alloc_from_block_cases, aligned_size_lem}
use emlib.Pool.Alloc.{IsValid, Fit-Gave}

-- Requests: the size of each, and what block_alloc would return if it were called.
abbrev pub Request : Type 0
Request = ℕ × Option ℕ

abbrev pub alloc_each : Pool → List Request → List (Option ℕ) × Pool
alloc_each pool [] = ([], pool)
alloc_each pool ((size, memory) ∷ rs) =
    let r = alloc pool size memory in let later = alloc_each r.1 rs in (r.0 ∷ later.0, later.1)

abbrev pub unoffered : List Request → List Request
unoffered [] = []
unoffered ((size, memory) ∷ rs) = (size, none) ∷ unoffered rs

-- The answers to requests: NULL, or as many bytes as asked for between the two addresses.
abbrev pub IsInside : ℕ → ℕ → ℕ → Option ℕ → Type 0
IsInside lo hi size none = Unit
IsInside lo hi size (some p) = (lo ≤ p) × (p + size ≤ hi)

abbrev pub AreInside : ℕ → ℕ → List Request → List (Option ℕ) → Type 0
AreInside lo hi [] [] = Unit
AreInside lo hi [] (p ∷ ps) = ⊥
AreInside lo hi (r ∷ rs) [] = ⊥
AreInside lo hi (r ∷ rs) (p ∷ ps) = IsInside lo hi r.0 p × AreInside lo hi rs ps

-- A valid pool of one block between the two addresses that may not grow.
pub record IsConfined (lo hi : ℕ) (pool : Pool) : Type 0 where
  pub valid : IsValid pool
  pub block : Block
  pub only : pool.blocks ≡ block ∷ []
  pub start : lo ≤ block.buf
  pub end : block.end ≡ hi
  pub fixed : pool.increment_size ≡ 0

alloc-never_asks :
    (pool : Pool) (size : ℕ) (memory : Option ℕ)
    → pool.increment_size ≡ 0
    → alloc pool size memory ≡ alloc pool size none
unfolding alloc allocate_find expand
alloc-never_asks pool size memory e = rw e refl

module _ (lo hi : ℕ) (pool : Pool) (c : IsConfined lo hi pool) (size : ℕ)
    (small : size + 4 < word) where
  sound : IsSound c.block
  sound = (subst (All IsSound) c.only c.valid.sound.0).0

  abbrev smaller : Pool
  smaller = record pool { blocks = bump c.block (aligned_size size) ∷ [] }

  alloc-full : alloc_from_block c.block size ≡ none → alloc pool size none ≡ (none, pool, size ∷ [])
  unfolding alloc allocate_find expand first_fit
  alloc-full e = rw (c.only, e, c.fixed) refl

  alloc-fits :
      alloc_from_block c.block size ≡ some (c.block.cur, bump c.block (aligned_size size))
      → alloc pool size none ≡ (some c.block.cur, smaller, [])
  unfolding alloc
  alloc-fits e = rw (c.only, e) refl

  smaller-IsConfined : aligned_size size ≤ c.block.end - c.block.cur → IsConfined lo hi smaller
  smaller-IsConfined le =
      let after = bump c.block (aligned_size size) ∷ [] in
      let fit =
        subst (λ bs. Fit (aligned_size size) bs c.block.cur after) (sym c.only)
          (inl (le, refl, refl, refl)) in
      record {
        valid = (Fit-Gave pool size c.block.cur after c.valid small fit).valid;
        block = bump c.block (aligned_size size);
        only = refl;
        start = c.start;
        end = c.end;
        fixed = c.fixed;
      }

  inside : aligned_size size ≤ c.block.end - c.block.cur → IsInside lo hi size (some c.block.cur)
  inside le =
      let at_least = (aligned_size_lem size small).0 in
      (omega (arith, c.start, sound.low), omega (arith, le, at_least, c.end, sound.high))

  step :
      (p : Option ℕ) × (pool' : Pool) × (asked : List ℕ) × (alloc pool size none
        ≡ (p, pool', asked))
      × IsConfined lo hi pool'
      × IsInside lo hi size p
  step = elim (alloc_from_block_cases c.block size sound) [
    | inl (e, _) ↦ (none, pool, size ∷ [], alloc-full e, c, tt)
    | inr (e, le) ↦ (some c.block.cur, smaller, [], alloc-fits e, smaller-IsConfined le, inside le)
  ]

-- Any sequence of requests: the answers do not depend on the memory that block_alloc would give.
pub alloc_each-IsConfined :
    (lo hi : ℕ) (pool : Pool) (rs : List Request)
    → IsConfined lo hi pool
    → All (λ r. r.0 + 4 < word) rs
    → (alloc_each pool rs ≡ alloc_each pool (unoffered rs))
      × IsConfined lo hi (alloc_each pool rs).1
      × AreInside lo hi rs (alloc_each pool rs).0
alloc_each-IsConfined lo hi pool [] c small = (refl, c, tt)
alloc_each-IsConfined lo hi pool ((size, memory) ∷ rs) c small =
    let (p, pool', asked, e, c', inside) = step lo hi pool c size small.0 in
    let (same, last, answers) = alloc_each-IsConfined lo hi pool' rs c' small.1 in
    let first = alloc-never_asks pool size memory c.fixed in
    rw (first, e) (ap (λ later. (p ∷ later.0, later.1)) same, last, (inside, answers))
