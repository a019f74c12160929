-- ===== src/Pool/Alloc.antt =====
-- `em_pool_alloc` of include/em/pool_i.h with `em_pool_allocate_find` of src/pool.c.
use emlib.Prelude.{ℕ, ◌+◌, ◌-◌, ◌*◌, ◌/◌, ◌%◌, ◌≤◌, ◌<◌, ◌≡◌, refl, List, [], ◌∷◌, arith, inl, inr}
use native.Mathlib.Nat.{mod-lt, mod-add-div'}
use emlib.Pool.{
  Block, Pool, word, block_header, pool_header, aligned_size, new_block_size, fresh_block,
}
use emlib.Pool.Fit.{IsSound, InUse, AreSound, Fit, aligned_size_lem}
use emlib.Pool.Effect.{Fit-IsSound, Fit-AreDisjoint, Fit-InUse, Fit-fresh}

-- The bytes of the blocks, headers included.
abbrev pub extents : List Block → ℕ
extents [] = 0
extents (b ∷ bs) = b.end - b.address + extents bs

pub record IsValid (pool : Pool) : Type 0 where
  pub sound : AreSound pool.blocks
  pub capacity : pool.capacity ≡ pool_header + extents pool.blocks
  pub fits : pool.capacity < word

-- The memory given is aligned and was not in use, and it is in use now with all that was.
pub record Gave (pool : Pool) (size p : ℕ) (pool' : Pool) : Type 0 where
  pub valid : IsValid pool'
  pub aligned : p % 4 ≡ 0
  pub fresh : (a : ℕ) → p ≤ a → a < p + size → ¬ InUse pool.blocks a
  pub taken : (a : ℕ) → p ≤ a → a < p + size → InUse pool'.blocks a
  pub kept : (a : ℕ) → InUse pool.blocks a → InUse pool'.blocks a

Fit-extents :
    (s : ℕ) (bs : List Block) (p : ℕ) (bs' : List Block) → Fit s bs p bs' → extents bs' ≡ extents bs
Fit-extents s [] p bs' f = absurd f
Fit-extents s (b ∷ bs) p [] f = absurd f
Fit-extents s (b ∷ bs) p (b' ∷ bs') (inl f) = rw (f.2, f.3) refl
Fit-extents s (b ∷ bs) p (b' ∷ bs') (inr f) = rw (f.0, Fit-extents s bs p bs' f.1) refl

in_aligned : (a p size s : ℕ) → size ≤ s → a < p + size → a < p + s
in_aligned a p size s le h = omega arith

-- Memory from one of the blocks of the pool.
pub Fit-Gave :
    (pool : Pool) (size p : ℕ) (bs' : List Block)
    → IsValid pool
    → size + 4 < word
    → Fit (aligned_size size) pool.blocks p bs'
    → Gave pool size p (record pool { blocks = bs' })
Fit-Gave pool size p bs' v small fit =
    let s = aligned_size size in
    let (le, _, whole) = aligned_size_lem size small in
    let (sound, at, _) = Fit-IsSound s whole pool.blocks p bs' v.sound.0 fit in
    record {
      valid = record {
        sound = (sound, Fit-AreDisjoint s whole pool.blocks p bs' v.sound fit);
        capacity = rw (Fit-extents s pool.blocks p bs' fit) v.capacity;
        fits = v.fits;
      };
      aligned = at;
      fresh = λ a lo hi.
          Fit-fresh s whole pool.blocks p bs' a v.sound fit lo (in_aligned a p size s le hi);
      taken = λ a lo hi.
          Fit-InUse s whole pool.blocks p bs' a v.sound.0 fit
            (inr (lo, in_aligned a p size s le hi));
      kept = λ a used. Fit-InUse s whole pool.blocks p bs' a v.sound.0 fit (inl used);
    }

-- The size of a new block.
whole_multiple : (x d : ℕ) → 0 < d → (x / d * d ≤ x) × (x < x / d * d + d)
whole_multiple x d h =
    (omega (arith, mod-add-div' x d, mod-lt x h), omega (arith, mod-add-div' x d, mod-lt x h))

pub new_block_size_lem :
    (increment size : ℕ)
    → 0 < increment
    → size + increment + 44 < word
    → (size + 44 ≤ new_block_size increment size)
      × (new_block_size increment size ≤ size + increment + 44)
new_block_size_lem increment size h small =
    let (lo, hi) = whole_multiple ((size + increment + 44) % word) increment h in
    ground (arith, lo, hi)

-- The first block gives the memory when it is new and large enough.
pub fresh_block-IsSound :
    (m n : ℕ) → m % 4 ≡ 0 → block_header ≤ n → m + n < word → IsSound (fresh_block m n)
fresh_block-IsSound m n at large small = record {
  header = refl;
  low = omega arith;
  high = omega arith;
  fits = small;
  aligned = omega arith;
}
