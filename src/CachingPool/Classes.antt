-- ===== src/CachingPool/Classes.antt =====
-- The size classes of src/pool_caching.c and the search for one.
use emlib.Prelude.{
  ℕ, zero, suc, ◌-◌, ◌≤◌, ◌<◌, ◌≡◌, refl, List, [], ◌∷◌, arith, leb, ltb, Bool-cases, inl, inr,
  length, drop,
}
use emlib.CachingPool.{
  array_size, start_size, pool_sizes, nth, size_at, search_down, search_up, size_class,
}

-- Every element is below the next one.
abbrev IsAscending : List ℕ → Type 0
IsAscending [] = Unit
IsAscending (x ∷ []) = Unit
IsAscending (x ∷ y ∷ ys) = (x < y) × IsAscending (y ∷ ys)

nth-lt :
    (x : ℕ) (xs : List ℕ) (j : ℕ) → IsAscending (x ∷ xs) → j < length xs → nth (x ∷ xs) j < nth xs j
nth-lt x [] j h l = absurd (omega arith)
nth-lt x (y ∷ ys) zero h l = h.0
nth-lt x (y ∷ ys) (suc j) h l = nth-lt y ys j h.1 (omega arith)

pool_sizes-IsAscending : IsAscending pool_sizes
pool_sizes-IsAscending = ground arith

size_at-suc : (j : ℕ) → j < 15 → size_at j < size_at (suc j)
unfolding size_at
size_at-suc j l = nth-lt 256 (drop 1 pool_sizes) j pool_sizes-IsAscending l

-- The sizes ascend with their index.
pub size_at_mono : (j k : ℕ) → j ≤ k → k < 16 → size_at j ≤ size_at k
size_at_mono j zero h l = let first : j ≡ 0 = omega arith in rw first (omega arith)
size_at_mono j (suc k) h l = elim (Bool-cases (leb j k)) [
  | inl le ↦
      omega (arith, size_at_mono j k (ground arith) (omega arith), size_at-suc k (omega arith))
  | inr gt ↦ let last : j ≡ suc k = ground arith in rw last (omega arith)
]

-- c is the first class from which on a size holds n.
pub record IsClass (n c : ℕ) : Type 0 where
  pub bounded : c ≤ 16
  pub fits : c < 16 → n ≤ size_at c
  pub least : (j : ℕ) → j < c → size_at j < n

below : (n k j : ℕ) → k < 16 → size_at k < n → j ≤ k → size_at j < n
below n k j b lt h = omega (arith, size_at_mono j k h b, lt)

search_down_lem :
    (n k : ℕ) → k < 16 → n ≤ size_at k → (search_down n k ≤ k) × IsClass n (search_down n k)
unfolding search_down
search_down_lem n zero b h = (
  omega arith,
  record { bounded = omega arith; fits = λ l. h; least = λ j l. absurd (omega arith) },
)
search_down_lem n (suc idx) b h = elim (Bool-cases (leb n (size_at idx))) [
  | inl le ↦
      let (low, c) = search_down_lem n idx (omega arith) (ground arith) in rw le (omega arith, c)
  | inr gt ↦ rw gt (
    omega arith,
    record {
      bounded = omega arith;
      fits = λ l. h;
      least = λ j l. below n idx j (omega arith) (ground arith) (omega arith);
    },
  )
]

search_up_lem : (n m : ℕ) → m < 16 → size_at (15 - m) < n → IsClass n (search_up n m)
unfolding search_up
search_up_lem n zero b h = record {
  bounded = omega arith;
  fits = λ l. absurd (omega arith);
  least = λ j l. below n 15 j (omega arith) h (omega arith);
}
search_up_lem n (suc m) b h = elim (Bool-cases (ltb (size_at (array_size - suc m)) n)) [
  | inl lt ↦ rw lt (search_up_lem n m (omega arith) (grind arith))
  | inr ge ↦ rw ge record {
    bounded = omega arith;
    fits = λ l. ground arith;
    least = λ j l. below n (15 - suc m) j (omega arith) h (omega arith);
  }
]

-- The search of cpool_create_pool finds, for every requested size n, the least class whose size holds
-- n, or the class 16 if n is above all sizes of the table.
pub size_class_lem : (n : ℕ) → IsClass n (size_class n)
unfolding size_class
size_class_lem n = elim (Bool-cases (leb n (size_at start_size))) [
  | inl le ↦ rw le (search_down_lem n 5 (omega arith) (ground arith)).1
  | inr gt ↦ rw gt (search_up_lem n 10 (omega arith) (ground arith))
]

pub size_at_first : size_at 0 ≡ 256
unfolding size_at
size_at_first = refl

pub size_at_last : size_at 15 ≡ 65536
unfolding size_at
size_at_last = refl

pub size_at_bounds : (i : ℕ) → i < 16 → (256 ≤ size_at i) × (size_at i ≤ 65536)
size_at_bounds i h = (
  omega (arith, size_at_mono 0 i (omega arith) h, size_at_first),
  omega (arith, size_at_mono i 15 (omega arith) (omega arith), size_at_last),
)
