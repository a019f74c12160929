-- ===== src/Pool/Fit.antt =====
-- Blocks of src/pool.c: `em_pool_alloc_from_block` and the search for a block with room.
use emlib.Prelude.{
  ℕ, ◌+◌, ◌-◌, ◌%◌, ◌≤◌, ◌<◌, ◌≡◌, refl, ap, ap₂, subst, Option, none, some, true, false, List, [],
  ◌∷◌, leb, arith, All, ◌⊎◌, inl, inr, Bool-cases,
}
use emlib.Pool.{
  Block, word, block_header, aligned_size, room, bump, alloc_from_block, first_fit, or_later,
}

-- The memory of a block, from its header to its end, is ordered and aligned.
pub record IsSound (b : Block) : Type 0 where
  pub header : b.address + block_header ≡ b.buf
  pub low : b.buf ≤ b.cur
  pub high : b.cur ≤ b.end
  pub fits : b.end < word
  pub aligned : b.cur % 4 ≡ 0

-- A byte that was handed out: it stands in a block before the allocation pointer.
abbrev pub InUse : List Block → ℕ → Type 0
InUse [] a = ⊥
InUse (b ∷ bs) a = ((b.buf ≤ a) × (a < b.cur)) ⊎ InUse bs a

-- Memory of other blocks.
abbrev pub Outside : ℕ → ℕ → Block → Type 0
Outside from to b = (b.end ≤ from) ⊎ (to ≤ b.address)

abbrev pub AreDisjoint : List Block → Type 0
AreDisjoint [] = Unit
AreDisjoint (b ∷ bs) = All (Outside b.address b.end) bs × AreDisjoint bs

abbrev pub AreSound : List Block → Type 0
AreSound bs = All IsSound bs × AreDisjoint bs

-- One of the blocks gave the bytes from p on, as many as the aligned size, and all others are as
-- they were.
abbrev pub Fit : ℕ → List Block → ℕ → List Block → Type 0
Fit s [] p bs' = ⊥
Fit s (b ∷ bs) p [] = ⊥
Fit s (b ∷ bs) p (b' ∷ bs') =
    ((s ≤ b.end - b.cur) × (p ≡ b.cur) × (b' ≡ bump b s) × (bs' ≡ bs)) ⊎ ((b' ≡ b) × Fit s bs p bs')

le_of_leb : (a b : ℕ) → leb a b ≡ true → a ≤ b
le_of_leb a b h = ground arith

lt_of_leb : (a b : ℕ) → leb a b ≡ false → b < a
lt_of_leb a b h = ground arith

pub room_lem : (b : Block) → IsSound b → room b ≡ b.end - b.cur
room_lem b v = omega (arith, v.high, v.fits)

pub aligned_size_lem :
    (size : ℕ)
    → size + 4 < word
    → (size ≤ aligned_size size) × (aligned_size size ≤ size + 3) × (aligned_size size % 4 ≡ 0)
aligned_size_lem size small = ground arith

pub alloc_from_block_cases :
    (b : Block) (size : ℕ)
    → IsSound b
    → ((alloc_from_block b size ≡ none) × (b.end - b.cur < aligned_size size))
      ⊎ ((alloc_from_block b size ≡ some (b.cur, bump b (aligned_size size)))
          × (aligned_size size ≤ b.end - b.cur))
unfolding alloc_from_block
alloc_from_block_cases b size v = elim (Bool-cases (leb (aligned_size size) (room b))) [
  | inl h ↦ inr (
    rw h refl,
    subst (λ r. aligned_size size ≤ r) (room_lem b v) (le_of_leb (aligned_size size) (room b) h),
  )
  | inr h ↦ inl (
    rw h refl,
    subst (λ r. r < aligned_size size) (room_lem b v) (lt_of_leb (aligned_size size) (room b) h),
  )
]

-- What a search for a block answers.
abbrev pub Searched : List Block → ℕ → Option (ℕ × List Block) → Type 0
Searched bs size answer =
    ((answer ≡ none) × All (λ b. b.end - b.cur < aligned_size size) bs)
    ⊎ ((p : ℕ) × (bs' : List Block) × (answer ≡ some (p, bs')) × Fit (aligned_size size) bs p bs')

pub first_fit_cases :
    (bs : List Block) (size : ℕ) → All IsSound bs → Searched bs size (first_fit bs size)
unfolding first_fit
first_fit_cases [] size v = inl (refl, tt)
first_fit_cases (b ∷ bs) size v = elim (alloc_from_block_cases b size v.0) [
  | inr (e, le) ↦ inr (
    b.cur,
    bump b (aligned_size size) ∷ bs,
    ap (λ r. or_later b bs r (first_fit bs size)) e,
    inl (le, refl, refl, refl),
  )
  | inl (e, lt) ↦ elim (first_fit_cases bs size v.1) [
    | inl (e', all) ↦ inl (ap₂ (or_later b bs) e e', (lt, all))
    | inr (p, bs', e', fit) ↦ inr (p, b ∷ bs', ap₂ (or_later b bs) e e', inr (refl, fit))
  ]
]
