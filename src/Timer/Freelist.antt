-- ===== src/Timer/Freelist.antt =====
-- The free list of src/timer.c inside the table of ids: a free id holds the negated next one, and
-- the id after the last stands for the end.
use emlib.Prelude.{
  ℕ, zero, suc, ◌+◌, ◌≤◌, ◌<◌, ◌≡◌, ◌≢◌, refl, ap, subst, List, [], ◌∷◌, arith, All, All-mono,
  Avoids, Distinct, length,
}
use emlib.Prelude.Int.{ℤ, pos, negsuc, neg, pos_part, neg_part, eq_ℤ_iff, neg-neg}
use emlib.Timer.{put_id}

-- An id within the table whose entry there is no slot.
abbrev pub IsIdle : (ℤ → ℤ) → ℕ → ℕ → Type 0
IsIdle ids max k = (0 < k) × (k < max) × (0 < neg_part (ids (pos k)))

-- From `f` on the free list runs through the ids given.
abbrev pub Chain : (ℤ → ℤ) → ℕ → ℤ → List ℕ → Type 0
Chain ids max f [] = f ≡ pos max
Chain ids max f (k ∷ l) = (f ≡ pos k) × (0 < k) × (k < max) × Chain ids max (neg (ids (pos k))) l

module _ (max : ℕ) (room : 0 < max) where
  pub Chain-positive : (ids : ℤ → ℤ) (f : ℤ) (l : List ℕ) → Chain ids max f l → 0 < pos_part f
  Chain-positive ids f [] c = ground arith
  Chain-positive ids f (k ∷ l) c = ground arith

  pub Chain-IsIdle : (ids : ℤ → ℤ) (f : ℤ) (l : List ℕ) → Chain ids max f l → All (IsIdle ids max) l
  Chain-IsIdle ids f [] c = tt
  Chain-IsIdle ids f (k ∷ l) c = (
    (c.1, c.2, ground (arith, Chain-positive ids (neg (ids (pos k))) l c.3)),
    Chain-IsIdle ids (neg (ids (pos k))) l c.3,
  )

  -- A change of the table outside of the free list does not touch it.
  pub Chain-frame :
      (ids ids' : ℤ → ℤ) (f : ℤ) (l : List ℕ)
      → All (λ k. ids' (pos k) ≡ ids (pos k)) l
      → Chain ids max f l
      → Chain ids' max f l
  Chain-frame ids ids' f [] same c = c
  Chain-frame ids ids' f (k ∷ l) same c =
      (c.0, c.1, c.2, Chain-frame ids ids' (neg (ids' (pos k))) l same.1 (rw same.0 c.3))

  -- `push_freelist` of an id that is not in the list.
  pub Chain-push :
      (ids : ℤ → ℤ) (f : ℤ) (l : List ℕ) (k : ℕ)
      → Chain ids max f l
      → 0 < k
      → k < max
      → Avoids k l
      → Chain (put_id ids (pos k) (neg f)) max (pos k) (k ∷ l)
  Chain-push ids f l k c h lt av = (
    refl,
    h,
    lt,
    rw ((eq_ℤ_iff (pos k) (pos k)).1 refl, neg-neg f)
        (Chain-frame ids (put_id ids (pos k) (neg f)) f l
          (All-mono (λ x. x ≢ k) (λ x. put_id ids (pos k) (neg f) (pos x) ≡ ids (pos x)) l
            (λ x ne. ground arith) av)
          c),
  )

-- The ids from `k` on, n of them.
abbrev pub ids_from : ℕ → ℕ → List ℕ
ids_from k zero = []
ids_from k (suc n) = k ∷ ids_from (k + 1) n

pub length-ids_from : (k n : ℕ) → length (ids_from k n) ≡ n
length-ids_from k zero = refl
length-ids_from k (suc n) = ap suc (length-ids_from (k + 1) n)

pub ids_from-ge : (b k n : ℕ) → b ≤ k → All (λ x. b ≤ x) (ids_from k n)
ids_from-ge b k zero h = tt
ids_from-ge b k (suc n) h = (h, ids_from-ge b (k + 1) n (omega arith))

pub ids_from-Distinct : (k n : ℕ) → Distinct (ids_from k n)
ids_from-Distinct k zero = tt
ids_from-Distinct k (suc n) = (
  All-mono (λ x. k + 1 ≤ x) (λ x. x ≢ k) (ids_from (k + 1) n) (λ x h. omega arith)
      (ids_from-ge (k + 1) (k + 1) n (omega arith)),
  ids_from-Distinct (k + 1) n,
)

-- Ids that hold the negated next one form a free list.
pub Chain-ids_from :
    (ids : ℤ → ℤ) (max k n : ℕ)
    → ((x : ℕ) → k ≤ x → x < max → ids (pos x) ≡ negsuc x)
    → 0 < k
    → k + n ≡ max
    → Chain ids max (pos k) (ids_from k n)
Chain-ids_from ids max k zero next h e = ap pos (omega arith)
Chain-ids_from ids max k (suc n) next h e = (
  refl,
  h,
  omega arith,
  rw (next k (omega arith) (omega arith)) (
      subst (λ f. Chain ids max f (ids_from (k + 1) n)) {x = pos (k + 1)} {y = neg (negsuc k)}
        (ground arith)
        (Chain-ids_from ids max (k + 1) n (λ x le lt. next x (omega arith) lt) (omega arith)
          (omega arith))),
)
