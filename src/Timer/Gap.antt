-- ===== src/Timer/Gap.antt =====
-- The heap order of src/timer.c with a gap: the slot whose entry is being moved. Each round of the
-- sifting loops fills the gap from above or from below and so moves it.
use emlib.Prelude.{ℕ, ◌<◌, ◌≡◌, ◌≢◌, arith}
use emlib.Time.{TimeVal}
use emlib.Time.Order.{NotAfter, NotAfter-trans}
use emlib.Timer.{put_at, parent}

-- No entry is due before its parent.
abbrev pub IsOrdered : (ℕ → TimeVal) → (ℕ → ℕ) → ℕ → Type 0
IsOrdered due heap n = (i : ℕ) → 0 < i → i < n → NotAfter (due (heap (parent i))) (due (heap i))

module _ (due : ℕ → TimeVal) (n : ℕ) where
  -- The order of all but the gap, and across it.
  pub record HasGap (heap : ℕ → ℕ) (gap : ℕ) : Type 0 where
    pub rest :
        (i : ℕ)
        → 0 < i
        → i < n
        → i ≢ gap
        → parent i ≢ gap
        → NotAfter (due (heap (parent i))) (due (heap i))
    pub across :
        (i : ℕ)
        → 0 < i
        → i < n
        → parent i ≡ gap
        → 0 < gap
        → NotAfter (due (heap (parent gap))) (due (heap i))

  -- The moved entry may stand above the gap's children, or below its parent.
  abbrev pub AboveChildren : (ℕ → ℕ) → ℕ → ℕ → Type 0
  AboveChildren heap gap moved =
      (i : ℕ) → 0 < i → i < n → parent i ≡ gap → NotAfter (due moved) (due (heap i))

  abbrev pub BelowParent : (ℕ → ℕ) → ℕ → ℕ → Type 0
  BelowParent heap gap moved = 0 < gap → NotAfter (due (heap (parent gap))) (due moved)

  module _ (heap : ℕ → ℕ) (gap moved : ℕ) (g : HasGap heap gap) where
    pub fill :
        AboveChildren heap gap moved
        → BelowParent heap gap moved
        → IsOrdered due (put_at heap gap moved) n
    fill above below i pos lt = ground (arith, g.rest i, above i, below)

    -- The parent comes down into the gap.
    pub up-HasGap : 0 < gap → HasGap (put_at heap gap (heap (parent gap))) (parent gap)
    up-HasGap pos = record {
      rest = λ i pos_i lt ne ne'. ground (arith, g.rest i, g.across i);
      across = λ i pos_i lt e pos_p. ground (
        arith,
        g.rest i,
        g.rest (parent gap),
        NotAfter-trans (due (heap (parent (parent gap)))) (due (heap (parent gap))) (due (heap i)),
      );
    }

    pub up-AboveChildren :
        0 < gap
        → NotAfter (due moved) (due (heap (parent gap)))
        → AboveChildren (put_at heap gap (heap (parent gap))) (parent gap) moved
    up-AboveChildren pos h i pos_i lt e =
        ground
          (arith, g.rest i, NotAfter-trans (due moved) (due (heap (parent gap))) (due (heap i)))

    module _ (c : ℕ) (child : parent c ≡ gap) (pos : 0 < c) (inside : c < n) where
      -- The child that is due first comes up into the gap.
      pub down-HasGap :
          ((i : ℕ) → 0 < i → i < n → parent i ≡ gap → NotAfter (due (heap c)) (due (heap i)))
          → HasGap (put_at heap gap (heap c)) c
      down-HasGap first = record {
        rest = λ i pos_i lt ne ne'. ground (arith, g.rest i, g.across c, first i);
        across = λ i pos_i lt e pos_p. ground (arith, g.rest i);
      }

      pub down-BelowParent :
          NotAfter (due (heap c)) (due moved) → BelowParent (put_at heap gap (heap c)) c moved
      down-BelowParent h pos_c = ground arith
