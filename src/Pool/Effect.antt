-- ===== src/Pool/Effect.antt =====
-- What taking memory from a block of src/pool.c does to the list of blocks.
use emlib.Prelude.{ℕ, ◌+◌, ◌-◌, ◌%◌, ◌≤◌, ◌<◌, ◌≡◌, List, [], ◌∷◌, arith, All, ◌⊎◌, inl, inr}
use emlib.Pool.{Block, bump, used_in}
use emlib.Pool.Fit.{IsSound, InUse, Outside, AreDisjoint, AreSound, Fit}

-- What a found block means for the whole list.
module _ (s : ℕ) (whole : s % 4 ≡ 0) where
  bump-IsSound : (b : Block) → IsSound b → s ≤ b.end - b.cur → IsSound (bump b s)
  bump-IsSound b v le = record {
    header = v.header;
    low = omega (arith, v.low);
    high = omega (arith, v.high);
    fits = v.fits;
    aligned = omega (arith, v.aligned);
  }

  pub Fit-IsSound :
      (bs : List Block) (p : ℕ) (bs' : List Block)
      → All IsSound bs
      → Fit s bs p bs'
      → All IsSound bs' × (p % 4 ≡ 0) × (used_in bs' ≡ used_in bs + s)
  Fit-IsSound [] p bs' v f = absurd f
  Fit-IsSound (b ∷ bs) p [] v f = absurd f
  Fit-IsSound (b ∷ bs) p (b' ∷ bs') v (inl f) =
      rw (f.2, f.3)
        (
          (bump-IsSound b v.0 f.0, v.1),
          rw f.1 v.0.aligned,
          omega (arith, v.0.low, v.0.high, v.0.fits, f.0),
        )
  Fit-IsSound (b ∷ bs) p (b' ∷ bs') v (inr f) =
      let (w, a, u) = Fit-IsSound bs p bs' v.1 f.1 in rw f.0 ((v.0, w), a, omega (arith, u))

  Fit-Outside :
      (from to : ℕ) (bs : List Block) (p : ℕ) (bs' : List Block)
      → All IsSound bs
      → All (Outside from to) bs
      → Fit s bs p bs'
      → All (Outside from to) bs' × ((p + s ≤ from) ⊎ (to ≤ p))
  Fit-Outside from to [] p bs' v o f = absurd f
  Fit-Outside from to (b ∷ bs) p [] v o f = absurd f
  Fit-Outside from to (b ∷ bs) p (b' ∷ bs') v o (inl f) =
      rw (f.2, f.3) (o, ground (arith, o.0, f.1, v.0.low, v.0.high, f.0, v.0.header))
  Fit-Outside from to (b ∷ bs) p (b' ∷ bs') v o (inr f) =
      let (w, far) = Fit-Outside from to bs p bs' v.1 o.1 f.1 in rw f.0 ((o.0, w), far)

  pub Fit-AreDisjoint :
      (bs : List Block) (p : ℕ) (bs' : List Block) → AreSound bs → Fit s bs p bs' → AreDisjoint bs'
  Fit-AreDisjoint [] p bs' v f = absurd f
  Fit-AreDisjoint (b ∷ bs) p [] v f = absurd f
  Fit-AreDisjoint (b ∷ bs) p (b' ∷ bs') v (inl f) = rw (f.2, f.3) v.1
  Fit-AreDisjoint (b ∷ bs) p (b' ∷ bs') v (inr f) = rw f.0 (
    (Fit-Outside b.address b.end bs p bs' v.0.1 v.1.0 f.1).0,
    Fit-AreDisjoint bs p bs' (v.0.1, v.1.1) f.1,
  )

  -- Used bytes stay used, and all the new ones are used.
  pub Fit-InUse :
      (bs : List Block) (p : ℕ) (bs' : List Block) (a : ℕ)
      → All IsSound bs
      → Fit s bs p bs'
      → InUse bs a ⊎ ((p ≤ a) × (a < p + s))
      → InUse bs' a
  Fit-InUse [] p bs' a v f u = absurd f
  Fit-InUse (b ∷ bs) p [] a v f u = absurd f
  Fit-InUse (b ∷ bs) p (b' ∷ bs') a v (inl f) (inl (inl u)) =
      rw (f.2, f.3) (inl (omega arith, omega arith))
  Fit-InUse (b ∷ bs) p (b' ∷ bs') a v (inl f) (inl (inr u)) = rw (f.2, f.3) (inr u)
  Fit-InUse (b ∷ bs) p (b' ∷ bs') a v (inl f) (inr u) =
      rw (f.2, f.3) (inl (omega (arith, f.1, v.0.low), omega (arith, f.1)))
  Fit-InUse (b ∷ bs) p (b' ∷ bs') a v (inr f) (inl (inl u)) = rw f.0 (inl u)
  Fit-InUse (b ∷ bs) p (b' ∷ bs') a v (inr f) (inl (inr u)) =
      rw f.0 (inr (Fit-InUse bs p bs' a v.1 f.1 (inl u)))
  Fit-InUse (b ∷ bs) p (b' ∷ bs') a v (inr f) (inr u) =
      rw f.0 (inr (Fit-InUse bs p bs' a v.1 f.1 (inr u)))

  -- Used bytes of blocks stand inside of them.
  InUse-Outside :
      (from to a : ℕ) (bs : List Block)
      → All IsSound bs
      → All (Outside from to) bs
      → InUse bs a
      → (a < from) ⊎ (to ≤ a)
  InUse-Outside from to a [] v o u = absurd u
  InUse-Outside from to a (b ∷ bs) v o (inl u) = ground (arith, o.0, v.0.low, v.0.high, v.0.header)
  InUse-Outside from to a (b ∷ bs) v o (inr u) = InUse-Outside from to a bs v.1 o.1 u

  -- None of the new bytes was used.
  pub Fit-fresh :
      (bs : List Block) (p : ℕ) (bs' : List Block) (a : ℕ)
      → AreSound bs
      → Fit s bs p bs'
      → p ≤ a
      → a < p + s
      → ¬ InUse bs a
  Fit-fresh [] p bs' a v f lo hi u = absurd f
  Fit-fresh (b ∷ bs) p [] a v f lo hi u = absurd f
  Fit-fresh (b ∷ bs) p (b' ∷ bs') a v (inl f) lo hi (inl u) = absurd (omega (arith, f.1))
  Fit-fresh (b ∷ bs) p (b' ∷ bs') a v (inl f) lo hi (inr u) = ground (
    arith,
    InUse-Outside b.address b.end a bs v.0.1 v.1.0 u,
    f.1,
    f.0,
    v.0.0.low,
    v.0.0.high,
    v.0.0.header,
  )
  Fit-fresh (b ∷ bs) p (b' ∷ bs') a v (inr f) lo hi (inl u) = ground (
    arith,
    (Fit-Outside b.address b.end bs p bs' v.0.1 v.1.0 f.1).1,
    v.0.0.low,
    v.0.0.high,
    v.0.0.header,
  )
  Fit-fresh (b ∷ bs) p (b' ∷ bs') a v (inr f) lo hi (inr u) =
      Fit-fresh bs p bs' a (v.0.1, v.1.1) f.1 lo hi u
