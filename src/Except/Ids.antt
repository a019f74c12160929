-- ===== src/Except/Ids.antt =====
-- The ids of exceptions in src/except.c.
use emlib.Prelude.{
  ℕ, zero, suc, ◌+◌, ◌≤◌, ◌<◌, ◌≡◌, refl, subst, Option, none, some, arith, true, false, ◌⊎◌, inl,
  inr, Bool-cases,
}
use native.Mathlib.Decide.{ℕ_discrete}
use emlib.Except.{
  succ, etoomany, ExceptionStatus, is_null, set_name, alloc_from, exception_id_alloc,
}

-- What an allocation from i on, of n ids, answers.
abbrev pub Allocated :
    ℕ → ℕ → (ℕ → Option ℕ) → ℕ → ExceptionStatus × Option ℕ × (ℕ → Option ℕ) → Type 0
Allocated n i names name r =
    ((r ≡ (etoomany, none, names)) × ((k : ℕ) → i ≤ k → k < i + n → is_null (names k) ≡ false))
    ⊎ ((id : ℕ) × (r ≡ (succ, some id, set_name names id (some name)))
        × (i ≤ id)
        × (id < i + n)
        × (is_null (names id) ≡ true)
        × ((k : ℕ) → i ≤ k → k < id → is_null (names k) ≡ false))

from_next :
    (names : ℕ → Option ℕ) (i k : ℕ)
    → is_null (names i) ≡ false
    → i ≤ k
    → (i + 1 ≤ k → is_null (names k) ≡ false)
    → is_null (names k) ≡ false
from_next names i k e lo later = elim (ℕ_discrete i k) [
  | yes same ↦ subst (λ j. is_null (names j) ≡ false) same e
  | no ne ↦ later (omega arith)
]

alloc_from-Allocated :
    (n i : ℕ) (names : ℕ → Option ℕ) (name : ℕ)
    → Allocated n i names name (alloc_from n i names name)
alloc_from-Allocated zero i names name = inl (refl, λ k lo hi. absurd (omega arith))
alloc_from-Allocated (suc n) i names name = elim (Bool-cases (is_null (names i))) [
  | inl e ↦ rw e (inr (i, refl, omega arith, omega arith, e, λ k lo hi. absurd (omega arith)))
  | inr e ↦ rw e (elim (alloc_from-Allocated n (i + 1) names name) [
    | inl r ↦ inl (r.0, λ k lo hi. from_next names i k e lo (λ above. r.1 k above (omega arith)))
    | inr r ↦
        let (id, eq, lo, hi, null, before) = r in
        inr (
          id,
          eq,
          omega arith,
          omega arith,
          null,
          λ k lo' hi'. from_next names i k e lo' (λ above. before k above hi'),
        )
  ])
]

-- em_exception_id_alloc gives the least of the ids 1 to 15 that has no name, and names it; when all
-- have one it fails with EM_ETOOMANY and changes nothing.
pub exception_id_alloc_lem :
    (names : ℕ → Option ℕ) (name : ℕ) → Allocated 15 1 names name (exception_id_alloc names name)
unfolding exception_id_alloc
exception_id_alloc_lem names name = alloc_from-Allocated 15 1 names name
