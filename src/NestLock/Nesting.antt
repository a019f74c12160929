-- ===== src/NestLock/Nesting.antt =====
-- Nested use of the lock of src/nest_lock.c.
use emlib.Prelude.{ℕ, zero, suc, ◌+◌, ◌<◌, ◌^◌, ◌≡◌, ◌≢◌, refl, ap, ◌∙◌, Bool, true, false, arith}
use emlib.NestLock.{NestMutex, succ, einval, failed, nest_mutex_lock, nest_mutex_unlock}

-- The thread takes the lock n times, and gives it up n times.
abbrev pub lock_all : ℕ → NestMutex → ℕ → NestMutex
lock_all zero m me = m
lock_all (suc n) m me = lock_all n (nest_mutex_lock m me true).1 me

abbrev pub unlock_all : ℕ → NestMutex → ℕ → NestMutex
unlock_all zero m me = m
unlock_all (suc n) m me = unlock_all n (nest_mutex_unlock m me true).1 me

abbrev pub free_mutex : ℕ → NestMutex
free_mutex base = record { who = 0; refcnt = 0; base = base }

abbrev pub owned : ℕ → ℕ → ℕ → NestMutex
owned me n base = record { who = me; refcnt = n; base = base }

module _ (me other : ℕ) (own : 0 < me) (ne : other ≢ me) where
  lock_owned :
      (n base : ℕ)
      → n + 1 < 2 ^ 31
      → (nest_mutex_lock (owned me n base) me true).1 ≡ owned me (n + 1) base
  unfolding nest_mutex_lock
  lock_owned n base h = ground arith

  lock_all-owned :
      (n k base : ℕ) → k + n < 2 ^ 31 → lock_all n (owned me k base) me ≡ owned me (k + n) base
  lock_all-owned zero k base h = ap (λ x. owned me x base) {x = k} {y = k + 0} (omega arith)
  lock_all-owned (suc n) k base h =
      ap (λ m. lock_all n m me) (lock_owned k base (omega arith))
      ∙ (lock_all-owned n (k + 1) base (omega arith)
          ∙ ap (λ x. owned me x base) {x = k + 1 + n} {y = k + suc n} (omega arith))

  unlock_owned :
      (n base : ℕ)
      → n + 2 < 2 ^ 31
      → (nest_mutex_unlock (owned me (suc (suc n)) base) me true).1 ≡ owned me (suc n) base
  unfolding nest_mutex_unlock
  unlock_owned n base h = ground arith

  unlock_last :
      (base : ℕ) → nest_mutex_unlock (owned me 1 (base + 1)) me true ≡ (succ, free_mutex base)
  unfolding nest_mutex_unlock
  unlock_last base = ground arith

  unlock_all-owned :
      (n base : ℕ)
      → n + 1 < 2 ^ 31
      → unlock_all (suc n) (owned me (suc n) (base + 1)) me ≡ free_mutex base
  unlock_all-owned zero base h = ap (λ r. r.1) (unlock_last base)
  unlock_all-owned (suc n) base h =
      ap (λ m. unlock_all (suc n) m me) (unlock_owned n (base + 1) (omega arith))
      ∙ unlock_all-owned n base (omega arith)

  first_lock : (base : ℕ) → (nest_mutex_lock (free_mutex base) me true).1 ≡ owned me 1 (base + 1)
  unfolding nest_mutex_lock
  first_lock base = ground arith

  -- The last unlock when em_unlock of the lock below fails.
  unlock_failed :
      (base : ℕ)
      → nest_mutex_unlock (owned me 1 (base + 1)) me false ≡ (failed, free_mutex (base + 1))
  unfolding nest_mutex_unlock
  unlock_failed base = ground arith

  refused_unlock :
      (n base : ℕ) (given_back : Bool)
      → nest_mutex_unlock (owned me (suc n) (base + 1)) other given_back
        ≡ (einval, owned me (suc n) (base + 1))
  unfolding nest_mutex_unlock
  refused_unlock n base given_back = ground arith

  refused_lock :
      (n base : ℕ)
      → nest_mutex_lock (owned me (suc n) (base + 1)) other false
        ≡ (failed, owned me (suc n) (base + 1))
  unfolding nest_mutex_lock
  refused_lock n base = ground arith

  locked :
      (n base : ℕ)
      → n + 1 < 2 ^ 31
      → lock_all (suc n) (free_mutex base) me ≡ owned me (suc n) (base + 1)
  locked n base h =
      ap (λ m. lock_all n m me) (first_lock base)
      ∙ (lock_all-owned n 1 (base + 1) (omega arith)
          ∙ ap (λ x. owned me x (base + 1)) {x = 1 + n} {y = suc n} (omega arith))

-- A thread with a positive number that takes a free nest lock n + 1 times, fewer than 2 ^ 31, takes
-- the lock below once and owns the nest lock at level n + 1; as many unlocks give the nest lock and
-- the lock below back as they were; and while it is owned, an unlock by another thread is refused
-- with EM_EINVAL, and a lock by another thread to which the lock below is not granted fails, both
-- without a change. When em_unlock of the lock below fails, the last unlock answers that failure,
-- and the nest lock is free while the lock below stays taken. A thread with the number 0, which is
-- LOCK_NO_BINDING, is told that it has a free nest lock when it takes one, whatever em_lock would
-- answer, and the lock below is not taken.
pub unlock_all-lock_all :
    (n me other base : ℕ)
    → 0 < me
    → n + 1 < 2 ^ 31
    → other ≢ me
    → (lock_all (suc n) (free_mutex base) me ≡ owned me (suc n) (base + 1))
      × (unlock_all (suc n) (lock_all (suc n) (free_mutex base) me) me ≡ free_mutex base)
      × ((given_back : Bool)
          → nest_mutex_unlock (owned me (suc n) (base + 1)) other given_back
            ≡ (einval, owned me (suc n) (base + 1)))
      × (nest_mutex_lock (owned me (suc n) (base + 1)) other false
          ≡ (failed, owned me (suc n) (base + 1)))
      × (nest_mutex_unlock (owned me 1 (base + 1)) me false ≡ (failed, free_mutex (base + 1)))
      × ((granted : Bool) → nest_mutex_lock (free_mutex base) 0 granted ≡ (succ, owned 0 1 base))
unfolding nest_mutex_lock
unlock_all-lock_all n me other base own h ne =
    let e = locked me other own ne n base h in
    (
      e,
      ap (λ m. unlock_all (suc n) m me) e ∙ unlock_all-owned me other own ne n base h,
      refused_unlock me other own ne n base,
      refused_lock me other own ne n base,
      unlock_failed me other own ne base,
      λ granted. refl,
    )
