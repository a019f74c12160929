-- ===== src/Mutex/Tests.antt =====
-- A recursive mutex and the threads 1 and 2.
use emlib.Prelude.{
  ℕ, zero, suc, ◌≡◌, refl, sym, ap, Option, none, some, true, arith, ◌==◌, Bool-cases, inl, inr,
  if◌then◌else◌,
}
use emlib.Mutex.{
  Native, Mutex, succ, os_error, ebusy, em_mutex_lock, em_mutex_trylock, em_mutex_unlock,
  em_mutex_destroy, em_mutex_is_locked, status_part, locks, Reach, created, later,
}
use emlib.Mutex.Tracked.{IsRecursive, FreeFor, taken, given, IsTracked, Reach-IsTracked}
use emlib.Mutex.Destroyed.{ReportsBusy, em_mutex_destroy_lem}

-- A native mutex whose state is its owner and how often the owner took it.
abbrev State : Type 0
State = Option (ℕ × ℕ)

abbrev lock : ℕ → State → Option (ℕ × State)
lock me none = some (0, some (me, 1))
lock me (some (t, n)) = if t == me then some (0, some (t, suc n)) else none

abbrev trylock : ℕ → State → ℕ × State
trylock me none = (0, some (me, 1))
trylock me (some (t, n)) = if t == me then (0, some (t, suc n)) else (ebusy, some (t, n))

abbrev unlock : ℕ → State → ℕ × State
unlock me none = (1, none)
unlock me (some (t, zero)) = (1, some (t, zero))
unlock me (some (t, suc n)) = if t == me then (0, given t n) else (1, some (t, suc n))

abbrev destroy : State → ℕ × State
destroy none = (0, none)
destroy (some p) = (ebusy, some p)

abbrev posix : Native State
posix = record {
  init = λ type. (0, none);
  lock = lock;
  trylock = trylock;
  unlock = unlock;
  destroy = destroy;
}

state_of :
    {s s' : State} {a b : ℕ} → ◌≡◌ {A = Option (ℕ × State)} (some (a, s)) (some (b, s')) → s ≡ s'
state_of {s} {s'} e = ap part e
  where
    part : Option (ℕ × State) → State
    part none = s'
    part (some r) = r.1

lock_law : (me : ℕ) (s s' : State) → lock me s ≡ some (0, s') → FreeFor me s × (s' ≡ taken me s)
lock_law me none s' e = (tt, sym (state_of e))
lock_law me (some (t, n)) s' e = elim (Bool-cases (t == me)) [
  | inl own ↦ (ground arith, sym (state_of (rw own at e)))
  | inr other ↦ absurd (ground (arith, rw other at e))
]

trylock_law : (me : ℕ) (s s' : State) → trylock me s ≡ (0, s') → FreeFor me s × (s' ≡ taken me s)
trylock_law me none s' e = (tt, sym (ap (λ r. r.1) e))
trylock_law me (some (t, n)) s' e = elim (Bool-cases (t == me)) [
  | inl own ↦ (ground arith, sym (ap (λ r. r.1) (rw own at e)))
  | inr other ↦ absurd (ground (arith, rw other at e))
]

lock_error_law : (me rc : ℕ) (s s' : State) → lock me s ≡ some (suc rc, s') → s' ≡ s
lock_error_law me rc none s' e = absurd (ground arith)
lock_error_law me rc (some (t, n)) s' e = elim (Bool-cases (t == me)) [
  | inl own ↦ absurd (ground (arith, rw own at e))
  | inr other ↦ absurd (ground (arith, rw other at e))
]

trylock_error_law : (me rc : ℕ) (s s' : State) → trylock me s ≡ (suc rc, s') → s' ≡ s
trylock_error_law me rc none s' e = let rc_eq = ap (λ r. r.0) e in absurd (ground arith)
trylock_error_law me rc (some (t, n)) s' e = elim (Bool-cases (t == me)) [
  | inl own ↦ let rc_eq = ap (λ r. r.0) (rw own at e) in absurd (ground arith)
  | inr other ↦ sym (ap (λ r. r.1) (rw other at e))
]

unlock_law :
    (me n : ℕ) (s : State)
    → s ≡ some (me, suc n)
    → ((unlock me s).0 ≡ 0) × ((unlock me s).1 ≡ given me n)
unlock_law me n s e = rw e (let own : (me == me) ≡ true = ground arith in rw own (refl, refl))

posix-IsRecursive : IsRecursive posix (λ s. s)
posix-IsRecursive = record {
  init = λ type e. refl;
  lock = lock_law;
  lock_error = lock_error_law;
  trylock = trylock_law;
  trylock_error = trylock_error_law;
  unlock = unlock_law;
}

posix-ReportsBusy : ReportsBusy posix (λ s. s)
posix-ReportsBusy = record { free = λ s e. rw e refl; busy = λ s p e. rw e (refl, refl) }

abbrev fresh : Mutex State
fresh = record { native = none; nesting_level = 0; owner = none }

abbrev once : Mutex State
once = record { native = some (1, 1); nesting_level = 1; owner = some 1 }

abbrev twice : Mutex State
twice = record { native = some (1, 2); nesting_level = 2; owner = some 1 }

fresh_locked : em_mutex_lock posix 1 fresh ≡ some (succ, once)
unfolding em_mutex_lock
fresh_locked = refl

once_locked : em_mutex_lock posix 1 once ≡ some (succ, twice)
unfolding em_mutex_lock
once_locked = refl

-- The second thread waits, and its trylock fails.
other_waits :
    (em_mutex_lock posix 2 twice ≡ none) × ((em_mutex_trylock posix 2 twice).0 ≡ os_error 16)
unfolding em_mutex_lock em_mutex_trylock
other_waits = (refl, refl)

twice-Reach : Reach posix 2 twice
twice-Reach =
    later (later (created fresh refl) (locks 1 succ once fresh_locked))
      (locks 1 succ twice once_locked)

Reach-IsTracked_example :
    IsTracked (λ s. s) twice
    × (status_part (em_mutex_unlock posix 1 twice)
        ≡ (if em_mutex_is_locked posix 1 twice then some succ else none))
Reach-IsTracked_example = Reach-IsTracked posix (λ s. s) 2 twice 1 posix-IsRecursive twice-Reach

abbrev five : Mutex State
five = record { native = some (1, 5); nesting_level = 5; owner = some 1 }

em_mutex_destroy_lem_example :
    ((em_mutex_destroy posix 1 twice).0 ≡ succ)
    × ((em_mutex_destroy posix 1 five).0 ≡ os_error ebusy)
    × ((em_mutex_destroy posix 1 five).1.native ≡ some (1, 2))
    × ((em_mutex_destroy posix 1 five).1.nesting_level ≡ 5)
em_mutex_destroy_lem_example =
    em_mutex_destroy_lem posix (λ s. s) 1 2 1 twice five posix-IsRecursive posix-ReportsBusy
      (omega arith) refl refl
