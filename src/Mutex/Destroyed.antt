-- ===== src/Mutex/Destroyed.antt =====
-- em_mutex_destroy of src/os_core_unix.c on a recursive mutex that the thread holds.
use emlib.Prelude.{ℕ, zero, suc, ◌+◌, ◌≤◌, ◌≡◌, refl, ap, ◌∙◌, Option, none, some, true, arith, ltb}
use emlib.Mutex.{Native, Mutex, succ, os_error, status_of, ebusy, destroy_tries, em_mutex_destroy}
use emlib.Mutex.Tracked.{IsRecursive, given}

-- A pthread_mutex_destroy that destroys a free mutex and, as the one of Linux does, reports EBUSY for
-- one that is held.
pub record ReportsBusy {S : Type 0} (os : Native S) (view : S → Option (ℕ × ℕ)) : Type 0 where
  pub free : (s : S) → view s ≡ none → (os.destroy s).0 ≡ 0
  pub busy :
      (s : S) (p : ℕ × ℕ)
      → view s ≡ some p
      → ((os.destroy s).0 ≡ ebusy) × (view (os.destroy s).1 ≡ view s)

given-suc : (me n : ℕ) → given me (suc n) ≡ some (me, suc n)
given-suc me n = ground arith

module _ {S : Type 0} (os : Native S) (view : S → Option (ℕ × ℕ)) (r : IsRecursive os view)
    (b : ReportsBusy os view) (me : ℕ) where
  -- The state after a try that was not the last.
  abbrev retried : S → S
  retried s = (os.unlock me (os.destroy s).1).1

  retried_lem : (n : ℕ) (s : S) → view s ≡ some (me, suc n) → view (retried s) ≡ given me n
  retried_lem n s v = (r.unlock me n (os.destroy s).1 ((b.busy s (me, suc n) v).1 ∙ v)).1

  retry :
      (k n status : ℕ) (s : S)
      → view s ≡ some (me, suc n)
      → destroy_tries os me (suc (suc k)) status s ≡ destroy_tries os me (suc k) ebusy (retried s)
  unfolding destroy_tries
  retry k n status s v =
      let more : ltb 0 (suc k) ≡ true = ground arith in rw ((b.busy s (me, suc n) v).0, more) refl

  destroyed :
      (k n status : ℕ) (s : S)
      → n ≤ k
      → view s ≡ given me n
      → (destroy_tries os me (suc k) status s).0 ≡ 0
  unfolding destroy_tries
  destroyed k zero status s le v = rw (b.free s v) refl
  destroyed zero (suc n) status s le v = absurd (omega arith)
  destroyed (suc k) (suc n) status s le v =
      let held : view s ≡ some (me, suc n) = v ∙ given-suc me n in
      ap (λ x. x.0) (retry k n status s held)
      ∙ destroyed k n ebusy (retried s) (omega arith) (retried_lem n s held)

  refused :
      (k j status : ℕ) (s : S)
      → view s ≡ some (me, suc (k + j))
      → ((destroy_tries os me (suc k) status s).0 ≡ ebusy)
        × (view (destroy_tries os me (suc k) status s).1 ≡ some (me, suc j))
  unfolding destroy_tries
  refused zero j status s v =
      let (busy_rc, same) = b.busy s (me, suc (0 + j)) v in
      let sum : 0 + j ≡ j = omega arith in
      rw busy_rc (refl, same ∙ (v ∙ ap (λ i. some (me, suc i)) sum))
  refused (suc k) j status s v =
      let sum : suc k + j ≡ suc (k + j) = omega arith in
      let held : view s ≡ some (me, suc (suc (k + j))) = v ∙ ap (λ i. some (me, suc i)) sum in
      let left = retried_lem (suc (k + j)) s held ∙ given-suc me (k + j) in
      rw (retry k (suc (k + j)) status s held) (refused k j ebusy (retried s) left)

-- On a native mutex that does what POSIX says of a recursive one and reports EBUSY while it is held,
-- em_mutex_destroy destroys a mutex that is free or that the thread holds up to three levels deep;
-- of one that it holds deeper it gives up three levels and reports EBUSY, and the mutex still
-- records the level from before.
pub em_mutex_destroy_lem :
    {S : Type 0} (os : Native S) (view : S → Option (ℕ × ℕ)) (me n j : ℕ) (m m' : Mutex S)
    → IsRecursive os view
    → ReportsBusy os view
    → n ≤ 3
    → view m.native ≡ given me n
    → view m'.native ≡ some (me, suc (3 + j))
    → ((em_mutex_destroy os me m).0 ≡ succ)
      × ((em_mutex_destroy os me m').0 ≡ os_error ebusy)
      × (view (em_mutex_destroy os me m').1.native ≡ some (me, suc j))
      × ((em_mutex_destroy os me m').1.nesting_level ≡ m'.nesting_level)
em_mutex_destroy_lem os view me n j m m' r b le v v' =
    let (busy_rc, left) = refused os view r b me 3 j 0 m'.native v' in
    (ap status_of (destroyed os view r b me 3 n 0 m.native le v), ap status_of busy_rc, left, refl)
