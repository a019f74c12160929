-- ===== src/Mutex/Tracked.antt =====
-- The owner and the nesting level that a recursive mutex of src/os_core_unix.c records.
use emlib.Prelude.{
  ℕ, zero, suc, ◌+◌, ◌-◌, ◌<◌, ◌≡◌, refl, sym, ap, ap₂, subst, ◌∙◌, Option, none, some, true, arith,
  ◌==◌, Bool-cases, inl, inr, if◌then◌else◌,
}
use emlib.Mutex.{
  Native, Mutex, MutexStatus, succ, is_owner, after_lock, lock_result, left_once, em_mutex_lock,
  em_mutex_trylock, em_mutex_unlock, em_mutex_is_locked, status_part, Step, locks, tries, unlocks,
  Reach, created, later,
}

-- A thread may take a recursive mutex that is free or its own, and is then one level deeper in it.
abbrev pub FreeFor : ℕ → Option (ℕ × ℕ) → Type 0
FreeFor me none = Unit
FreeFor me (some (t, n)) = t ≡ me

abbrev pub taken : ℕ → Option (ℕ × ℕ) → Option (ℕ × ℕ)
taken me none = some (me, 1)
taken me (some (t, n)) = some (t, suc n)

abbrev pub given : ℕ → ℕ → Option (ℕ × ℕ)
given me n = if n == 0 then none else some (me, n)

-- What POSIX says of a recursive mutex, of which `view` gives the owner and how often it took it.
pub record IsRecursive {S : Type 0} (os : Native S) (view : S → Option (ℕ × ℕ)) : Type 0 where
  pub init : (type : ℕ) → (os.init type).0 ≡ 0 → view (os.init type).1 ≡ none
  pub lock :
      (me : ℕ) (s s' : S)
      → os.lock me s ≡ some (0, s')
      → FreeFor me (view s) × (view s' ≡ taken me (view s))
  pub lock_error : (me rc : ℕ) (s s' : S) → os.lock me s ≡ some (suc rc, s') → view s' ≡ view s
  pub trylock :
      (me : ℕ) (s s' : S)
      → os.trylock me s ≡ (0, s')
      → FreeFor me (view s) × (view s' ≡ taken me (view s))
  pub trylock_error : (me rc : ℕ) (s s' : S) → os.trylock me s ≡ (suc rc, s') → view s' ≡ view s
  pub unlock :
      (me n : ℕ) (s : S)
      → view s ≡ some (me, suc n)
      → ((os.unlock me s).0 ≡ 0) × (view (os.unlock me s).1 ≡ given me n)

-- The owner and the nesting level say what the native mutex does.
abbrev pub Tracks : Option ℕ → ℕ → Option (ℕ × ℕ) → Type 0
Tracks none n v = (n ≡ 0) × (v ≡ none)
Tracks (some t) n v = (0 < n) × (v ≡ some (t, n))

module _ {S : Type 0} (view : S → Option (ℕ × ℕ)) where
  abbrev pub IsTracked : Mutex S → Type 0
  IsTracked m = Tracks m.owner m.nesting_level (view m.native)

-- After a lock.
Tracks-taken :
    (me : ℕ) (owner : Option ℕ) (n : ℕ) (v : Option (ℕ × ℕ))
    → Tracks owner n v
    → FreeFor me v
    → Tracks (some me) (n + 1) (taken me v)
Tracks-taken me none n v t f =
    let one : n + 1 ≡ 1 = omega (arith, t.0) in
    (omega arith, ap (taken me) t.1 ∙ ap (λ k. some (me, k)) (sym one))
Tracks-taken me (some u) n v t f =
    let same : u ≡ me = subst (FreeFor me) t.1 f in
    let more : suc n ≡ n + 1 = omega arith in
    (omega arith, ap (taken me) t.1 ∙ rw (same, more) refl)

-- After an unlock.
Tracks-given :
    (me : ℕ) (owner : Option ℕ) (n : ℕ) (v : Option (ℕ × ℕ))
    → is_owner owner me ≡ true
    → Tracks owner n v
    → (v ≡ some (me, suc (n - 1)))
      × Tracks (if n - 1 == 0 then none else owner) (n - 1) (given me (n - 1))
Tracks-given me none n v e t = absurd (ground arith)
Tracks-given me (some u) n v e t =
    let same : u ≡ me = ground arith in
    let less : n ≡ suc (n - 1) = omega (arith, t.0) in
    (
      t.1 ∙ ap₂ (λ x k. some (x, k)) same less,
      elim (Bool-cases (n - 1 == 0)) [
        | inl last ↦ rw last (ground arith, refl)
        | inr other ↦ rw (other, same) (ground arith, refl)
      ],
    )

some_eq : {A : Type 0} (a b : A) → some a ≡ some b → a ≡ b
some_eq a b e = ap (value_or b) e
  where
    value_or : {A : Type 0} → A → Option A → A
    value_or b none = b
    value_or b (some x) = x

some_snd :
    {A B : Type 0} (a a' : A) (b b' : B)
    → ◌≡◌ {A = Option (A × B)} (some (a, b)) (some (a', b'))
    → b ≡ b'
some_snd a a' b b' e = ap (λ p. p.1) (some_eq (a, b) (a', b') e)

module _ {S : Type 0} (os : Native S) (view : S → Option (ℕ × ℕ)) (r : IsRecursive os view) where
  locked :
      (me : ℕ) (m : Mutex S) (x : Option (ℕ × S))
      → os.lock me m.native ≡ x
      → (st : MutexStatus) (m' : Mutex S) → lock_result me m x ≡ some (st, m')
      → IsTracked view m
      → IsTracked view m'
  locked me m none e st m' f t = absurd (ground arith)
  locked me m (some (zero, s)) e st m' f t =
      let (free, now) = r.lock me m.native s e in
      subst (IsTracked view) (some_snd _ st _ m' f)
        (rw now (Tracks-taken me m.owner m.nesting_level (view m.native) t free))
  locked me m (some (suc rc, s)) e st m' f t =
      subst (IsTracked view) (some_snd _ st _ m' f) (rw (r.lock_error me rc m.native s e) t)

  tried :
      (me : ℕ) (m : Mutex S) (x : ℕ × S)
      → os.trylock me m.native ≡ x
      → IsTracked view m
      → IsTracked view (after_lock me m x).1
  tried me m (zero, s) e t =
      let (free, now) = r.trylock me m.native s e in
      rw now (Tracks-taken me m.owner m.nesting_level (view m.native) t free)
  tried me m (suc rc, s) e t = rw (r.trylock_error me rc m.native s e) t

  -- The unlock of the owner.
  unlock_lem :
      (me : ℕ) (m : Mutex S)
      → is_owner m.owner me ≡ true
      → IsTracked view m
      → ((os.unlock me m.native).0 ≡ 0)
        × IsTracked view (record (left_once m) { native = (os.unlock me m.native).1 })
  unlock_lem me m e t =
      let (own, left) = Tracks-given me m.owner m.nesting_level (view m.native) e t in
      let (done, now) = r.unlock me (m.nesting_level - 1) m.native own in (done, rw now left)

  unlocked :
      (me : ℕ) (m : Mutex S) (st : MutexStatus) (m' : Mutex S)
      → em_mutex_unlock os me m ≡ some (st, m')
      → IsTracked view m
      → IsTracked view m'
  unfolding em_mutex_unlock
  unlocked me m st m' f t = elim (Bool-cases (is_owner m.owner me)) [
    | inl own ↦ subst (IsTracked view) (some_snd _ st _ m' (rw own at f)) (unlock_lem me m own t).1
    | inr other ↦ absurd (ground (arith, rw other at f))
  ]

  step_lem : (m m' : Mutex S) → Step os m m' → IsTracked view m → IsTracked view m'
  unfolding em_mutex_lock em_mutex_trylock
  step_lem m _ (locks me st m' f) t = locked me m (os.lock me m.native) refl st m' f t
  step_lem m _ (tries me) t = tried me m (os.trylock me m.native) refl t
  step_lem m _ (unlocks me st m' f) t = unlocked me m st m' f t

  pub reach_lem : (type : ℕ) (m : Mutex S) → Reach os type m → IsTracked view m
  reach_lem type _ (created m e) = elim (Bool-cases ((os.init type).0 == 0)) [
    | inl made ↦
        subst (IsTracked view) (some_eq _ m (second (rw made at e)))
          (refl, r.init type (ground arith))
    | inr refused ↦ absurd (none_some m (second (rw refused at e)))
  ]
    where
      second : {x y : MutexStatus × Option (Mutex S)} → x ≡ y → x.1 ≡ y.1
      second e = ap (λ x. x.1) e

      none_some : (m : Mutex S) → ¬ (none ≡ some m)
      none_some m e = ground arith
  reach_lem type m (later h st) = step_lem _ m st (reach_lem type _ h)

  owner_unlock :
      (me : ℕ) (m : Mutex S)
      → IsTracked view m
      → status_part (em_mutex_unlock os me m)
        ≡ (if em_mutex_is_locked os me m then some succ else none)
  unfolding em_mutex_unlock
  owner_unlock me m t = elim (Bool-cases (is_owner m.owner me)) [
    | inl own ↦ rw (own, (unlock_lem me m own t).0) refl
    | inr other ↦ rw other refl
  ]

-- Whatever threads do to a mutex with lock, trylock and unlock after its creation, on a native mutex that
-- does what POSIX says of a recursive one, its owner and its nesting level are those of the native
-- mutex: none and 0 while it is free. And its unlock succeeds for the thread that
-- em_mutex_is_locked names, and stops at the assertion for others.
pub Reach-IsTracked :
    {S : Type 0} (os : Native S) (view : S → Option (ℕ × ℕ)) (type : ℕ) (m : Mutex S) (me : ℕ)
    → IsRecursive os view
    → Reach os type m
    → IsTracked view m
      × (status_part (em_mutex_unlock os me m)
          ≡ (if em_mutex_is_locked os me m then some succ else none))
Reach-IsTracked os view type m me r h =
    let t = reach_lem os view r type m h in (t, owner_unlock os view r me m t)
