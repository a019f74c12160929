-- ===== src/Mutex.antt =====
-- The mutexes of src/os_core_unix.c with EM_DEBUG set, when a mutex records its owner and how deep it
-- is nested. The mutex of the pthread library is a parameter, whose state is S; threads are numbers.
-- The fields that record the owner are
-- written while the thread has the native mutex, so that each operation is one step.
pub mod Tracked
pub mod Destroyed
mod Tests
use emlib.Prelude.{
  ℕ, zero, suc, ◌+◌, ◌-◌, ◌≡◌, Option, none, some, Bool, true, false, ◌&&◌, ◌==◌, ltb,
  if◌then◌else◌,
}

-- pthread_mutex_init, pthread_mutex_lock (none while the thread has to wait), pthread_mutex_trylock,
-- pthread_mutex_unlock and pthread_mutex_destroy: the result, and the state.
pub record Native (S : Type 0) : Type 0 where
  pub init : ℕ → ℕ × S
  pub lock : ℕ → S → Option (ℕ × S)
  pub trylock : ℕ → S → ℕ × S
  pub unlock : ℕ → S → ℕ × S
  pub destroy : S → ℕ × S

-- `em_mutex_t`, without its names
pub record Mutex (S : Type 0) : Type 0 where
  pub native : S
  pub nesting_level : ℕ
  pub owner : Option ℕ

pub data MutexStatus : Type 0 where
  succ : MutexStatus
  os_error : ℕ → MutexStatus

-- Success for 0, and EM_RETURN_OS_ERROR for others.
abbrev pub status_of : ℕ → MutexStatus
status_of zero = succ
status_of (suc rc) = os_error (suc rc)

abbrev pub is_owner : Option ℕ → ℕ → Bool
is_owner none me = false
is_owner (some t) me = t == me

abbrev pub ebusy : ℕ
ebusy = 16

module _ {S : Type 0} where
  -- What a lock leaves that has given this result, in `em_mutex_lock` and `em_mutex_trylock`.
  abbrev pub after_lock : ℕ → Mutex S → ℕ × S → MutexStatus × Mutex S
  after_lock me m (zero, s) =
      (succ, record { native = s; nesting_level = m.nesting_level + 1; owner = some me })
  after_lock me m (suc rc, s) = (os_error (suc rc), record m { native = s })

  abbrev pub lock_result : ℕ → Mutex S → Option (ℕ × S) → Option (MutexStatus × Mutex S)
  lock_result me m none = none
  lock_result me m (some r) = some (after_lock me m r)

  abbrev pub status_part : Option (MutexStatus × Mutex S) → Option MutexStatus
  status_part none = none
  status_part (some r) = some r.0

  -- The fields of `em_mutex_unlock` before its native unlock.
  abbrev pub left_once : Mutex S → Mutex S
  left_once m = record m {
    nesting_level = m.nesting_level - 1;
    owner = if m.nesting_level - 1 == 0 then none else m.owner;
  }

module _ {S : Type 0} (os : Native S) where
  -- `init_mutex` and `em_mutex_create`; the memory is taken as given.
  abbrev pub em_mutex_create : ℕ → MutexStatus × Option (Mutex S)
  em_mutex_create type =
      let r = os.init type in
      if r.0 == 0
      then (succ, some (record { native = r.1; nesting_level = 0; owner = none }))
      else (status_of r.0, none)

  -- `em_mutex_lock`, none while the thread waits, and `em_mutex_trylock`
  unfoldable pub em_mutex_lock : ℕ → Mutex S → Option (MutexStatus × Mutex S)
  em_mutex_lock me m = lock_result me m (os.lock me m.native)

  unfoldable pub em_mutex_trylock : ℕ → Mutex S → MutexStatus × Mutex S
  em_mutex_trylock me m = after_lock me m (os.trylock me m.native)

  -- `em_mutex_unlock`, none where its assertion stops the program
  unfoldable pub em_mutex_unlock : ℕ → Mutex S → Option (MutexStatus × Mutex S)
  em_mutex_unlock me m =
      let r = os.unlock me m.native in
      if is_owner m.owner me
      then some (status_of r.0, record (left_once m) { native = r.1 })
      else none

  -- The loop of `em_mutex_destroy` with k tries left, and the whole
  unfoldable pub destroy_tries : ℕ → ℕ → ℕ → S → ℕ × S
  destroy_tries me zero status s = (status, s)
  destroy_tries me (suc k) status s =
      let r = os.destroy s in
      let s' = if ltb 0 k && r.0 == ebusy then (os.unlock me r.1).1 else r.1 in
      let rest = destroy_tries me k r.0 s' in if r.0 == 0 then (0, r.1) else rest

  abbrev pub em_mutex_destroy : ℕ → Mutex S → MutexStatus × Mutex S
  em_mutex_destroy me m =
      let r = destroy_tries me 4 0 m.native in (status_of r.0, record m { native = r.1 })

  -- `em_mutex_is_locked`
  abbrev pub em_mutex_is_locked : ℕ → Mutex S → Bool
  em_mutex_is_locked me m = is_owner m.owner me

  -- The calls of threads on a mutex.
  pub data Step (m : Mutex S) : Mutex S → Type 0 where
    locks :
        (me : ℕ) (st : MutexStatus) (m' : Mutex S) → em_mutex_lock me m ≡ some (st, m') → Step m m'
    tries : (me : ℕ) → Step m (em_mutex_trylock me m).1
    unlocks :
        (me : ℕ) (st : MutexStatus) (m' : Mutex S)
        → em_mutex_unlock me m ≡ some (st, m')
        → Step m m'

  pub data Reach (type : ℕ) : Mutex S → Type 0 where
    created : (m : Mutex S) → em_mutex_create type ≡ (succ, some m) → Reach type m
    later : {m m' : Mutex S} → Reach type m → Step m m' → Reach type m'
