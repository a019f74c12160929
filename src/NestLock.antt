-- ===== src/NestLock.antt =====
-- src/nest_lock.c: a lock that the thread that has it may take again. Threads are the numbers that
-- `self` returns, 0 is LOCK_NO_BINDING (include/em/nest_lock.h), and `base` counts how often the lock
-- below is taken. The int32 `refcnt` is its 32-bit pattern: the overflow, which C leaves undefined,
-- wraps here. nest_lock_create has its body under #if 0, so no part of the library makes such a lock.
pub mod Nesting
mod Tests
use emlib.Prelude.{ℕ, suc, ◌+◌, ◌-◌, ◌%◌, ◌^◌, Bool, true, false, ◌==◌, if◌then◌else◌}

pub record NestMutex : Type 0 where
  pub who : ℕ
  pub refcnt : ℕ
  pub base : ℕ

pub data NestStatus : Type 0 where
  succ : NestStatus
  einval : NestStatus
  failed : NestStatus

-- `nest_mutex_lock`; `granted` is whether em_lock of the lock below succeeds.
unfoldable pub nest_mutex_lock : NestMutex → ℕ → Bool → NestStatus × NestMutex
nest_mutex_lock m me granted =
    if m.who == me
    then (succ, record m { refcnt = (m.refcnt + 1) % 2 ^ 32 })
    else if granted
    then (succ, record { who = me; refcnt = 1; base = m.base + 1 })
    else (failed, m)

-- `nest_mutex_unlock`; `given_back` is whether em_unlock of the lock below succeeds, whose answer is
-- the answer of the last unlock.
unfoldable pub nest_mutex_unlock : NestMutex → ℕ → Bool → NestStatus × NestMutex
nest_mutex_unlock m me given_back =
    if m.who == me
    then (let left = (m.refcnt + (2 ^ 32 - 1)) % 2 ^ 32 in
        if left == 0
        then (if given_back
            then (succ, record { who = 0; refcnt = left; base = m.base - 1 })
            else (failed, record m { who = 0; refcnt = left }))
        else (succ, record m { refcnt = left }))
    else (einval, m)
