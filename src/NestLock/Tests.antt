-- ===== src/NestLock/Tests.antt =====
-- Three nested locks by one thread.
use emlib.Prelude.{◌≡◌, Bool, false, arith}
use emlib.NestLock.{succ, einval, failed, nest_mutex_lock, nest_mutex_unlock}
use emlib.NestLock.Nesting.{lock_all, unlock_all, free_mutex, owned, unlock_all-lock_all}

unlock_all-lock_all_example :
    (lock_all 3 (free_mutex 0) 7 ≡ owned 7 3 1)
    × (unlock_all 3 (lock_all 3 (free_mutex 0) 7) 7 ≡ free_mutex 0)
    × ((given_back : Bool) → nest_mutex_unlock (owned 7 3 1) 9 given_back ≡ (einval, owned 7 3 1))
    × (nest_mutex_lock (owned 7 3 1) 9 false ≡ (failed, owned 7 3 1))
    × (nest_mutex_unlock (owned 7 1 1) 7 false ≡ (failed, free_mutex 1))
    × ((granted : Bool) → nest_mutex_lock (free_mutex 0) 0 granted ≡ (succ, owned 0 1 0))
unlock_all-lock_all_example =
    unlock_all-lock_all 2 7 9 0 (omega arith) (omega arith) (λ e. ground arith)
