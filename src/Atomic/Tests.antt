-- ===== src/Atomic/Tests.antt =====
-- Two threads that add to one variable, the second between the steps of the first.
use emlib.Prelude.{◌≡◌, refl}
use emlib.Prelude.Int.{pos, ◌+ℤ◌}
use emlib.Atomic.{inc_and_get, dec_and_get, System, create, call, lock_mutex, read, write, unlock}

-- The second thread waits while the first has the mutex.
abbrev first_in : System
first_in = lock_mutex 0 inc_and_get (call 1 dec_and_get (call 0 inc_and_get (create (pos 5))))

abbrev first_done : System
first_done = unlock 0 (write 0 inc_and_get (pos 5) (read 0 inc_and_get first_in))

first_done-value : first_done.value ≡ pos 6
unfolding ◌+ℤ◌
first_done-value = refl
