-- ===== src/Timer/Exhausted.antt =====
-- `schedule_entry` of src/timer.c tests the size of the heap, not the free list. The two differ by
-- the ids that polls hold back while callbacks run.
use emlib.Prelude.{ℕ, ◌<◌, ◌≡◌, List, [], arith}
use emlib.Prelude.Int.{pos}
use emlib.Time.{TimeVal}
use emlib.Timer.{Timers, tid, assign, pop_freelist}
use emlib.Timer.Valid.{IsValid}

-- On a valid heap whose free list is empty, since ids are held back, the test of `schedule_entry`
-- passes all the same, and the id that the entry gets is behind the last index of the table of ids.
pub assign_exhausted :
    (ht : Timers) (e : ℕ) (time : TimeVal) (held : List ℕ)
    → IsValid ht [] held
    → (ht.cur_size < ht.max_size) × (tid (assign ht e time) e ≡ pos ht.max_size)
unfolding pop_freelist
assign_exhausted ht e time held v = (omega (arith, v.roomy), ground (arith, v.chain))
