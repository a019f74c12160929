-- ===== src/Timer/Valid.antt =====
-- The invariant of the timer heap of src/timer.c.
use emlib.Prelude.{ℕ, suc, ◌+◌, ◌≤◌, ◌<◌, ◌≡◌, List, ◌++◌, All, Avoids, Distinct, length}
use emlib.Prelude.Int.{pos_part}
use emlib.Timer.{Timers, tid, due}
use emlib.Timer.Gap.{IsOrdered}
use emlib.Timer.Linked.{IsLive, Linked, AllLinked}
use emlib.Timer.Freelist.{IsIdle, Chain}

-- `free` is the free list, and `held` are the ids that a poll keeps back while callbacks run.
pub record IsValid (ht : Timers) (free held : List ℕ) : Type 0 where
  pub linked : AllLinked ht ht.cur_size
  pub ordered : IsOrdered (due ht) ht.heap ht.cur_size
  pub bounded : (e : ℕ) → IsLive ht e → pos_part (tid ht e) < ht.max_size
  pub chain : Chain ht.timer_ids ht.max_size ht.freelist free
  pub distinct : Distinct (held ++ free)
  pub reserved : All (IsIdle ht.timer_ids ht.max_size) held
  pub counted : suc (ht.cur_size + length free + length held) ≡ ht.max_size
  pub roomy : ht.cur_size + 2 ≤ ht.max_size

-- Between the assignment of an id to a new entry and its insertion: the entry's id is taken from
-- the free list, and the slot behind the last is the gap for it.
pub record IsPending (ht : Timers) (e : ℕ) (free held : List ℕ) : Type 0 where
  pub linked : Linked ht (suc ht.cur_size) ht.cur_size e
  pub ordered : IsOrdered (due ht) ht.heap ht.cur_size
  pub live : IsLive ht e
  pub bounded : (d : ℕ) → IsLive ht d → pos_part (tid ht d) < ht.max_size
  pub chain : Chain ht.timer_ids ht.max_size ht.freelist free
  pub distinct : Distinct (held ++ free)
  pub own : Avoids (pos_part (tid ht e)) (held ++ free)
  pub reserved : All (IsIdle ht.timer_ids ht.max_size) held
  pub counted : suc (suc (ht.cur_size + length free + length held)) ≡ ht.max_size
