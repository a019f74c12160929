-- ===== src/Timer/Root.antt =====
-- The root of the heap of src/timer.c is due first, so that em_timer_heap_earliest_time is right.
use emlib.Prelude.{ℕ, suc, zero, ◌≤◌, ◌<◌, ◌≡◌, subst, some, List, arith}
use emlib.Time.{TimeVal}
use emlib.Time.Order.{NotAfter, NotAfter-refl, NotAfter-trans}
use emlib.Timer.{Timers, due, parent}
use emlib.Timer.Gap.{IsOrdered}
use emlib.Timer.Linked.{IsLive, slot_of}
use emlib.Timer.Valid.{IsValid}
use emlib.Timer.Calls.{succ, earliest_time}

-- By induction on a bound of the slot: a parent stands before its children.
pub root_first :
    (due : ℕ → TimeVal) (heap : ℕ → ℕ) (n : ℕ)
    → IsOrdered due heap n
    → (bound i : ℕ) → i ≤ bound
    → i < n
    → NotAfter (due (heap 0)) (due (heap i))
root_first due heap n ord zero i le lt =
    subst (λ j. NotAfter (due (heap 0)) (due (heap j))) {x = 0} {y = i} (omega arith)
      (NotAfter-refl (due (heap 0)))
root_first due heap n ord (suc b) zero le lt = NotAfter-refl (due (heap 0))
root_first due heap n ord (suc b) (suc i) le lt =
    NotAfter-trans (due (heap 0)) (due (heap (parent (suc i)))) (due (heap (suc i)))
      (root_first due heap n ord b (parent (suc i)) (ground arith) (ground arith))
      (ord (suc i) (omega arith) lt)

-- On a valid heap no scheduled entry is due before the root.
pub root_before :
    (ht : Timers) (free held : List ℕ) (e : ℕ)
    → IsValid ht free held
    → IsLive ht e
    → NotAfter (due ht (ht.heap 0)) (due ht e)
root_before ht free held e v live =
    let (_, used, here) = v.linked.placed e live in
    subst (λ d. NotAfter (due ht (ht.heap 0)) (due ht d)) here
      (root_first (due ht) ht.heap ht.cur_size v.ordered (slot_of ht e) (slot_of ht e) (omega arith)
        used)

-- On a valid heap with a scheduled entry, em_timer_heap_earliest_time succeeds with the time of a
-- scheduled entry, and no scheduled entry is due before it.
pub earliest_time_lem :
    (ht : Timers) (free held : List ℕ) (d : ℕ)
    → IsValid ht free held
    → IsLive ht d
    → (first : ℕ) × (earliest_time ht ≡ (succ, some (due ht first)))
      × IsLive ht first
      × ((e : ℕ) → IsLive ht e → NotAfter (due ht first) (due ht e))
earliest_time_lem ht free held d v live =
    let (_, used, _) = v.linked.placed d live in
    (
      ht.heap 0,
      ground arith,
      (v.linked.located 0 (omega arith)).0,
      λ e live_e. root_before ht free held e v live_e,
    )
