-- ===== src/Timer/Lifecycle.antt =====
-- em_timer_heap_schedule_w_grp_lock and em_timer_heap_cancel of src/timer.c as their callers see
-- them.
use emlib.Prelude.{
  ℕ, suc, ◌<◌, ◌≡◌, refl, ap, subst, ◌∙◌, Option, some, none, Bool, true, false, List, [], ◌∷◌,
  arith,
}
use emlib.Prelude.Int.{ℤ, pos, pos_part, lt_ℤ}
use emlib.Time.{TimeVal, time_add}
use emlib.Timer.{Timers, tid, due, cancel}
use emlib.Timer.Linked.{IsLive}
use emlib.Timer.Schedule.{Scheduled, arrays, schedule_entry_total, has_id}
use emlib.Timer.Cancel.{cancel-Removed}
use emlib.Timer.Valid.{IsValid}
use emlib.Timer.Calls.{succ, set_entry, add_refs, dec_refs, schedule_w_grp_lock, cancel_timer}

-- The writes to id and lock of an entry do not touch the heap.
set_entry-IsValid :
    (ht : Timers) (e : ℕ) (set_id : Bool) (id_val : ℤ) (grp_lock : Option ℕ) (free held : List ℕ)
    → IsValid ht free held
    → IsValid (set_entry ht e set_id id_val grp_lock) free held
set_entry-IsValid ht e set_id id_val grp_lock free held v = record {
  linked = record {
    located = λ i lt. ground (arith, v.linked.located i);
    placed = λ d live. ground (arith, v.linked.placed d);
  };
  ordered = λ i h lt. ground (arith, v.ordered i h lt);
  bounded = λ d live. ground (arith, v.bounded d);
  chain = v.chain;
  distinct = v.distinct;
  reserved = v.reserved;
  counted = v.counted;
  roomy = v.roomy;
}

not_running : (ht : Timers) (e : ℕ) → pos_part (tid ht e) ≡ 0 → lt_ℤ (tid ht e) (pos 1) ≡ true
not_running ht e idle = ground arith

-- The entry after it was scheduled.
module _ (ht : Timers) (e k : ℕ) (time : TimeVal) (ht1 : Timers) (s : Scheduled ht e k time ht1)
    (set_id : Bool) (id_val : ℤ) (grp_lock : Option ℕ) where
  entry_now : ht1.entries e ≡ record (ht.entries e) { timer_id = pos k; timer_value = time }
  entry_now = ap (λ es. es e) s.entries ∙ ground arith

  entry-IsLive : 0 < k → IsLive (set_entry ht1 e set_id id_val grp_lock) e
  entry-IsLive h = ground (arith, ap (λ x. pos_part x.timer_id) entry_now)

  entry_due : due (set_entry ht1 e set_id id_val grp_lock) e ≡ time
  entry_due = ground (arith, ap (λ x. x.timer_value) entry_now)

first_positive : (ht : Timers) (k : ℕ) (free held : List ℕ) → IsValid ht (k ∷ free) held → 0 < k
first_positive ht k free held v = v.chain.1

-- The scheduling part of `cancel-schedule`.
schedule_w_grp_lock_total :
    (ht : Timers) (e f k : ℕ) (delay now : TimeVal) (set_id : Bool) (id_val : ℤ)
    (grp_lock : Option ℕ) (free : List ℕ) (h : ℕ → ℕ) (t : ℤ → ℤ)
    → IsValid ht (k ∷ free) []
    → (ht.entries e).cb ≡ some f
    → pos_part (tid ht e) ≡ 0
    → (ht' : Timers) × (free' : List ℕ) × (schedule_w_grp_lock ht e delay set_id id_val grp_lock now
          (arrays h t)
        ≡ some (succ, ht', add_refs grp_lock))
      × IsValid ht' free' []
      × (ht'.cur_size ≡ suc ht.cur_size)
      × IsLive ht' e
      × (due ht' e ≡ time_add now delay)
      × ((ht'.entries e).grp_lock ≡ grp_lock)
unfolding schedule_w_grp_lock
schedule_w_grp_lock_total ht e f k delay now set_id id_val grp_lock free h t v has_cb idle =
    let (ht1, free', eq, w, s) =
      schedule_entry_total ht e k (time_add now delay) free [] h t v idle in
    (
      set_entry ht1 e set_id id_val grp_lock,
      free',
      rw (schedule_w_grp_lock, has_cb, not_running ht e idle, eq) refl,
      set_entry-IsValid ht1 e set_id id_val grp_lock free' [] w,
      s.cur_size,
      entry-IsLive ht e k (time_add now delay) ht1 s set_id id_val grp_lock
          (first_positive ht k free [] v),
      entry_due ht e k (time_add now delay) ht1 s set_id id_val grp_lock,
      ground arith,
    )

-- The cancelling part.
cancel_timer-IsValid :
    (ht : Timers) (e : ℕ) (set_id : Bool) (id_val : ℤ) (free : List ℕ)
    → IsValid ht free []
    → IsLive ht e
    → ((cancel_timer ht e set_id id_val).0 ≡ 1)
      × IsValid (cancel_timer ht e set_id id_val).1 (pos_part (tid ht e) ∷ free) []
      × (suc (cancel_timer ht e set_id id_val).1.cur_size ≡ ht.cur_size)
      × (pos_part (tid (cancel_timer ht e set_id id_val).1 e) ≡ 0)
      × ((cancel_timer ht e set_id id_val).2 ≡ dec_refs (ht.entries e).grp_lock)
unfolding cancel_timer
cancel_timer-IsValid ht e set_id id_val free v live =
    let (one, w, r) = cancel-Removed ht e free [] v live in
    (
      one,
      set_entry-IsValid (cancel ht e).1 e set_id id_val none (pos_part (tid ht e) ∷ free) [] w,
      r.cur_size,
      ground (arith, ap (λ es. (es e).timer_id) r.entries),
      ap dec_refs (ap (λ es. (es e).grp_lock) r.entries ∙ ground arith),
    )

-- On a valid heap while no callback runs, and with memory to grow, scheduling an entry that has a
-- callback and is not running succeeds: the heap stays valid and has one entry more, the entry is
-- scheduled for the present time plus the delay with the group lock given, whose count goes up;
-- and then cancelling it answers 1, leaves a valid heap of the old size where the entry is not
-- scheduled, and gives the one reference back.
pub cancel-schedule :
    (ht : Timers) (e f : ℕ) (delay now : TimeVal) (set_id : Bool) (id_val : ℤ) (grp_lock : Option ℕ)
    (free : List ℕ) (h : ℕ → ℕ) (t : ℤ → ℤ)
    → IsValid ht free []
    → (ht.entries e).cb ≡ some f
    → pos_part (tid ht e) ≡ 0
    → (ht' : Timers) × (free' : List ℕ) × (free'' : List ℕ) × (schedule_w_grp_lock ht e delay set_id
          id_val grp_lock now
          (arrays h t)
        ≡ some (succ, ht', add_refs grp_lock))
      × IsValid ht' free' []
      × (ht'.cur_size ≡ suc ht.cur_size)
      × IsLive ht' e
      × (due ht' e ≡ time_add now delay)
      × ((cancel_timer ht' e false (pos 0)).0 ≡ 1)
      × IsValid (cancel_timer ht' e false (pos 0)).1 free'' []
      × ((cancel_timer ht' e false (pos 0)).1.cur_size ≡ ht.cur_size)
      × (pos_part (tid (cancel_timer ht' e false (pos 0)).1 e) ≡ 0)
      × ((cancel_timer ht' e false (pos 0)).2 ≡ dec_refs grp_lock)
cancel-schedule ht e f delay now set_id id_val grp_lock free h t v has_cb idle =
    let (k, rest, same) = has_id ht free v in
    let (ht', free', eq, w, size, live, at, lock) =
      schedule_w_grp_lock_total ht e f k delay now set_id id_val grp_lock rest h t
        (subst (λ l. IsValid ht l []) same v) has_cb idle in
    let (one, w', size', gone, refs) = cancel_timer-IsValid ht' e false (pos 0) free' w live in
    (
      ht',
      free',
      pos_part (tid ht' e) ∷ free',
      eq,
      w,
      size,
      live,
      at,
      one,
      w',
      omega (arith, size, size'),
      gone,
      refs ∙ ap dec_refs lock,
    )
