-- ===== src/Timer/Tests.antt =====
-- src/timer.c on a concrete heap with two timers, and the theorems at inputs that meet their
-- hypotheses.
use emlib.Prelude.{
  ℕ, ◌+◌, ◌≤◌, ◌≡◌, refl, some, none, true, false, List, [], ◌∷◌, arith, ◌==◌, if◌then◌else◌, ◌⊎◌,
}
use emlib.Prelude.Int.{ℤ, pos, negsuc, eq_ℤ, pos_part}
use emlib.Time.{TimeVal, time_add, time_lte}
use emlib.Timer.{Timers, Entry, tid, due, schedule_entry, cancel, entry_running}
use emlib.Timer.Linked.{IsLive}
use emlib.Timer.Valid.{IsValid}
use emlib.Timer.Calls.{
  LockCall, succ, poll, next_delay, add_refs, dec_refs, schedule_w_grp_lock, cancel_timer,
}
use emlib.Timer.Schedule.{Scheduled, arrays, schedule_entry_total}
use emlib.Timer.Cancel.{cancel_total}
use emlib.Timer.Poll.{KeepsValid, poll_total}
use emlib.Timer.Lifecycle.{cancel-schedule}

abbrev at_second : ℕ → TimeVal
at_second s = record { sec = pos s; msec = pos 0 }

abbrev stored : ℤ → ℕ → Entry
stored id s = record {
  id = pos 0;
  cb = some 9;
  timer_id = id;
  timer_value = at_second s;
  grp_lock = none;
}

abbrev two_entries : ℕ → Entry
two_entries e =
    if e == 0 then stored (pos 2) 3 else if e == 1 then stored (pos 1) 5 else stored (negsuc 0) 0

abbrev two_ids : ℤ → ℤ
two_ids x = if eq_ℤ x (pos 2) then pos 0 else if eq_ℤ x (pos 1) then pos 1 else negsuc (pos_part x)

-- Entry 0 is due at second 3 and entry 1 at second 5.
abbrev two_timers : Timers
two_timers = record {
  max_size = 6;
  cur_size = 2;
  per_poll = 4;
  heap = λ i. if i == 0 then 0 else 1;
  timer_ids = two_ids;
  freelist = pos 3;
  entries = two_entries;
}

two_timers-IsValid : IsValid two_timers (3 ∷ 4 ∷ 5 ∷ []) []
two_timers-IsValid = record {
  linked = record { located = λ i lt. ground arith; placed = λ e live. ground arith };
  ordered = λ i h lt. ground arith;
  bounded = λ e live. ground arith;
  chain = ground arith;
  distinct = ground arith;
  reserved = tt;
  counted = refl;
  roomy = omega arith;
}

abbrev memory : ℕ → ℕ
memory i = 77

abbrev id_memory : ℤ → ℤ
id_memory x = pos 77

schedule_entry_total_example :
    (ht' : Timers) × (free' : List ℕ) × (schedule_entry two_timers 7
        (at_second 1)
        (arrays memory id_memory)
      ≡ some (true, ht'))
    × IsValid ht' free' []
    × Scheduled two_timers 7 3 (at_second 1) ht'
schedule_entry_total_example =
    schedule_entry_total two_timers 7 3 (at_second 1) (4 ∷ 5 ∷ []) [] memory id_memory
      two_timers-IsValid refl

cancel_total_example :
    (free' : List ℕ) × ((cancel two_timers 0).0
      ≡ (if entry_running (two_timers.entries 0) then 1 else 0))
    × ((cancel two_timers 0).1.cur_size + (cancel two_timers 0).0 ≡ 2)
    × IsValid (cancel two_timers 0).1 free' []
    × (entry_running ((cancel two_timers 0).1.entries 0) ≡ false)
cancel_total_example =
    cancel_total two_timers 0 (3 ∷ 4 ∷ 5 ∷ []) [] two_timers-IsValid (λ e. ground arith)

-- Callbacks that do nothing to the heap.
abbrev idle_callbacks : ℕ → Timers → ℕ → Timers
idle_callbacks f ht e = ht

idle_callbacks-KeepsValid : KeepsValid idle_callbacks
unfolding KeepsValid
idle_callbacks-KeepsValid f ht e free held v = (free, v, refl)

poll_total_example :
    (n : ℕ) × (ht' : Timers) × (calls : List LockCall) × (free' : List ℕ) × (poll idle_callbacks
        two_timers
        (at_second 4)
      ≡ some (n, next_delay ht' (at_second 4), ht', calls))
    × IsValid ht' free' []
    × (n ≤ 4)
    × ((n ≡ 4) ⊎ ((e : ℕ) → IsLive ht' e → time_lte (due ht' e) (at_second 4) ≡ false))
poll_total_example =
    poll_total idle_callbacks idle_callbacks-KeepsValid two_timers (at_second 4) (3 ∷ 4 ∷ 5 ∷ []) []
      two_timers-IsValid

abbrev no_entries : ℕ → Entry
no_entries e = stored (negsuc 0) 0

cancel-schedule_example :
    (ht' : Timers) × (free' : List ℕ) × (free'' : List ℕ) × (schedule_w_grp_lock two_timers 7
        (at_second 1)
        true
        (pos 8)
        (some 5)
        (at_second 3)
        (arrays memory id_memory)
      ≡ some (succ, ht', add_refs (some 5)))
    × IsValid ht' free' []
    × (ht'.cur_size ≡ 3)
    × IsLive ht' 7
    × (due ht' 7 ≡ time_add (at_second 3) (at_second 1))
    × ((cancel_timer ht' 7 false (pos 0)).0 ≡ 1)
    × IsValid (cancel_timer ht' 7 false (pos 0)).1 free'' []
    × ((cancel_timer ht' 7 false (pos 0)).1.cur_size ≡ 2)
    × (pos_part (tid (cancel_timer ht' 7 false (pos 0)).1 7) ≡ 0)
    × ((cancel_timer ht' 7 false (pos 0)).2 ≡ dec_refs (some 5))
cancel-schedule_example =
    cancel-schedule two_timers 7 9 (at_second 1) (at_second 3) true (pos 8) (some 5)
      (3 ∷ 4 ∷ 5 ∷ []) memory id_memory two_timers-IsValid refl refl

-- A heap made for one entry whose callback has scheduled its own entry again: the id 1 is held back,
-- entry 0 has the id 2, and no id is left.
abbrev crowded : Timers
crowded = record {
  max_size = 3;
  cur_size = 1;
  per_poll = 64;
  heap = λ i. 0;
  timer_ids = λ x. if eq_ℤ x (pos 2) then pos 0 else if eq_ℤ x (pos 1) then negsuc 0 else pos 77;
  freelist = pos 3;
  entries = λ e. if e == 0 then stored (pos 2) 3 else stored (negsuc 0) 0;
}

crowded-IsValid : IsValid crowded [] (1 ∷ [])
crowded-IsValid = record {
  linked = record { located = λ i lt. ground arith; placed = λ e live. ground arith };
  ordered = λ i h lt. absurd (omega arith);
  bounded = λ e live. ground arith;
  chain = refl;
  distinct = ground arith;
  reserved = ground arith;
  counted = refl;
  roomy = omega arith;
}
