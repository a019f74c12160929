-- ===== src/Timer/Create.antt =====
-- em_timer_heap_create of src/timer.c establishes the invariant.
use emlib.Prelude.{ℕ, ◌+◌, ◌≡◌, refl, some, none, true, false, [], arith}
use emlib.Prelude.Int.{ℤ, pos, pos_part}
use emlib.Timer.{Timers, Entry, NewArrays}
use emlib.Timer.Freelist.{ids_from, length-ids_from, ids_from-Distinct, Chain-ids_from}
use emlib.Timer.Valid.{IsValid}
use emlib.Timer.Calls.{succ, enomem, heap_create, first_ids, default_max_timed_out_per_poll}

-- The heap that a call with enough memory makes.
abbrev pub empty_heap : ℕ → (ℕ → ℕ) → (ℤ → ℤ) → (ℕ → Entry) → Timers
empty_heap count h t entries = record {
  max_size = count + 2;
  cur_size = 0;
  per_poll = default_max_timed_out_per_poll;
  heap = h;
  timer_ids = first_ids (count + 2) t;
  freelist = pos 1;
  entries = entries;
}

-- em_timer_heap_create fails with EM_ENOMEM and without a heap when any of its three allocations
-- does; else, in a memory where no entry has a positive id, it gives a valid empty heap that has an
-- id for one entry more than was asked for.
pub heap_create-IsValid :
    (count : ℕ) (new : NewArrays) (h : ℕ → ℕ) (t : ℤ → ℤ) (entries : ℕ → Entry)
    → ((e : ℕ) → pos_part (entries e).timer_id ≡ 0)
    → (heap_create count false new entries ≡ (enomem, none))
      × (heap_create count true (record { new_heap = none; new_timer_ids = some t }) entries
          ≡ (enomem, none))
      × (heap_create count true (record { new_heap = some h; new_timer_ids = none }) entries
          ≡ (enomem, none))
      × (heap_create count true (record { new_heap = some h; new_timer_ids = some t }) entries
          ≡ (succ, some (empty_heap count h t entries)))
      × IsValid (empty_heap count h t entries) (ids_from 1 (count + 1)) []
unfolding heap_create
heap_create-IsValid count new h t entries idle = (
  refl,
  refl,
  refl,
  refl,
  record {
    linked = record {
      located = λ i lt. absurd (omega arith);
      placed = λ e live. absurd (omega (arith, idle e));
    };
    ordered = λ i positive lt. absurd (omega arith);
    bounded = λ e live. absurd (omega (arith, idle e));
    chain =
        Chain-ids_from (first_ids (count + 2) t) (count + 2) 1 (count + 1) (λ x le lt. ground arith)
          (omega arith) (omega arith);
    distinct = ids_from-Distinct 1 (count + 1);
    reserved = tt;
    counted = omega (arith, length-ids_from 1 (count + 1));
    roomy = omega arith;
  },
)
