-- ===== src/Timer/Calls.antt =====
-- The calls of src/timer.c that applications make. A failed EMLIB_ASSERT_RETURN returns its value,
-- as in a build with NASSERT. The heap's own lock is held throughout each call, but for callbacks.
use emlib.Prelude.{
  ℕ, zero, suc, ◌+◌, Option, none, some, Bool, true, false, not, ◌&&◌, ◌||◌, List, [], ◌∷◌, ◌++◌,
  ltb, ◌==◌, if◌then◌else◌,
}
use emlib.Prelude.Int.{ℤ, pos, negsuc, lt_ℤ, pos_part}
use emlib.Time.{TimeVal, time_add, time_sub, time_lte}
use emlib.Timer.{
  Timers, Entry, NewArrays, tid, due, put_at, pop_freelist, push_freelist, remove_node,
  schedule_entry, cancel,
}

-- The status codes that the timer heap returns.
pub data TimerStatus : Type 0 where
  succ : TimerStatus
  einval : TimerStatus
  einvalidop : TimerStatus
  enomem : TimerStatus
  enotfound : TimerStatus
  failed : TimerStatus

-- The calls of the group locks that are made, in their order.
pub data LockCall : Type 0 where
  add_ref : ℕ → LockCall
  dec_ref : ℕ → LockCall

abbrev pub default_max_timed_out_per_poll : ℕ
default_max_timed_out_per_poll = 64

abbrev pub maxint32 : ℕ
maxint32 = 2147483647

-- The loop that fills the table of a new heap.
abbrev pub first_ids : ℕ → (ℤ → ℤ) → ℤ → ℤ
first_ids size memory x =
    if not (lt_ℤ x (pos 0)) && ltb (pos_part x) size then negsuc (pos_part x) else memory x

-- `em_timer_heap_create`; `struct_allocated` and `new` are the answers of the pool, and `entries`
-- what the memory of entries holds.
unfoldable pub heap_create : ℕ → Bool → NewArrays → (ℕ → Entry) → TimerStatus × Option Timers
heap_create count struct_allocated new entries =
    let size = count + 2 in
    if not struct_allocated then (enomem, none) else elim new.new_heap [
      | none ↦ (enomem, none)
      | some h ↦ elim new.new_timer_ids [
        | none ↦ (enomem, none)
        | some t ↦ (
          succ,
          some (record {
            max_size = size;
            cur_size = 0;
            per_poll = default_max_timed_out_per_poll;
            heap = h;
            timer_ids = first_ids size t;
            freelist = pos 1;
            entries = entries;
          }),
        )
      ]
    ]

abbrev pub set_max_timed_out_per_poll : Timers → ℕ → ℕ × Timers
set_max_timed_out_per_poll ht count = (ht.per_poll, record ht { per_poll = count })

abbrev pub entry_init : Entry → ℤ → ℕ → Entry
entry_init entry id cb = record entry {
  timer_id = negsuc 0;
  id = id;
  cb = some cb;
  grp_lock = none;
}

-- The writes to the entry of a call that succeeded.
abbrev pub set_entry : Timers → ℕ → Bool → ℤ → Option ℕ → Timers
set_entry ht e set_id id_val grp_lock =
    let old = ht.entries e in
    record ht {
      entries =
          put_at ht.entries e
            (record old { id = if set_id then id_val else old.id; grp_lock = grp_lock });
    }

abbrev pub add_refs : Option ℕ → List LockCall
add_refs none = []
add_refs (some l) = add_ref l ∷ []

abbrev pub dec_refs : Option ℕ → List LockCall
dec_refs none = []
dec_refs (some l) = dec_ref l ∷ []

-- `schedule_w_grp_lock`; `now` is what em_gettickcount gives. `none` for a copy to NULL.
unfoldable pub schedule_w_grp_lock :
    Timers
    → ℕ
    → TimeVal
    → Bool
    → ℤ
    → Option ℕ
    → TimeVal
    → NewArrays
    → Option (TimerStatus × Timers × List LockCall)
schedule_w_grp_lock ht e delay set_id id_val grp_lock now new = elim (ht.entries e).cb [
  | none ↦ some (einval, ht, [])
  | some _ ↦
      if not (lt_ℤ (tid ht e) (pos 1))
      then some (einvalidop, ht, [])
      else elim (schedule_entry ht e (time_add now delay) new) [
        | none ↦ none
        | some r ↦
            if r.0
            then some (succ, set_entry r.1 e set_id id_val grp_lock, add_refs grp_lock)
            else some (failed, r.1, [])
      ]
]

-- `em_timer_heap_schedule` and `em_timer_heap_schedule_w_grp_lock`
abbrev pub schedule :
    Timers → ℕ → TimeVal → TimeVal → NewArrays → Option (TimerStatus × Timers × List LockCall)
schedule ht e delay now new = schedule_w_grp_lock ht e delay false (pos 1) none now new

-- `cancel_timer`, with F_SET_ID as a Bool.
unfoldable pub cancel_timer : Timers → ℕ → Bool → ℤ → ℕ × Timers × List LockCall
cancel_timer ht e set_id id_val =
    let r = cancel ht e in
    let old = r.1.entries e in (r.0, set_entry r.1 e set_id id_val none, dec_refs old.grp_lock)

-- `em_timer_heap_cancel` and `em_timer_heap_cancel_if_active`
abbrev pub heap_cancel : Timers → ℕ → ℕ × Timers × List LockCall
heap_cancel ht e = cancel_timer ht e false (pos 0)

abbrev pub cancel_if_active : Timers → ℕ → ℤ → ℕ × Timers × List LockCall
cancel_if_active ht e id_val = cancel_timer ht e true id_val

abbrev pub heap_count : Timers → ℕ
heap_count ht = ht.cur_size

abbrev pub earliest_time : Timers → TimerStatus × Option TimeVal
earliest_time ht = if ht.cur_size == 0 then (einval, none) else (succ, some (due ht (ht.heap 0)))

-- `*next_delay` at the end of a poll.
abbrev pub next_delay : Timers → TimeVal → TimeVal
next_delay ht now =
    let d = time_sub (due ht (ht.heap 0)) now in
    if ht.cur_size == 0
    then record { sec = pos maxint32; msec = pos maxint32 }
    else if lt_ℤ d.sec (pos 0) || lt_ℤ d.msec (pos 0)
    then record { sec = pos 0; msec = pos 0 }
    else d

-- The call of a callback, if there is one; `callbacks` is what the code at an address does.
abbrev pub call_back : (ℕ → Timers → ℕ → Timers) → Option ℕ → Timers → ℕ → Timers
call_back callbacks none ht e = ht
call_back callbacks (some f) ht e = callbacks f ht e

-- A round of the loop up to the callback: the entry, its id, its group lock, and the heap.
abbrev pub expire : Timers → ℕ × ℤ × Option ℕ × Timers
expire ht =
    let (node, ht') = remove_node ht 0 in
    let (id, ht'') = pop_freelist ht' in
    let old = ht''.entries node in
    (
      node,
      id,
      old.grp_lock,
      record ht'' { entries = put_at ht''.entries node (record old { grp_lock = none }) },
    )

abbrev pub has_due : Timers → TimeVal → Bool
has_due ht now = not (ht.cur_size == 0) && time_lte (due ht (ht.heap 0)) now

-- The loop of `em_timer_heap_poll`: the number of callbacks, the heap, and the calls of group locks;
-- `none` when the fuel is used up.
unfoldable pub poll_loop :
    ℕ → (ℕ → Timers → ℕ → Timers) → Timers → TimeVal → ℕ → Option (ℕ × Timers × List LockCall)
poll_loop zero callbacks ht now count = none
poll_loop (suc fuel) callbacks ht now count =
    let (node, id, grp_lock, ht') = expire ht in
    let ht'' = push_freelist (call_back callbacks (ht'.entries node).cb ht' node) id in
    let rest = poll_loop fuel callbacks ht'' now (count + 1) in
    if has_due ht now && ltb count ht.per_poll
    then elim rest [ none ↦ none | some r ↦ some (r.0, r.1, dec_refs grp_lock ++ r.2) ]
    else some (count, ht, [])

-- `em_timer_heap_poll`, with the value it gives `*next_delay`.
unfoldable pub poll :
    (ℕ → Timers → ℕ → Timers) → Timers → TimeVal → Option (ℕ × TimeVal × Timers × List LockCall)
poll callbacks ht now = elim (poll_loop (suc ht.per_poll) callbacks ht now 0) [
  | none ↦ none
  | some r ↦ some (r.0, next_delay r.1 now, r.1, r.2)
]
