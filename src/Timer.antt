-- ===== src/Timer.antt =====
-- src/timer.c: the timer heap. Entries live at addresses and are named by them; the heap array
-- and the table of timer ids are functions of the index, so what stands outside of an array is
-- unknown memory, not a fault. An int is an integer without bounds: fewer than 2 ^ 31 timers.
pub mod Gap
pub mod Linked
pub mod Sift
pub mod Down
pub mod Valid
pub mod Freelist
pub mod Refill
pub mod Emptied
pub mod Remove
pub mod Insert
pub mod Grow
pub mod Schedule
pub mod Cancel
pub mod Calls
pub mod Root
pub mod Held
pub mod Poll
pub mod Create
pub mod Lifecycle
pub mod Exhausted
mod Tests
use emlib.Prelude.{
  ℕ, zero, suc, ◌+◌, ◌-◌, ◌*◌, ◌/◌, ◌^◌, Option, none, some, Bool, true, false, not, ◌&&◌, ◌||◌,
  ltb, leb, ◌==◌, if◌then◌else◌,
}
pub use emlib.Prelude.{put_at}
use emlib.Prelude.Int.{ℤ, pos, negsuc, neg, lt_ℤ, eq_ℤ, pos_part, neg_part}
use emlib.Time.{TimeVal, time_lt, time_gte}

-- `em_timer_entry`; `cb` and `grp_lock` are addresses, `none` for NULL. `user_data` is only carried.
pub record Entry : Type 0 where
  pub id : ℤ
  pub cb : Option ℕ
  pub timer_id : ℤ
  pub timer_value : TimeVal
  pub grp_lock : Option ℕ

-- `em_timer_heap_t` and the memory that holds the entries.
pub record Timers : Type 0 where
  pub max_size : ℕ
  pub cur_size : ℕ
  pub per_poll : ℕ
  pub heap : ℕ → ℕ
  pub timer_ids : ℤ → ℤ
  pub freelist : ℤ
  pub entries : ℕ → Entry

-- Writes to the table of ids.
abbrev pub put_id : (ℤ → ℤ) → ℤ → ℤ → ℤ → ℤ
put_id f i v j = if eq_ℤ i j then v else f j

-- The timer id and the time of an entry.
abbrev pub tid : Timers → ℕ → ℤ
tid ht e = (ht.entries e).timer_id

abbrev pub due : Timers → ℕ → TimeVal
due ht e = (ht.entries e).timer_value

-- HEAP_PARENT and HEAP_LEFT
abbrev pub parent : ℕ → ℕ
parent x = if x == 0 then 0 else (x - 1) / 2

abbrev pub left : ℕ → ℕ
left x = x + x + 1

unfoldable pub copy_node : Timers → ℕ → ℕ → Timers
copy_node ht slot moved = record ht {
  heap = put_at ht.heap slot moved;
  timer_ids = put_id ht.timer_ids (tid ht moved) (pos slot);
}

unfoldable pub pop_freelist : Timers → ℤ × Timers
pop_freelist ht = (ht.freelist, record ht { freelist = neg (ht.timer_ids ht.freelist) })

unfoldable pub push_freelist : Timers → ℤ → Timers
push_freelist ht old_id = record ht {
  timer_ids = put_id ht.timer_ids old_id (neg ht.freelist);
  freelist = old_id;
}

-- The smaller of the two children.
abbrev pub smaller_child : Timers → ℕ → ℕ
smaller_child ht child =
    if ltb (child + 1) ht.cur_size
      && time_lt (due ht (ht.heap (child + 1))) (due ht (ht.heap child))
    then child + 1
    else child

-- The loops take fuel. Callers give enough for the test of the loop to end it, so the clause for
-- no fuel is the way out of the loop.
unfoldable pub reheap_down : ℕ → Timers → ℕ → ℕ → ℕ → Timers
reheap_down zero ht moved slot child = copy_node ht slot moved
reheap_down (suc fuel) ht moved slot child =
    let c = smaller_child ht child in
    let rest = reheap_down fuel (copy_node ht slot (ht.heap c)) moved c (left c) in
    if ltb child ht.cur_size && time_lt (due ht (ht.heap c)) (due ht moved)
    then rest
    else copy_node ht slot moved

unfoldable pub reheap_up : ℕ → Timers → ℕ → ℕ → ℕ → Timers
reheap_up zero ht moved slot up = copy_node ht slot moved
reheap_up (suc fuel) ht moved slot up =
    let rest = reheap_up fuel (copy_node ht slot (ht.heap up)) moved up (parent up) in
    if ltb 0 slot && time_lt (due ht moved) (due ht (ht.heap up))
    then rest
    else copy_node ht slot moved

-- `removed_node->_timer_id = -1`, and the same after a cancel of a stale entry.
abbrev pub forget : Timers → ℕ → Timers
forget ht e = record ht {
  entries = put_at ht.entries e (record (ht.entries e) { timer_id = negsuc 0 });
}

-- The last entry moves into the slot that became free. `cur_size` is the size after the removal.
unfoldable pub refill : Timers → ℕ → Timers
refill ht slot =
    if ltb slot ht.cur_size
    then (let moved = ht.heap ht.cur_size in
        let ht' = copy_node ht slot moved in
        if time_gte (due ht' moved) (due ht' (ht'.heap (parent slot)))
        then reheap_down ht'.cur_size ht' moved slot (left slot)
        else reheap_up slot ht' moved slot (parent slot))
    else ht

-- `remove_node`, called only with a slot in use, so that `cur_size` is not 0.
unfoldable pub remove_node : Timers → ℕ → ℕ × Timers
remove_node ht slot =
    let removed = ht.heap slot in
    let ht' = push_freelist ht (tid ht removed) in
    let ht'' = forget (record ht' { cur_size = ht'.cur_size - 1 }) removed in
    (removed, refill ht'' slot)

-- What the two em_pool_alloc calls of `grow_heap` return: the memory of the new arrays, whatever
-- it holds, or `none` for NULL.
pub record NewArrays : Type 0 where
  pub new_heap : Option (ℕ → ℕ)
  pub new_timer_ids : Option (ℤ → ℤ)

-- The new table of ids: the old one, and behind it the continuation of the free list.
abbrev pub grown_ids : Timers → (ℤ → ℤ) → ℤ → ℤ
grown_ids ht memory x =
    if lt_ℤ x (pos 0)
    then memory x
    else if ltb (pos_part x) ht.max_size
    then ht.timer_ids x
    else if ltb (pos_part x) (ht.max_size * 2)
    then negsuc (pos_part x)
    else memory x

-- `none` where the code copies to NULL.
unfoldable pub grow_heap : Timers → NewArrays → Option Timers
grow_heap ht new = elim new.new_heap [
  | none ↦ none
  | some h ↦ elim new.new_timer_ids [
    | none ↦ none
    | some t ↦ some (record ht {
      max_size = ht.max_size * 2;
      heap = λ i. if ltb i ht.max_size then ht.heap i else h i;
      timer_ids = grown_ids ht t;
    })
  ]
]

-- The part of `insert_node` behind the growing.
unfoldable pub place : Timers → ℕ → Timers
place ht e =
    let ht' = reheap_up ht.cur_size ht e ht.cur_size (parent ht.cur_size) in
    record ht' { cur_size = ht'.cur_size + 1 }

unfoldable pub insert_node : Timers → ℕ → NewArrays → Option Timers
insert_node ht e new =
    if leb ht.max_size (ht.cur_size + 2)
    then elim (grow_heap ht new) [ none ↦ none | some ht' ↦ some (place ht' e) ]
    else some (place ht e)

-- `entry->_timer_id = pop_freelist(ht); entry->_timer_value = *future_time`
abbrev pub assign : Timers → ℕ → TimeVal → Timers
assign ht e time =
    let (new_id, ht') = pop_freelist ht in
    record ht' {
      entries =
          put_at ht'.entries e (record (ht'.entries e) { timer_id = new_id; timer_value = time });
    }

-- `schedule_entry`: `some (true, _)` for the status 0, `some (false, _)` for -1.
unfoldable pub schedule_entry : Timers → ℕ → TimeVal → NewArrays → Option (Bool × Timers)
schedule_entry ht e time new =
    if ltb ht.cur_size ht.max_size
    then elim (insert_node (assign ht e time) e new) [ none ↦ none | some ht' ↦ some (true, ht') ]
    else some (false, ht)

-- `cancel` with F_DONT_CALL, as its one caller gives it: the number of timers cancelled. The build
-- is one with NASSERT, where a failed assertion is logged only, so F_DONT_ASSERT changes nothing.
unfoldable pub cancel : Timers → ℕ → ℕ × Timers
cancel ht e =
    let id = tid ht e in
    if lt_ℤ id (pos 0) || ltb ht.max_size (pos_part id)
    then (0, forget ht e)
    else (let slot = ht.timer_ids id in
        if lt_ℤ slot (pos 0)
        then (0, forget ht e)
        else if not (ht.heap (pos_part slot) == e)
        then (0, forget ht e)
        else (1, (remove_node ht (pos_part slot)).1))

-- `em_timer_entry_running`
abbrev pub entry_running : Entry → Bool
entry_running entry = not (lt_ℤ entry.timer_id (pos 1))
