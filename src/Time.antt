-- ===== src/Time.antt =====
-- Time values: `em_time_val` and its macros in include/em/types.h, `em_time_val_normalize` in
-- src/os_time_common.c. A `long` is an integer without bounds here: the C code overflows, which is
-- undefined, only for spans of some 10 ^ 15 years.
pub mod Normalize
pub mod Order
pub mod Span
mod Tests
use emlib.Prelude.{
  ℕ, zero, suc, ◌+◌, ◌-◌, ◌*◌, ◌/◌, ◌%◌, Bool, true, false, not, ◌&&◌, ◌||◌, if◌then◌else◌,
}
use emlib.Prelude.Int.{ℤ, pos, negsuc, ◌+ℤ◌, ◌-ℤ◌, lt_ℤ, eq_ℤ, pos_part, neg_part, sub_ℕ}

pub record TimeVal : Type 0 where
  pub sec : ℤ
  pub msec : ℤ

-- EM_TIME_VAL_EQ, GT, GTE, LT and LTE.
abbrev pub time_eq : TimeVal → TimeVal → Bool
time_eq a b = eq_ℤ a.sec b.sec && eq_ℤ a.msec b.msec

abbrev pub time_gt : TimeVal → TimeVal → Bool
time_gt a b = lt_ℤ b.sec a.sec || (eq_ℤ a.sec b.sec && lt_ℤ b.msec a.msec)

abbrev pub time_gte : TimeVal → TimeVal → Bool
time_gte a b = time_gt a b || time_eq a b

abbrev pub time_lt : TimeVal → TimeVal → Bool
time_lt a b = not (time_gte a b)

abbrev pub time_lte : TimeVal → TimeVal → Bool
time_lte a b = not (time_gt a b)

-- `t <= -1000`
abbrev pub below_second : ℤ → Bool
below_second t = not (lt_ℤ (negsuc 999) t)

-- The do-while loop for a negative millisecond part; the fuel bounds the number of rounds.
pub borrow : ℕ → TimeVal → TimeVal
borrow zero t = t
borrow (suc fuel) t =
    let t' : TimeVal = record { sec = t.sec -ℤ pos 1; msec = t.msec +ℤ pos 1000 } in
    let rest = borrow fuel t' in if below_second t'.msec then rest else t'

-- The first statement of `em_time_val_normalize`: whole seconds move out of the milliseconds.
pub carry : TimeVal → TimeVal
unfolding borrow
carry t =
    if not (lt_ℤ t.msec (pos 1000))
    then record { sec = t.sec +ℤ pos (pos_part t.msec / 1000); msec = pos (pos_part t.msec % 1000) }
    else if below_second t.msec
    then borrow (neg_part t.msec) t
    else t

-- The second: both parts get one sign.
pub align : TimeVal → TimeVal
align t =
    if lt_ℤ (pos 0) t.sec && lt_ℤ t.msec (pos 0)
    then record { sec = t.sec -ℤ pos 1; msec = t.msec +ℤ pos 1000 }
    else if lt_ℤ t.sec (pos 0) && lt_ℤ (pos 0) t.msec
    then record { sec = t.sec +ℤ pos 1; msec = t.msec -ℤ pos 1000 }
    else t

-- `em_time_val_normalize`
pub normalize : TimeVal → TimeVal
unfolding carry align
normalize t = align (carry t)

-- EM_TIME_VAL_ADD and EM_TIME_VAL_SUB: the new value of `t1`.
unfoldable pub time_add : TimeVal → TimeVal → TimeVal
time_add a b = normalize (record { sec = a.sec +ℤ b.sec; msec = a.msec +ℤ b.msec })

unfoldable pub time_sub : TimeVal → TimeVal → TimeVal
time_sub a b = normalize (record { sec = a.sec -ℤ b.sec; msec = a.msec -ℤ b.msec })
