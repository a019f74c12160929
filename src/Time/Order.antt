-- ===== src/Time/Order.antt =====
-- The comparison macros of include/em/types.h: a total order, and on normal values the order of
-- the spans.
use emlib.Prelude.{◌≡◌, true, false, not, arith, ◌⊎◌}
use emlib.Prelude.Int.{lt_ℤ, eq_ℤ}
use emlib.Time.{TimeVal, time_eq, time_gt, time_gte, time_lt, time_lte}
use emlib.Time.Normalize.{total_msec, total_parts, IsNormal}

-- `a` is not later than `b`.
abbrev pub NotAfter : TimeVal → TimeVal → Type 0
NotAfter a b = time_gt a b ≡ false

pub NotAfter-refl : (a : TimeVal) → NotAfter a a
NotAfter-refl a = ground arith

pub NotAfter-trans : (a b c : TimeVal) → NotAfter a b → NotAfter b c → NotAfter a c
NotAfter-trans a b c h k = ground arith

pub time_lt-true : (a b : TimeVal) → time_lt a b ≡ true → NotAfter a b
time_lt-true a b h = ground arith

pub time_lt-false : (a b : TimeVal) → time_lt a b ≡ false → NotAfter b a
time_lt-false a b h = ground arith

pub time_gte-true : (a b : TimeVal) → time_gte a b ≡ true → NotAfter b a
time_gte-true a b h = ground arith

pub time_gte-false : (a b : TimeVal) → time_gte a b ≡ false → NotAfter a b
time_gte-false a b h = ground arith

pub time_gte_self : (a : TimeVal) → time_gte a a ≡ true
time_gte_self a = ground arith

pub NotAfter-total : (a b : TimeVal) → NotAfter a b ⊎ NotAfter b a
NotAfter-total a b = ground arith

-- On normal values each of the five comparison macros agrees with the order of the spans in
-- milliseconds.
pub comparison_of_total :
    (a b : TimeVal)
    → IsNormal a
    → IsNormal b
    → (time_gt a b ≡ lt_ℤ (total_msec b) (total_msec a))
      × (time_gte a b ≡ not (lt_ℤ (total_msec a) (total_msec b)))
      × (time_lt a b ≡ lt_ℤ (total_msec a) (total_msec b))
      × (time_lte a b ≡ not (lt_ℤ (total_msec b) (total_msec a)))
      × (time_eq a b ≡ eq_ℤ (total_msec a) (total_msec b))
comparison_of_total a b na nb = (
  ground (arith, total_parts a, total_parts b),
  ground (arith, total_parts a, total_parts b),
  ground (arith, total_parts a, total_parts b),
  ground (arith, total_parts a, total_parts b),
  ground (arith, total_parts a, total_parts b),
)
