-- ===== src/Timestamp/Tests.antt =====
-- Time stamps on both sides of a carry, and elapsed times within and beyond their bounds.
use emlib.Prelude.{◌≡◌, refl, none, arith}
use emlib.Timestamp.{
  Halves, cmp_timestamp, add_timestamp, sub_timestamp, cmp_halves, add_halves, add32_halves,
  sub_halves, sub32_halves, elapsed_nanosec, gettickcount,
}
use emlib.Timestamp.Agree.{value, IsHalves, halves-Agree}

abbrev just_below : Halves
just_below = record { hi = 1; lo = 4294967295 }

just_below-IsHalves : IsHalves just_below
just_below-IsHalves = record { high = omega arith; low = omega arith }

halves-Agree_example :
    (value (add_halves just_below just_below) ≡ add_timestamp (value just_below) (value just_below))
    × (value (sub_halves just_below just_below)
        ≡ sub_timestamp (value just_below) (value just_below))
    × (value (add32_halves just_below 1) ≡ add_timestamp (value just_below) 1)
    × (value (sub32_halves just_below 1) ≡ sub_timestamp (value just_below) 1)
    × (cmp_halves just_below just_below ≡ cmp_timestamp (value just_below) (value just_below))
halves-Agree_example =
    halves-Agree just_below just_below 1 just_below-IsHalves just_below-IsHalves (omega arith)

-- Ten seconds overflow: the result is not 10 ^ 10 modulo 2 ^ 32, which is 1410065408.
ten_seconds : elapsed_nanosec 0 10000000000 ≡ 143190519
ten_seconds = refl

-- After 107 days of running the tick count is not defined.
long_running : gettickcount 9244800 0 ≡ none
long_running = refl
