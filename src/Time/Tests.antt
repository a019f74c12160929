-- ===== src/Time/Tests.antt =====
-- Time values on concrete spans, and the theorems at inputs that meet their hypotheses.
use emlib.Prelude.{◌≡◌, refl, inl, inr, arith}
use emlib.Prelude.Int.{pos, negsuc, ◌+ℤ◌, ◌-ℤ◌}
use emlib.Time.{TimeVal, normalize, carry, borrow, align}
use mathlib.Core.Quot
use emlib.Time.Normalize.{IsNormal}
use emlib.Time.Span.{Span, normal, normalize-chooses}

abbrev span : TimeVal
span = record { sec = pos 3; msec = negsuc 2499 }

-- 3 s - 2500 ms
span_normalizes : normalize span ≡ record { sec = pos 0; msec = pos 500 }
unfolding normalize carry borrow align ◌+ℤ◌ ◌-ℤ◌
span_normalizes = refl

abbrev half : TimeVal
half = record { sec = pos 0; msec = pos 500 }

abbrev later : TimeVal
later = record { sec = pos 7; msec = pos 3 }

half-IsNormal : IsNormal half
half-IsNormal = record { high = omega arith; low = omega arith; ahead = inl refl; back = inl refl }

later-IsNormal : IsNormal later
later-IsNormal = record { high = omega arith; low = omega arith; ahead = inr refl; back = inl refl }

abbrev half_second : Span
half_second = Quot.mk span

normalize-chooses_example :
    (Quot.mk (normal half_second) ≡ half_second)
    × ∥ IsNormal (normal half_second) ∥₁
    × (normal (Quot.mk half) ≡ half)
normalize-chooses_example = normalize-chooses half_second half half-IsNormal
